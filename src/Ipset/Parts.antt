-- ===== src/Ipset/Parts.antt =====
-- The name of a nftables set in src/ipset.c as its parts, and the loop of `parse_name_nftset` on them.
use mathlib.Core.Path.{fun_ext}
use mathlib.Core.Option.{some-injective}
use chinadns_ng.Prelude.{
  ℕ, zero, suc, ◌+◌, ◌-◌, ◌<◌, ◌≡◌, ◌≢◌, ◌⊎◌, inl, inr, refl, sym, ap, ◌∙◌, ◌||◌, Option, none,
  some, ◌>>=◌, List, [], ◌∷◌, ◌++◌, ltb, ◌==◌, length, length-append, arith, Bool-cases, none_ne,
  bind-eq-some,
}
use chinadns_ng.Prelude.Words.{Bytes}
use chinadns_ng.Ipset.{
  nft_family_maxlen, nft_name_maxlen, split_at, family_of, NftName, take_part, parts_loop,
}
use chinadns_ng.Ipset.Split.{HasNo, split_at-last, split_at-part, IsSplitAt-all}

-- The parts of a name between its separators. No part stands behind a separator that ends the name.
abbrev pub ArePartsOf : Bytes → List Bytes → Type 0
ArePartsOf name [] = name ≡ []
ArePartsOf name (part ∷ parts) =
    HasNo b'@' part
    × ((name ≢ [] × (name ≡ part) × (parts ≡ []))
        ⊎ ((rest : Bytes) × (name ≡ part ++ b'@' ∷ rest) × ArePartsOf rest parts))

pub parts_exist :
    (fuel : ℕ) (name : Bytes) → length name < fuel → (parts : List Bytes) × ArePartsOf name parts
parts_exist zero name h = absurd (omega arith)
parts_exist (suc fuel) [] h = ([], refl)
parts_exist (suc fuel) (c ∷ name) h = elim (IsSplitAt-all b'@' (c ∷ name)) [
  | inl v ↦ ((c ∷ name) ∷ [], (v, inl ((λ e. cc), refl, refl)))
  | inr (part, rest, e, v) ↦
      let (parts, w) =
        parts_exist fuel rest (omega (arith, h, ap length e, length-append part (b'@' ∷ rest))) in
      (part ∷ parts, (v, inr (rest, e, w)))
]

-- The parts are taken from the left.
abbrev pub take_parts : List Bytes → NftName → Option NftName
take_parts [] acc = some acc
take_parts (part ∷ parts) acc =
    take_part part (record acc { n = acc.n + 1 }) >>= λ acc'. take_parts parts acc'

-- What the loop does behind a part.
abbrev go_on : ℕ → Option Bytes → NftName → Option NftName
go_on fuel none acc = some acc
go_on fuel (some next) acc = parts_loop fuel next acc

parts_loop-part :
    (fuel : ℕ) (name part : Bytes) (behind : Option Bytes) (acc : NftName)
    → name ≢ []
    → split_at b'@' name ≡ (part, behind)
    → parts_loop (suc fuel) name acc
      ≡ (take_part part (record acc { n = acc.n + 1 }) >>= λ acc'. go_on fuel behind acc')
unfolding parts_loop
parts_loop-part fuel [] part behind acc ne e = absurd (ne refl)
parts_loop-part fuel (c ∷ name) part none acc ne e = rw e refl
parts_loop-part fuel (c ∷ name) part (some next) acc ne e = rw e refl

-- A text with a separator is not empty.
part_ne : (part rest : Bytes) → part ++ b'@' ∷ rest ≢ []
part_ne [] rest e = cc
part_ne (c ∷ part) rest e = cc

pub parts_loop-take_parts :
    (fuel : ℕ) (name : Bytes) (parts : List Bytes) (acc : NftName)
    → length name < fuel
    → ArePartsOf name parts
    → parts_loop fuel name acc ≡ take_parts parts acc
unfolding parts_loop
parts_loop-take_parts zero name parts acc h w = absurd (omega arith)
parts_loop-take_parts (suc fuel) name [] acc h w = ap (λ n. parts_loop (suc fuel) n acc) w
parts_loop-take_parts (suc fuel) name (part ∷ parts) acc h (v, inl (ne, e, last)) =
    parts_loop-part fuel name part none acc ne (ap (split_at b'@') e ∙ split_at-last b'@' part v)
    ∙ ap (λ ps. take_part part (record acc { n = acc.n + 1 }) >>= λ acc'. take_parts ps acc')
        (sym last)
parts_loop-take_parts (suc fuel) name (part ∷ parts) acc h (v, inr (rest, e, w)) =
    let step : (acc' : NftName) → parts_loop fuel rest acc' ≡ take_parts parts acc' = λ acc'.
      parts_loop-take_parts fuel rest parts acc'
        (omega (arith, h, ap length e, length-append part (b'@' ∷ rest))) w in
    parts_loop-part fuel name part (some rest) acc (λ empty. part_ne part rest (sym e ∙ empty))
      (ap (split_at b'@') e ∙ split_at-part b'@' part rest v)
    ∙ ap (λ f. take_part part (record acc { n = acc.n + 1 }) >>= f) (fun_ext step)

take_part-n : (part : Bytes) (acc r : NftName) → take_part part acc ≡ some r → r.n ≡ acc.n
unfolding take_part
take_part-n part acc r h = elim (Bool-cases (acc.n == 1)) [
  | inl first ↦ elim (Bool-cases (ltb (nft_family_maxlen - 1) (length part))) [
    | inl long ↦ absurd (none_ne (rw (first, long) at h))
    | inr short ↦
        let (family, e, same) =
          bind-eq-some (family_of part) (λ family. some (record acc { family = family }))
            (rw (first, short) at h) in
        ap (λ a. a.n) (sym (some-injective (record acc { family = family }) r same))
  ]
  | inr later ↦ elim (Bool-cases (ltb 3 acc.n)) [
    | inl many ↦ absurd (none_ne (rw (later, many) at h))
    | inr few ↦ elim (Bool-cases (ltb (length part) 1 || ltb (nft_name_maxlen - 1) (length part))) [
      | inl bad ↦ absurd (none_ne (rw (later, few, bad) at h))
      | inr good ↦ elim (Bool-cases (acc.n == 2)) [
        | inl second ↦
            ap (λ a. a.n)
              (sym (
                some-injective (record acc { table_name = part }) r
                  (rw (later, few, good, second) at h)))
        | inr third ↦
            ap (λ a. a.n)
              (sym (
                some-injective (record acc { set_name = part }) r
                  (rw (later, few, good, third) at h)))
      ]
    ]
  ]
]

-- Each part counts.
pub take_parts-n :
    (parts : List Bytes) (acc r : NftName)
    → take_parts parts acc ≡ some r
    → r.n ≡ acc.n + length parts
take_parts-n [] acc r h = omega (arith, ap (λ a. a.n) (some-injective acc r h))
take_parts-n (part ∷ parts) acc r h =
    let next : NftName = record acc { n = acc.n + 1 } in
    let (acc', e, t) = bind-eq-some (take_part part next) (take_parts parts) h in
    omega (arith, take_part-n part next acc' e, take_parts-n parts acc' r t)
