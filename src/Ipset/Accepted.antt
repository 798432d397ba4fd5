-- ===== src/Ipset/Accepted.antt =====
-- Which names of nftables sets `parse_name_nftset` of src/ipset.c accepts.
use mathlib.Core.Option.{some-injective}
use chinadns_ng.Prelude.{
  ℕ, ◌+◌, ◌-◌, ◌≤◌, ◌<◌, ◌≡◌, ◌↔◌, ◌⊎◌, inl, inr, refl, sym, ap, ◌∙◌, subst, false, ◌||◌, Option,
  none, some, ◌>>=◌, List, [], ◌∷◌, ◌++◌, ltb, ◌==◌, if◌then◌else◌, length, arith, Bool-cases,
  ==_iff, append-nil, none_ne, bind-eq-some, le→ltb, equal, eq_of_equal,
}
use chinadns_ng.Prelude.Words.{Bytes}
use chinadns_ng.Ipset.{
  nft_family_maxlen, nft_name_maxlen, family_of, NftName, take_part, parts_loop, parse_name_nftset,
}
use chinadns_ng.Ipset.Split.{HasNo}
use chinadns_ng.Ipset.Parts.{
  ArePartsOf, parts_exist, take_parts, parts_loop-take_parts, take_parts-n,
}

-- A name of a table or a set.
abbrev pub IsName : Bytes → Type 0
IsName part = (1 ≤ length part) × (length part < nft_name_maxlen)

abbrev with_family : ℕ → NftName
with_family family = record { n = 1; family = family; table_name = []; set_name = [] }

abbrev with_table : ℕ → Bytes → NftName
with_table family table = record { n = 2; family = family; table_name = table; set_name = [] }

abbrev pub nft_name : ℕ → Bytes → Bytes → NftName
nft_name family table set = record { n = 3; family = family; table_name = table; set_name = set }

take_family :
    (part : Bytes) (r : NftName)
    → take_part part (with_family 0) ≡ some r
    → (family : ℕ) × (family_of part ≡ some family) × (with_family family ≡ r)
unfolding take_part
take_family part r h = elim (Bool-cases (ltb (nft_family_maxlen - 1) (length part))) [
  | inl long ↦ absurd (none_ne (rw long at h))
  | inr short ↦
      let (family, e, same) =
        bind-eq-some (family_of part) (λ family. some (with_family family)) (rw short at h) in
      (family, e, some-injective (with_family family) r same)
]

IsName-bounds :
    (part : Bytes)
    → (ltb (length part) 1 || ltb (nft_name_maxlen - 1) (length part)) ≡ false
    → IsName part
IsName-bounds part h = ground arith

bounds-IsName :
    (part : Bytes)
    → IsName part
    → (ltb (length part) 1 || ltb (nft_name_maxlen - 1) (length part)) ≡ false
bounds-IsName part (some_char, short) = ground arith

take_table :
    (family : ℕ) (part : Bytes) (r : NftName)
    → take_part part (record (with_family family) { n = 2 }) ≡ some r
    → IsName part × (with_table family part ≡ r)
unfolding take_part
take_table family part r h =
    elim (Bool-cases (ltb (length part) 1 || ltb (nft_name_maxlen - 1) (length part))) [
      | inl bad ↦ absurd (none_ne (rw bad at h))
      | inr good ↦
          (IsName-bounds part good, some-injective (with_table family part) r (rw good at h))
    ]

take_set :
    (family : ℕ) (table part : Bytes) (r : NftName)
    → take_part part (record (with_table family table) { n = 3 }) ≡ some r
    → IsName part × (nft_name family table part ≡ r)
unfolding take_part
take_set family table part r h =
    elim (Bool-cases (ltb (length part) 1 || ltb (nft_name_maxlen - 1) (length part))) [
      | inl bad ↦ absurd (none_ne (rw bad at h))
      | inr good ↦
          (IsName-bounds part good, some-injective (nft_name family table part) r (rw good at h))
    ]

-- The text of a name: family, table and set; one separator more at the end is ignored.
abbrev pub nft_text : Bytes → Bytes → Bytes → Bytes → Bytes
nft_text family table set ending = family ++ b'@' ∷ (table ++ b'@' ∷ (set ++ ending))

abbrev pub IsEnding : Bytes → Type 0
IsEnding ending = (ending ≡ []) ⊎ (ending ≡ b'@' ∷ [])

-- The name is a text of a known family and the names of a table and a set.
abbrev pub IsNftName : Bytes → NftName → Type 0
IsNftName name r =
    (family : Bytes) × (table : Bytes) × (set : Bytes) × (ending : Bytes) × (number : ℕ) × (name
      ≡ nft_text family table set ending)
    × IsEnding ending
    × (family_of family ≡ some number)
    × (HasNo b'@' family × HasNo b'@' table × HasNo b'@' set)
    × (IsName table × IsName set)
    × (r ≡ nft_name number table set)

abbrev no_name : NftName
no_name = record { n = 0; family = 0; table_name = []; set_name = [] }

-- What stands behind the last separator.
last_part :
    (set rest : Bytes)
    → ArePartsOf rest (set ∷ [])
    → (ending : Bytes) × (rest ≡ set ++ ending) × IsEnding ending
last_part set rest (v, inl (ne, e, last)) = ([], e ∙ sym (append-nil set), inl refl)
last_part set rest (v, inr (more, e, end)) =
    (b'@' ∷ [], e ∙ ap (λ t. set ++ b'@' ∷ t) end, inr refl)

three_parts :
    (name : Bytes) (parts : List Bytes) (r : NftName)
    → ArePartsOf name parts
    → take_parts parts no_name ≡ some r
    → length parts ≡ 3
    → IsNftName name r
three_parts name [] r w h count = absurd (omega arith)
three_parts name (a ∷ []) r w h count = absurd (omega arith)
three_parts name (a ∷ b ∷ []) r w h count = absurd (omega arith)
three_parts name (a ∷ b ∷ c ∷ d ∷ parts) r w h count = absurd (omega arith)
three_parts name (a ∷ b ∷ c ∷ []) r (va, inl (ne, e, last)) h count = absurd cc
three_parts name (a ∷ b ∷ c ∷ []) r (va, inr (rest, e, (vb, inl (ne, e', last)))) h count =
    absurd cc
three_parts name (a ∷ b ∷ c ∷ []) r (va, inr (rest, e, (vb, inr (rest', e', (vc, last))))) h count =
    let (ending, e'', is_ending) = last_part c rest' (vc, last) in
    let (acc1, t1, h1) = bind-eq-some (take_part a (with_family 0)) (take_parts (b ∷ c ∷ [])) h in
    let (number, known, at1) = take_family a acc1 t1 in
    let (acc2, t2, h2) =
      bind-eq-some (take_part b (record (with_family number) { n = 2 })) (take_parts (c ∷ []))
        (subst (λ acc. take_parts (b ∷ c ∷ []) acc ≡ some r) (sym at1) h1) in
    let (is_table, at2) = take_table number b acc2 t2 in
    let (acc3, t3, h3) =
      bind-eq-some (take_part c (record (with_table number b) { n = 3 })) (take_parts [])
        (subst (λ acc. take_parts (c ∷ []) acc ≡ some r) (sym at2) h2) in
    let (is_set, at3) = take_set number b c acc3 t3 in
    (
      a,
      b,
      c,
      ending,
      number,
      e ∙ ap (λ t. a ++ b'@' ∷ t) (e' ∙ ap (λ t. b ++ b'@' ∷ t) e''),
      is_ending,
      known,
      (va, vb, vc),
      (is_table, is_set),
      sym (at3 ∙ some-injective acc3 r h3),
    )

parse_name_nftset_sound :
    (name : Bytes) (r : NftName) → parse_name_nftset name ≡ some r → IsNftName name r
unfolding parse_name_nftset
parse_name_nftset_sound name r h =
    let (acc, e, t) =
      bind-eq-some (parts_loop (length name + 1) name no_name)
        (λ acc. if acc.n == 3 then some acc else none) h in
    elim (Bool-cases (acc.n == 3)) [
      | inl three ↦
          let (parts, w) = parts_exist (length name + 1) name (omega arith) in
          let taken : take_parts parts no_name ≡ some acc =
            sym (parts_loop-take_parts (length name + 1) name parts no_name (omega arith) w) ∙ e in
          let count : acc.n ≡ 3 = (==_iff (acc.n) 3).0 three in
          subst (IsNftName name) (some-injective acc r (rw three at t)) (
            three_parts name parts acc w taken
              (omega (arith, count, take_parts-n parts no_name acc taken)))
      | inr other ↦ absurd (none_ne (rw other at t))
    ]

family_of-if :
    (family text : Bytes) (n m : ℕ) (rest : Option ℕ)
    → length text ≤ 6
    → (rest ≡ some m → length family ≤ 6)
    → (if equal family text then some n else rest) ≡ some m
    → length family ≤ 6
family_of-if family text n m rest short later h = elim (Bool-cases (equal family text)) [
  | inl same ↦ omega (arith, short, ap length (eq_of_equal family text same))
  | inr other ↦ later (rw other at h)
]

family_of-short : (family : Bytes) (m : ℕ) → family_of family ≡ some m → length family ≤ 6
unfolding family_of
family_of-short family m = family_of-if family _ _ m _ (omega arith) (
    family_of-if family _ _ m _ (omega arith) (
      family_of-if family _ _ m _ (omega arith) (
        family_of-if family _ _ m _ (omega arith) (
          family_of-if family _ _ m _ (omega arith)
            (family_of-if family _ _ m _ (omega arith) (λ e. absurd (none_ne e)))))))

take_parts-nft_name :
    (family table set : Bytes) (number : ℕ)
    → family_of family ≡ some number
    → IsName table
    → IsName set
    → take_parts (family ∷ table ∷ set ∷ []) no_name ≡ some (nft_name number table set)
unfolding take_part
take_parts-nft_name family table set number known is_table is_set =
    rw
      (
        le→ltb (nft_family_maxlen - 1) (length family) (family_of-short family number known),
        known,
        bounds-IsName table is_table,
        bounds-IsName set is_set,
      )
      refl

ArePartsOf-set :
    (set ending : Bytes)
    → IsName set
    → HasNo b'@' set
    → IsEnding ending
    → ArePartsOf (set ++ ending) (set ∷ [])
ArePartsOf-set set ending is_set v (inl none_left) =
    let whole : set ++ ending ≡ set = ap (λ t. set ++ t) none_left ∙ append-nil set in
    (v, inl ((λ e. omega (arith, is_set.0, ap length whole, ap length e)), whole, refl))
ArePartsOf-set set ending is_set v (inr at) = (v, inr ([], ap (λ t. set ++ t) at, refl))

ArePartsOf-nft_text :
    (family table set ending : Bytes)
    → IsName set
    → IsEnding ending
    → HasNo b'@' family × HasNo b'@' table × HasNo b'@' set
    → ArePartsOf (nft_text family table set ending) (family ∷ table ∷ set ∷ [])
ArePartsOf-nft_text family table set ending is_set is_ending (va, vb, vc) =
    let rest : Bytes = table ++ b'@' ∷ (set ++ ending) in
    (
      va,
      inr (
        rest,
        refl,
        (vb, inr (set ++ ending, refl, ArePartsOf-set set ending is_set vc is_ending)),
      ),
    )

parse_name_nftset-nft_text :
    (family table set ending : Bytes) (number : ℕ)
    → IsEnding ending
    → family_of family ≡ some number
    → HasNo b'@' family × HasNo b'@' table × HasNo b'@' set
    → IsName table × IsName set
    → parse_name_nftset (nft_text family table set ending) ≡ some (nft_name number table set)
unfolding parse_name_nftset
parse_name_nftset-nft_text family table set ending number is_ending known no_at names =
    let text : Bytes = nft_text family table set ending in
    let parts : List Bytes = family ∷ table ∷ set ∷ [] in
    ap (λ o. o >>= λ acc. if acc.n == 3 then some acc else none)
      (parts_loop-take_parts (length text + 1) text parts no_name (omega arith)
          (ArePartsOf-nft_text family table set ending names.1 is_ending no_at)
        ∙ take_parts-nft_name family table set number known names.0 names.1)

-- Exactly the names "family@table@set" are accepted, with one "@" more at the end or none, of one of
-- the six families and names of 1 to 255 bytes without "@"; the result is their parts.
pub parse_name_nftset-IsNftName :
    (name : Bytes) (r : NftName) → (parse_name_nftset name ≡ some r) ↔ IsNftName name r
parse_name_nftset-IsNftName name r = (
  parse_name_nftset_sound name r,
  (λ (family, table, set, ending, number, e, is_ending, known, no_at, names, same).
      let text : Bytes = nft_text family table set ending in
      subst (λ n. parse_name_nftset n ≡ some r) (sym e)
        (subst (λ a. parse_name_nftset text ≡ some a) (sym same)
          (parse_name_nftset-nft_text family table set ending number is_ending known no_at names))),
)
