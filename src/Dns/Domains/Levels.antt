-- ===== src/Dns/Domains/Levels.antt =====
-- The domains that `dns_qname_domains` of src/dns.c finds, against the labels of the name.
use mathlib.Core.Bool.{false≢true}
use chinadns_ng.Dns.Domains.Masks.{
  mask_of, flag_at, is_in, first_flag, mask_of-flag_at, ctz-first_flag, flag_at-before,
  flag_at-first, first_flag-mask_of, flag_at-past,
}
use chinadns_ng.Prelude.{
  ◌<◌, Bool, sym, ℕ, zero, suc, ◌+◌, ◌-◌, ◌≤◌, ◌≡◌, ◌≢◌, refl, ap, ◌∙◌, ◌&&◌, some, List, [], ◌∷◌,
  ◌++◌, map, arith, ltb, leb, if◌then◌else◌, length, take, drop, All, inl, inr, Bool-cases,
  append_assoc, le→leb, ==_ne, length-append, drop-append, take-append,
}
use chinadns_ng.Prelude.Words.{Bytes}
use chinadns_ng.Dns.Header.{header_size, label_maxlen}
use chinadns_ng.Dns.Name.Labels.{IsLabel, encode_labels, wire_name}
use chinadns_ng.Dns.Domains.{
  count_levels, is_interest, ctz, collect_domains, QnameDomains, too_shallow, domains,
  select_domains, dns_qname_domains,
}

-- The suffixes of a name whose number of labels is in the set, longest first.
unfoldable pub interesting : List Bool → List Bytes → List (List Bytes)
interesting flags [] = []
interesting flags (l ∷ ls) =
    let rest = interesting flags ls in
    if is_in flags (length (l ∷ ls)) then (l ∷ ls) ∷ rest else rest

-- The result with these suffixes; without any, the name is too shallow.
unfoldable pub found : List (List Bytes) → ℕ → QnameDomains
found [] qname_end = too_shallow
found (ls ∷ suffixes) qname_end = domains (map wire_name (ls ∷ suffixes)) qname_end

count_levels-wire_name :
    (fuel : ℕ) (ls : List Bytes)
    → All IsLabel ls
    → length (wire_name ls) ≤ fuel
    → count_levels fuel (wire_name ls) ≡ some (length ls)
unfolding count_levels
count_levels-wire_name zero [] v h = absurd (omega arith)
count_levels-wire_name (suc fuel) [] v h = refl
count_levels-wire_name zero (l ∷ ls) v h = absurd (omega arith)
count_levels-wire_name (suc fuel) (l ∷ ls) v h =
    let tail : (l ++ encode_labels ls) ++ 0 ∷ [] ≡ l ++ wire_name ls = simp append_assoc in
    let count : 1 + length ls ≡ suc (length ls) = omega arith in
    let some_len : length l ≢ 0 = omega (arith, v.0.0) in
    rw
      (
        tail,
        drop-append l (wire_name ls) (length l) refl,
        ==_ne (length l) 0 some_len,
        le→leb (length l) label_maxlen v.0.1,
        count_levels-wire_name fuel ls v.1
            (omega (arith, ap length tail, length-append l (wire_name ls))),
      )
      (ap some count)

-- The test of the second loop, on a set of the levels 1 to 8.
is_interest-is_in :
    (flags : List Bool) (n : ℕ)
    → length flags ≡ 8
    → (leb (suc n) 8 && is_interest (mask_of flags) (suc n)) ≡ is_in flags (suc n)
is_interest-is_in flags n size = elim (Bool-cases (leb (suc n) 8)) [
  | inl low ↦ let same : suc n - 1 ≡ n = omega arith in rw (low, same) (mask_of-flag_at flags n)
  | inr high ↦ rw high (sym (flag_at-past flags n (ground (arith, size))))
]

collect_domains-wire_name :
    (flags : List Bool) (ls : List Bytes)
    → length flags ≡ 8
    → collect_domains (mask_of flags) (length ls) (wire_name ls)
      ≡ map wire_name (interesting flags ls)
unfolding collect_domains interesting
collect_domains-wire_name flags [] size = refl
collect_domains-wire_name flags (l ∷ ls) size =
    let tail : (l ++ encode_labels ls) ++ 0 ∷ [] ≡ l ++ wire_name ls = simp append_assoc in
    let one : 1 + length l ≡ suc (length l) = omega arith in
    let next : drop (1 + length l) (length l ∷ (l ++ encode_labels ls) ++ 0 ∷ []) ≡ wire_name ls =
      ap (λ k. drop k (length l ∷ (l ++ encode_labels ls) ++ 0 ∷ [])) one
      ∙ ap (drop (length l)) tail
      ∙ drop-append l (wire_name ls) (length l) refl in
    let test = is_interest-is_in flags (length ls) size in
    elim (Bool-cases (is_in flags (length (l ∷ ls)))) [
      | inl asked ↦ rw (test, asked, next, collect_domains-wire_name flags ls size)
      | inr other ↦ rw (test, other, next, collect_domains-wire_name flags ls size)
    ]

interesting-shallow :
    (flags : List Bool) (ls : List Bytes) → length ls ≤ first_flag flags → interesting flags ls ≡ []
unfolding interesting
interesting-shallow flags [] few = refl
interesting-shallow flags (l ∷ ls) few =
    rw (flag_at-before flags (length ls) (omega arith)) (interesting-shallow flags ls (omega arith))

interesting-deep :
    (flags : List Bool) (ls : List Bytes)
    → first_flag flags < length flags
    → first_flag flags < length ls
    → 1 ≤ length (interesting flags ls)
unfolding interesting
interesting-deep flags [] some_flag deep = absurd (omega arith)
interesting-deep flags (l ∷ ls) some_flag deep = elim (Bool-cases (flag_at flags (length ls))) [
  | inl asked ↦ rw asked (omega arith)
  | inr other ↦
      let ne : first_flag flags ≢ length ls =
        λ e. false≢true (sym other ∙ ap (flag_at flags) (sym e) ∙ flag_at-first flags some_flag) in
      rw other (interesting-deep flags ls some_flag (omega (arith, ne)))
]

found-some :
    (suffixes : List (List Bytes)) (qname_end : ℕ)
    → 1 ≤ length suffixes
    → domains (map wire_name suffixes) qname_end ≡ found suffixes qname_end
unfolding found
found-some [] qname_end h = absurd (omega arith)
found-some (ls ∷ suffixes) qname_end h = refl

select_domains-found :
    (flags : List Bool) (ls : List Bytes)
    → length flags ≡ 8
    → mask_of flags ≢ 0
    → select_domains (mask_of flags) (wire_name ls) (length ls)
      ≡ found (interesting flags ls) (length (wire_name ls) - 1)
unfolding select_domains found
select_domains-found flags ls size some_flag =
    let least : ctz 8 (mask_of flags) ≡ first_flag flags =
      ap (λ n. ctz n (mask_of flags)) (sym size) ∙ ctz-first_flag flags in
    let below = first_flag-mask_of flags some_flag in
    elim (Bool-cases (ltb (length ls) (first_flag flags + 1))) [
      | inl shallow ↦
          let few : length ls ≤ first_flag flags = ground arith in
          rw (least, shallow)
            (ap (λ t. found t (length (wire_name ls) - 1)) (sym (interesting-shallow flags ls few)))
      | inr deep ↦
          let many : first_flag flags < length ls = ground arith in
          rw (least, deep, collect_domains-wire_name flags ls size)
            (found-some (interesting flags ls) (length (wire_name ls) - 1)
              (interesting-deep flags ls below many))
    ]

-- On a name of labels of 1 to 63 bytes, and for a set of levels of 1 to 8 that is not empty, the
-- domains are the suffixes whose number of labels is in the set, from the longest, each in its wire
-- form, with the null label as their end; a name without such a suffix is too shallow.
pub dns_qname_domains-interesting :
    (msg rest : Bytes) (flags : List Bool) (ls : List Bytes)
    → drop header_size msg ≡ wire_name ls ++ rest
    → All IsLabel ls
    → length flags ≡ 8
    → mask_of flags ≢ 0
    → dns_qname_domains msg (length (wire_name ls)) (mask_of flags)
      ≡ some (found (interesting flags ls) (length (wire_name ls) - 1))
unfolding dns_qname_domains
dns_qname_domains-interesting msg rest flags ls at v size some_flag =
    let qname : take (length (wire_name ls)) (drop header_size msg) ≡ wire_name ls =
      ap (take (length (wire_name ls))) at
      ∙ take-append (wire_name ls) rest (length (wire_name ls)) refl in
    rw
      (
        dns_qname_domains,
        qname,
        count_levels-wire_name (length (wire_name ls)) ls v (omega arith),
        ==_ne (mask_of flags) 0 some_flag,
      )
      (rw qname (ap some (select_domains-found flags ls size some_flag)))
