-- ===== src/Ipset/Add/Sent.antt =====
-- What `end_add_ip` of src/ipset.c sends of one address family.
use mathlib.Core.Path.{ap₂}
use native.Mathlib.Nat.{mul-suc}
use chinadns_ng.Prelude.{
  ℕ, suc, ◌+◌, ◌*◌, ◌≤◌, ◌≡◌, inl, inr, refl, sym, ap, ◌∙◌, Bool, false, List, [], ◌∷◌, ◌++◌,
  append_assoc, arith, if◌then◌else◌, length, take, drop, All, get_or, map, length-append,
  take-append, drop-append, Bool-cases,
}
use chinadns_ng.Prelude.Words.{Bytes}
use chinadns_ng.Ipset.{iplen}
use chinadns_ng.Ipset.Batch.{elem_size, slice, kept_elems}
use chinadns_ng.Ipset.Add.Filled.{elem_of, elems_of, length-elem_of}

-- The addresses whose bits are not set, the first one's bit being `bit_i`.
unfoldable pub fresh : List Bool → ℕ → List Bytes → List Bytes
fresh exists bit_i [] = []
fresh exists bit_i (ip ∷ ips) =
    let rest = fresh exists (bit_i + 1) ips in if get_or exists bit_i false then rest else ip ∷ rest

abbrev pub concat : List Bytes → Bytes
concat [] = []
concat (part ∷ parts) = part ++ concat parts

pub concat-map :
    (is_ipset v4 : Bool) (ips : List Bytes)
    → concat (map (elem_of is_ipset v4) ips) ≡ elems_of is_ipset v4 ips
concat-map is_ipset v4 [] = refl
concat-map is_ipset v4 (ip ∷ ips) =
    ap (λ l. elem_of is_ipset v4 ip ++ l) (concat-map is_ipset v4 ips)

pub length-map : (f : Bytes → Bytes) (ips : List Bytes) → length (map f ips) ≡ length ips
length-map f [] = refl
length-map f (ip ∷ ips) = ap suc (length-map f ips)

pub length-fresh :
    (exists : List Bool) (bit_i : ℕ) (ips : List Bytes)
    → length (fresh exists bit_i ips) ≤ length ips
unfolding fresh
length-fresh exists bit_i [] = omega arith
length-fresh exists bit_i (ip ∷ ips) = elim (Bool-cases (get_or exists bit_i false)) [
  | inl known ↦ rw known (omega (arith, length-fresh exists (bit_i + 1) ips))
  | inr new ↦ rw new (omega (arith, length-fresh exists (bit_i + 1) ips))
]

pub All-fresh :
    (P : Bytes → Type 0) (exists : List Bool) (bit_i : ℕ) (ips : List Bytes)
    → All P ips
    → All P (fresh exists bit_i ips)
unfolding fresh
All-fresh P exists bit_i [] v = tt
All-fresh P exists bit_i (ip ∷ ips) v = elim (Bool-cases (get_or exists bit_i false)) [
  | inl known ↦ rw known (All-fresh P exists (bit_i + 1) ips v.1)
  | inr new ↦ rw new (v.0, All-fresh P exists (bit_i + 1) ips v.1)
]

-- The elements that are kept are those of the addresses that are not in the set.
pub kept_elems-fresh :
    (is_ipset v4 : Bool) (exists : List Bool) (pre rest : Bytes) (ips : List Bytes) (bit_i i : ℕ)
    → All (λ ip. length ip ≡ iplen v4) ips
    → length pre ≡ elem_size is_ipset v4 * i
    → kept_elems
        (elem_size is_ipset v4)
        (pre ++ elems_of is_ipset v4 ips ++ rest)
        exists
        bit_i
        i
        (length ips)
      ≡ map (elem_of is_ipset v4) (fresh exists bit_i ips)
unfolding kept_elems fresh
kept_elems-fresh is_ipset v4 exists pre rest [] bit_i i v e = refl
kept_elems-fresh is_ipset v4 exists pre rest (ip ∷ ips) bit_i i v e =
    let es : ℕ = elem_size is_ipset v4 in
    let elem' : Bytes = elem_of is_ipset v4 ip in
    let all : Bytes = pre ++ (elem' ++ elems_of is_ipset v4 ips) ++ rest in
    let parts : all ≡ pre ++ elem' ++ elems_of is_ipset v4 ips ++ rest =
      ap (λ l. l ++ rest) (sym (append_assoc pre elem' (elems_of is_ipset v4 ips))) in
    let size : length elem' ≡ es = length-elem_of is_ipset v4 ip v.0 in
    let first : slice (es * i) es all ≡ elem' =
      ap (take es) (
        ap (drop (es * i))
          (ap (λ l. l ++ rest) refl ∙ append_assoc pre (elem' ++ elems_of is_ipset v4 ips) rest)
        ∙ drop-append pre (elem' ++ elems_of is_ipset v4 ips ++ rest) (es * i) e
        ∙ append_assoc elem' (elems_of is_ipset v4 ips) rest)
      ∙ take-append elem' (elems_of is_ipset v4 ips ++ rest) es size in
    let one : i + 1 ≡ suc i = omega arith in
    let behind : length (pre ++ elem') ≡ es * (i + 1) =
      omega (arith, length-append pre elem', e, size, mul-suc es i, ap (λ k. es * k) one) in
    let others : kept_elems es all exists (bit_i + 1) (i + 1) (length ips)
        ≡ map (elem_of is_ipset v4) (fresh exists (bit_i + 1) ips) =
      ap (λ a. kept_elems es a exists (bit_i + 1) (i + 1) (length ips)) parts
      ∙ kept_elems-fresh is_ipset v4 exists (pre ++ elem') rest ips (bit_i + 1) (i + 1) v.1
          behind in
    elim (Bool-cases (get_or exists bit_i false)) [
      | inl known ↦ rw known others
      | inr new ↦ rw new (ap₂ (λ a l. a ∷ l) first others)
    ]
