-- ===== src/Dnl/Init/Priority.antt =====
-- The domain lists of src/dnl.c as a whole: the tag of a name is the first one, in the order of the
-- tags, whose list has the name.
use mathlib.Core.Option.{some-injective}
use chinadns_ng.Prelude.{
  ◌/◌, ℕ, zero, suc, ◌+◌, ◌%◌, ◌^◌, ◌<◌, ◌≡◌, refl, sym, ap, ◌∙◌, subst, Bool, true, false, Option,
  none, some, List, [], ◌∷◌, arith, ◌==◌, if◌then◌else◌, length, replicate, map, equal, eq_of_equal,
  All, take_all, none_ne, Bool-cases, inl, inr, ==_refl, get_or,
}
use chinadns_ng.Prelude.Words.{Bytes}
use chinadns_ng.Tag.{tag_max}
use chinadns_ng.Dnl.Table.{
  Name, Bucket, head, free, Dnl, calc_lcap, name_eq_r, exists_in_list, exists_in_dnl, add_names,
  add_list, add_name,
}
use chinadns_ng.Dnl.Table.Chain.{or_else, or_else-none}
use chinadns_ng.Dnl.Table.Lookup.{IsDnl, or_else_assoc}
use chinadns_ng.Dnl.Table.Added.{add_names-IsDnl, exists_in_dnl-add_names}
use chinadns_ng.Dnl.Init.{
  dnl_set_notnull, count_names, ordered_tags, user_tags, names_of, add_tags, dnl_init,
}

unfoldable pub has_name : List Bytes → Bytes → Bool
has_name [] text = false
has_name (name ∷ names) text =
    let rest = has_name names text in if equal name text then true else rest

-- The first of the tags whose names have the text.
unfoldable pub first_tag : (ℕ → List Bytes) → List ℕ → Bytes → Option ℕ
first_tag loaded [] text = none
first_tag loaded (tag ∷ tags) text =
    let rest = first_tag loaded tags text in if has_name (loaded tag) text then some tag else rest

-- Names that a u8 can measure.
abbrev pub AreShort : (ℕ → List Bytes) → Type 0
AreShort loaded = (tag : ℕ) → All (λ name. length name < 256) (loaded tag)

has_name-none :
    (names : List Bytes) (text : Bytes) → (length names == 0) ≡ true → has_name names text ≡ false
unfolding has_name
has_name-none [] text h = refl
has_name-none (name ∷ names) text h = ground arith

first_tag-cons :
    (loaded : ℕ → List Bytes) (tag : ℕ) (tags : List ℕ) (text : Bytes)
    → or_else (if has_name (loaded tag) text then some tag else none) (first_tag loaded tags text)
      ≡ first_tag loaded (tag ∷ tags) text
unfolding first_tag
first_tag-cons loaded tag tags text = elim (Bool-cases (has_name (loaded tag) text)) [
  | inl hit ↦ rw hit refl
  | inr miss ↦ rw miss refl
]

module _ (calc_hashv : Bytes → ℕ) where
  name_eq_r-add_name :
      (name : Bytes) (tag : ℕ) (text : Bytes)
      → length name < 256
      → name_eq_r (add_name calc_hashv name tag) (calc_hashv text) text ≡ equal name text
  unfolding add_name
  name_eq_r-add_name name tag text short =
      let whole : length name % 256 ≡ length name = omega (arith, short) in
      rw (whole, take_all name)
        (elim (Bool-cases (equal name text)) [
          | inl hit ↦
              rw (hit, ap calc_hashv (eq_of_equal name text hit), ==_refl (calc_hashv text)) refl
          | inr miss ↦ ground arith
        ])

  add_name-tag : (name : Bytes) (tag : ℕ) → tag < 8 → (add_name calc_hashv name tag).tag ≡ tag
  unfolding add_name
  add_name-tag name tag lt = omega (arith, lt)

  exists-names_of :
      (tag : ℕ) (names : List Bytes) (text : Bytes)
      → tag < 8
      → All (λ name. length name < 256) names
      → exists_in_list (map (λ name. add_name calc_hashv name tag) names) (calc_hashv text) text
        ≡ (if has_name names text then some tag else none)
  unfolding exists_in_list has_name
  exists-names_of tag [] text lt v = refl
  exists-names_of tag (name ∷ names) text lt v = elim (Bool-cases (equal name text)) [
    | inl hit ↦ rw (name_eq_r-add_name name tag text v.0, hit) (ap some (add_name-tag name tag lt))
    | inr miss ↦
        rw (name_eq_r-add_name name tag text v.0, miss) (exists-names_of tag names text lt v.1)
  ]

  module _ (loaded : ℕ → List Bytes) (short : AreShort loaded) where
    -- The loop over the tags adds what the tags have.
    add_tags-lem :
        (tags : List ℕ) (total_added : ℕ) (dnl : Dnl)
        → All (λ tag. tag < 8) tags
        → IsDnl dnl
        → let dnl' = (add_tags calc_hashv loaded tags total_added dnl).1 in
          IsDnl dnl'
          × ((text : Bytes)
              → exists_in_dnl calc_hashv dnl' text
                ≡ or_else (exists_in_dnl calc_hashv dnl text) (first_tag loaded tags text))
    unfolding add_tags first_tag add_list
    add_tags-lem [] total_added dnl v w =
        (w, λ text. sym (or_else-none (exists_in_dnl calc_hashv dnl text)))
    add_tags-lem (tag ∷ tags) total_added dnl v w = elim (Bool-cases (length (loaded tag) == 0)) [
      | inl skip ↦
          let (w', e) = add_tags-lem tags total_added dnl v.1 w in
          rw skip (
            w',
            λ text.
                e text
                ∙ ap (or_else (exists_in_dnl calc_hashv dnl text)) (
                    ap (λ b. or_else (if b then some tag else none) (first_tag loaded tags text))
                      (sym (has_name-none (loaded tag) text skip))
                    ∙ first_tag-cons loaded tag tags text),
          )
      | inr go ↦
          let names : List Name = names_of calc_hashv loaded tag in
          let dnl' : Dnl = add_names names dnl in
          let total : ℕ = total_added + (add_list names dnl).0 in
          let (w', e) = add_tags-lem tags total dnl' v.1 (add_names-IsDnl names dnl w) in
          rw go (
            w',
            λ text.
                e text
                ∙ ap (λ o. or_else o (first_tag loaded tags text))
                    (exists_in_dnl-add_names calc_hashv names dnl text w
                      ∙ ap (or_else (exists_in_dnl calc_hashv dnl text))
                          (exists-names_of tag (loaded tag) text v.0 (short tag)))
                ∙ or_else_assoc (exists_in_dnl calc_hashv dnl text)
                    (if has_name (loaded tag) text then some tag else none)
                    (first_tag loaded tags text)
                ∙ ap (or_else (exists_in_dnl calc_hashv dnl text))
                    (first_tag-cons loaded tag tags text),
          )
    ]

get_or-free : (n i : ℕ) → get_or {A = Bucket} (replicate n free) i free ≡ free
get_or-free zero i = refl
get_or-free (suc n) zero = refl
get_or-free (suc n) (suc i) = get_or-free n i

length-free : (n : ℕ) → length {A = Bucket} (replicate n free) ≡ n
length-free zero = refl
length-free (suc n) = ap suc (length-free n)

free_head_ne : {list : List Name} → free ≡ head list → ⊥
free_head_ne h = cc

ordered_tags-lt : (gfwlist_first : Bool) → All (λ tag. tag < 8) (ordered_tags gfwlist_first)
unfolding ordered_tags user_tags
ordered_tags-lt true = (
  omega arith,
  (
    omega arith,
    (omega arith, (omega arith, (omega arith, (omega arith, (omega arith, (omega arith, tt)))))),
  ),
)
ordered_tags-lt false = (
  omega arith,
  (
    omega arith,
    (omega arith, (omega arith, (omega arith, (omega arith, (omega arith, (omega arith, tt)))))),
  ),
)

-- The maps before the first name.
pub dnl_set_notnull-IsDnl : (in_lcap : ℕ) → IsDnl (dnl_set_notnull in_lcap)
unfolding dnl_set_notnull
dnl_set_notnull-IsDnl in_lcap = record {
  size = length-free (2 ^ in_lcap);
  heads = λ i list e. absurd (free_head_ne (sym (get_or-free (2 ^ in_lcap) i) ∙ e));
  second = λ map e. absurd (none_ne e);
  apart = λ hashv text tag e. absurd (none_ne e);
}

exists_in_dnl-none :
    (calc_hashv : Bytes → ℕ) (in_lcap : ℕ) (text : Bytes)
    → exists_in_dnl calc_hashv (dnl_set_notnull in_lcap) text ≡ none
unfolding dnl_set_notnull exists_in_dnl
exists_in_dnl-none calc_hashv in_lcap text =
    rw (exists_in_dnl, get_or-free (2 ^ in_lcap) (calc_hashv text / 2 ^ 0 % 2 ^ in_lcap)) refl

-- Behind `dnl_init`, the maps are well-formed and the tag of a text is the first one, in the order
-- of `ordered_tags`, whose names have it, for names of at most 255 bytes.
pub dnl_init-first_tag :
    (calc_hashv : Bytes → ℕ) (loaded : ℕ → List Bytes) (gfwlist_first : Bool) {dnl : Dnl}
    → AreShort loaded
    → dnl_init calc_hashv loaded gfwlist_first ≡ some dnl
    → IsDnl dnl
      × ((text : Bytes)
          → exists_in_dnl calc_hashv dnl text ≡ first_tag loaded (ordered_tags gfwlist_first) text)
unfolding dnl_init
dnl_init-first_tag calc_hashv loaded gfwlist_first {dnl} short h =
    let n : ℕ = count_names loaded (tag_max + 1) in
    let start : Dnl = dnl_set_notnull (calc_lcap n) in
    let (w, e) =
      add_tags-lem calc_hashv loaded short (ordered_tags gfwlist_first) 0 start
        (ordered_tags-lt gfwlist_first) (dnl_set_notnull-IsDnl (calc_lcap n)) in
    elim (Bool-cases (n == 0)) [
      | inl empty ↦ absurd (none_ne (rw empty at h))
      | inr some_names ↦
          subst
            (λ d.
              IsDnl d
              × ((text : Bytes)
                  → exists_in_dnl calc_hashv d text
                    ≡ first_tag loaded (ordered_tags gfwlist_first) text))
            (some-injective (add_tags calc_hashv loaded (ordered_tags gfwlist_first) 0 start).1 dnl
              (rw some_names at h))
            (
              w,
              λ text.
                  e text
                  ∙ ap (λ o. or_else o (first_tag loaded (ordered_tags gfwlist_first) text))
                      (exists_in_dnl-none calc_hashv (calc_lcap n) text),
            )
    ]
