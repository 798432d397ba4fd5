-- ===== src/Tag/Lookup.antt =====
-- `tag_from_name` and `tag_to_name` of src/tag.c on a table without duplicate names.
use mathlib.Core.Bool.{false≢true}
use mathlib.Core.Option.{some-injective}
use chinadns_ng.Prelude.{
  ℕ, zero, suc, ◌+◌, ◌<◌, ◌≡◌, ◌⊎◌, inl, inr, refl, sym, ap, ◌∙◌, true, false, Option, none, some,
  [], ◌∷◌, arith, ltb, length, get_or, equal, equal_refl, eq_of_equal, Bool-cases, lt→ltb, none_ne,
}
use chinadns_ng.Prelude.Words.{Bytes}
use chinadns_ng.Tag.{Names, no_tag, is_name, find_name, tag_from_name, tag_is_valid, tag_to_name}

-- The entry of a tag is the name.
abbrev pub HasName : Names → ℕ → Bytes → Type 0
HasName names tag name = get_or names tag none ≡ some name

-- No name stands in two entries.
abbrev pub AreDistinct : Names → Type 0
AreDistinct names = (i j : ℕ) (name : Bytes) → HasName names i name → HasName names j name → i ≡ j

pub HasName-lt : (names : Names) (i : ℕ) {name : Bytes} → HasName names i name → i < length names
HasName-lt [] i h = absurd (none_ne h)
HasName-lt (entry ∷ names) zero h = omega arith
HasName-lt (entry ∷ names) (suc i) h = omega (arith, HasName-lt names i h)

is_name-eq : (name : Bytes) (entry : Option Bytes) → is_name name entry ≡ true → entry ≡ some name
is_name-eq name none h = cc
is_name-eq name (some other) h = ap some (eq_of_equal other name h)

HasName-tail :
    (entry : Option Bytes) (names : Names) (name : Bytes)
    → is_name name entry ≡ false
    → ((i : ℕ) → HasName names i name → ⊥)
    → (i : ℕ) → HasName (entry ∷ names) i name
    → ⊥
HasName-tail none names name other nowhere zero h = none_ne h
HasName-tail (some text) names name other nowhere zero h =
    let same : text ≡ name = some-injective text name h in
    false≢true (sym other ∙ ap (λ t. equal t name) same ∙ equal_refl name)
HasName-tail entry names name other nowhere (suc i) h = nowhere i h

-- The search gives the entry of the name, or no tag where no entry has it.
pub find_name-cases :
    (names : Names) (tag : ℕ) (name : Bytes)
    → ((i : ℕ) × (find_name names tag name ≡ tag + i) × HasName names i name)
      ⊎ ((find_name names tag name ≡ no_tag) × ((i : ℕ) → HasName names i name → ⊥))
unfolding find_name
find_name-cases [] tag name = inr (refl, λ i h. none_ne h)
find_name-cases (entry ∷ names) tag name = elim (Bool-cases (is_name name entry)) [
  | inl found ↦ inl (0, rw found (omega arith), is_name-eq name entry found)
  | inr other ↦ elim (find_name-cases names (tag + 1) name) [
    | inl (i, at, has) ↦ inl (suc i, rw other (omega (arith, at)), has)
    | inr (at, nowhere) ↦ inr (rw other at, HasName-tail entry names name other nowhere)
  ]
]

pub tag_from_name-cases :
    (names : Names) (name : Bytes)
    → ((i : ℕ) × (tag_from_name names name ≡ i) × HasName names i name)
      ⊎ ((tag_from_name names name ≡ no_tag) × ((i : ℕ) → HasName names i name → ⊥))
unfolding tag_from_name
tag_from_name-cases names name = elim (find_name-cases names 0 name) [
  | inl (i, at, has) ↦ inl (i, omega (arith, at), has)
  | inr nowhere ↦ inr nowhere
]

-- In a table of distinct names, the tag of an entry's name is the entry, the name of
-- that tag is the name, and the tag is valid.
pub tag_from_name-tag_to_name :
    (names : Names) (tag : ℕ) (name : Bytes)
    → AreDistinct names
    → HasName names tag name
    → (tag_from_name names name ≡ tag)
      × (tag_to_name names tag ≡ name)
      × (tag_is_valid names tag ≡ true)
unfolding tag_from_name tag_to_name tag_is_valid
tag_from_name-tag_to_name names tag name distinct has =
    let valid : ltb tag (length names) ≡ true =
      lt→ltb tag (length names) (HasName-lt names tag has) in
    (
      elim (find_name-cases names 0 name) [
        | inl (i, at, found) ↦ omega (arith, at, distinct i tag name found has)
        | inr (at, nowhere) ↦ absurd (nowhere tag has)
      ],
      rw (valid, has),
      rw (valid, has),
    )
