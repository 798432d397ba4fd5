-- ===== src/Dnl/Table/Chain.antt =====
-- The lists of names in the buckets of src/dnl.c: lookup in a list by hash and text.
use mathlib.Core.Bool.{false≢true}
use chinadns_ng.Prelude.{
  ℕ, ◌≡◌, ◌≢◌, refl, sym, ap, ◌∙◌, true, false, Option, none, some, List, [], ◌∷◌, arith, ◌==◌, All,
  equal_refl, eq_of_equal, Bool-cases, ==_iff, ==_refl, inl, inr, none_ne,
}
use chinadns_ng.Prelude.Words.{Bytes}
use chinadns_ng.Dnl.Table.{Name, name_eq_r, is_in_list, exists_in_list}

-- The first value, or else the second.
abbrev pub or_else : Option ℕ → Option ℕ → Option ℕ
or_else none o = o
or_else (some tag) o = some tag

pub or_else-none : (o : Option ℕ) → or_else o none ≡ o
or_else-none none = refl
or_else-none (some tag) = refl

-- No key stands twice in the list.
abbrev pub IsUnique : List Name → Type 0
IsUnique [] = Unit {0}
IsUnique (p ∷ list) = (exists_in_list list p.hashv p.text ≡ none) × IsUnique list

pub name_eq_r_refl : (p : Name) → name_eq_r p p.hashv p.text ≡ true
name_eq_r_refl p = rw (==_refl p.hashv) (equal_refl p.text)

pub name_eq_r-eq :
    (p : Name) (hashv : ℕ) (text : Bytes)
    → name_eq_r p hashv text ≡ true
    → (p.hashv ≡ hashv) × (p.text ≡ text)
name_eq_r-eq p hashv text h = (ground arith, eq_of_equal p.text text (ground arith))

pub exists_in_list-hit :
    (p : Name) (list : List Name) (hashv : ℕ) (text : Bytes)
    → name_eq_r p hashv text ≡ true
    → exists_in_list (p ∷ list) hashv text ≡ some p.tag
unfolding exists_in_list
exists_in_list-hit p list hashv text h = rw h

pub exists_in_list-miss :
    (p : Name) (list : List Name) (hashv : ℕ) (text : Bytes)
    → name_eq_r p hashv text ≡ false
    → exists_in_list (p ∷ list) hashv text ≡ exists_in_list list hashv text
unfolding exists_in_list
exists_in_list-miss p list hashv text h = rw h

-- Where a name matches a key, looking for that key is looking for the name.
pub exists_in_list-eq :
    (p : Name) (list : List Name) (hashv : ℕ) (text : Bytes)
    → name_eq_r p hashv text ≡ true
    → exists_in_list list hashv text ≡ exists_in_list list p.hashv p.text
exists_in_list-eq p list hashv text h =
    let (eh, et) = name_eq_r-eq p hashv text h in
    ap (λ k. exists_in_list list k text) (sym eh) ∙ ap (exists_in_list list p.hashv) (sym et)

-- A name that belongs elsewhere does not match.
pub name_eq_r-elsewhere :
    (place : ℕ → ℕ) (i : ℕ) (p : Name) (hashv : ℕ) (text : Bytes)
    → place p.hashv ≡ i
    → place hashv ≢ i
    → name_eq_r p hashv text ≡ false
name_eq_r-elsewhere place i p hashv text at ne = elim (Bool-cases (name_eq_r p hashv text)) [
  | inl hit ↦ absurd (ne (ap place (sym (name_eq_r-eq p hashv text hit).0) ∙ at))
  | inr miss ↦ miss
]

-- A key whose hash belongs elsewhere is not found.
pub exists_in_list-elsewhere :
    (place : ℕ → ℕ) (i : ℕ) (list : List Name) (hashv : ℕ) (text : Bytes)
    → All (λ p. place p.hashv ≡ i) list
    → place hashv ≢ i
    → exists_in_list list hashv text ≡ none
unfolding exists_in_list
exists_in_list-elsewhere place i [] hashv text v ne = refl
exists_in_list-elsewhere place i (p ∷ list) hashv text v ne =
    elim (Bool-cases (name_eq_r p hashv text)) [
      | inl hit ↦ absurd (ne (ap place (sym (name_eq_r-eq p hashv text hit).0) ∙ v.0))
      | inr miss ↦ rw miss (exists_in_list-elsewhere place i list hashv text v.1 ne)
    ]

-- A key that is found has its hash where the list stands.
pub place-exists_in_list :
    (place : ℕ → ℕ) (i : ℕ) (list : List Name) (hashv : ℕ) (text : Bytes) {tag : ℕ}
    → All (λ p. place p.hashv ≡ i) list
    → exists_in_list list hashv text ≡ some tag
    → place hashv ≡ i
place-exists_in_list place i list hashv text v found = elim (Bool-cases (place hashv == i)) [
  | inl here ↦ (==_iff (place hashv) i).0 here
  | inr away ↦
      let ne : place hashv ≢ i = λ e. false≢true (sym away ∙ (==_iff (place hashv) i).1 e) in
      absurd (none_ne (sym (exists_in_list-elsewhere place i list hashv text v ne) ∙ found))
]

pub exists_in_list-is_in_list :
    (list : List Name) (name : Name)
    → is_in_list list name ≡ false
    → exists_in_list list name.hashv name.text ≡ none
unfolding is_in_list exists_in_list
exists_in_list-is_in_list [] name h = refl
exists_in_list-is_in_list (p ∷ list) name h = ground (arith, exists_in_list-is_in_list list name)

pub is_in_list-found :
    (list : List Name) (name : Name)
    → is_in_list list name ≡ true
    → (tag : ℕ) × (exists_in_list list name.hashv name.text ≡ some tag)
unfolding is_in_list exists_in_list
is_in_list-found [] name h = absurd (false≢true h)
is_in_list-found (p ∷ list) name h = elim (Bool-cases (name_eq_r p name.hashv name.text)) [
  | inl hit ↦ (p.tag, rw hit)
  | inr miss ↦ rw miss (is_in_list-found list name (rw miss at h))
]
