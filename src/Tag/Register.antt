-- ===== src/Tag/Register.antt =====
-- `tag_register` of src/tag.c and the well-formedness of the table.
use mathlib.Core.Option.{some-injective}
use chinadns_ng.Prelude.{
  ℕ, zero, suc, ◌+◌, ◌-◌, ◌≤◌, ◌<◌, ◌≡◌, ◌≢◌, ◌⊎◌, inl, inr, refl, sym, ap, ◌∙◌, true, false, ◌||◌,
  none, some, arith, ◌==◌, length, get_or, set, equal, subst, length-set, get_or-set_self,
  get_or-set_ne, Bool-cases, Option-cases, ==_iff, ==_ne, none_ne,
}
use chinadns_ng.Prelude.Words.{Bytes}
use chinadns_ng.Tag.{
  Names, no_tag, tag_chn, tag_gfw, tag_user, tag_max, tag_none, initial_names, tag_from_name,
  find_name, is_name_text, find_free, Registered, tag_register,
}
use chinadns_ng.Tag.Lookup.{HasName, AreDistinct, tag_from_name-cases, HasName-lt}

-- Nine entries without duplicates, of which the built-in ones are set.
pub record IsTable (names : Names) : Type 0 where
  pub size : length names ≡ tag_none + 1
  pub are_distinct : AreDistinct names
  pub keeps_chn : get_or names tag_chn none ≡ get_or initial_names tag_chn none
  pub keeps_gfw : get_or names tag_gfw none ≡ get_or initial_names tag_gfw none
  pub keeps_none : get_or names tag_none none ≡ get_or initial_names tag_none none

-- All of a range is taken if its first entry is and the rest is.
taken-range :
    (count tag : ℕ) (names : Names) {name : Bytes}
    → HasName names tag name
    → ((i : ℕ) → tag + 1 ≤ i → i < tag + 1 + count → get_or names i none ≢ none)
    → (i : ℕ) → tag ≤ i
    → i < tag + suc count
    → get_or names i none ≢ none
taken-range count tag names taken all i ge lt = elim (Bool-cases (tag == i)) [
  | inl same ↦
      λ e. none_ne (sym e ∙ ap (λ k. get_or names k none) (sym ((==_iff tag i).0 same)) ∙ taken)
  | inr other ↦ all i (ground arith) (omega arith)
]

-- The search for a free entry gives one of the range, or every entry of the range is set.
find_free-cases :
    (count tag : ℕ) (names : Names)
    → ((free : ℕ) × (find_free count tag names ≡ some free)
        × (tag ≤ free)
        × (free < tag + count)
        × (get_or names free none ≡ none))
      ⊎ ((find_free count tag names ≡ none)
          × ((i : ℕ) → tag ≤ i → i < tag + count → get_or names i none ≢ none))
unfolding find_free
find_free-cases zero tag names = inr (refl, λ i ge lt. absurd (omega arith))
find_free-cases (suc count) tag names = elim (Option-cases (get_or names tag none)) [
  | inl free ↦ inl (tag, rw (find_free, free), omega arith, omega arith, free)
  | inr (name, taken) ↦ elim (find_free-cases count (tag + 1) names) [
    | inl (free, found, ge, lt, empty) ↦
        inl (free, rw (find_free, taken) found, omega arith, omega arith, empty)
    | inr (full, all) ↦ inr (rw (find_free, taken) full, taken-range count tag names taken all)
  ]
]

-- What became of a registration.
abbrev pub IsRegistered : Names → Bytes → Registered → Type 0
IsRegistered names name r =
    (tag_user ≤ r.tag) × (r.tag ≤ tag_max) × (r.overflow ≡ none) × HasName r.names r.tag name

abbrev pub IsRefused : Names → Registered → Type 0
IsRefused names r =
    (r.tag ≡ no_tag)
    × (r.names ≡ names)
    × ((r.overflow ≡ some false)
        ⊎ ((r.overflow ≡ some true)
            × ((i : ℕ) → tag_user ≤ i → i ≤ tag_max → get_or names i none ≢ none)))

-- The entry of a name behind the store: the new one, or an old one.
HasName-set :
    (names : Names) (free i : ℕ) (name other : Bytes)
    → HasName (set names free (some name)) i other
    → ((free ≡ i) × (name ≡ other)) ⊎ ((free ≢ i) × HasName names i other)
HasName-set names free i name other h =
    let lt : i < length names =
      omega
        (arith, HasName-lt (set names free (some name)) i h, length-set names free (some name)) in
    elim (Bool-cases (free == i)) [
      | inl same ↦
          let e : free ≡ i = (==_iff free i).0 same in
          inl (
            e,
            some-injective name other (
                sym (get_or-set_self names free (some name) none (omega (arith, e)))
                ∙ ap (λ k. get_or (set names free (some name)) k none) e
                ∙ h),
          )
      | inr differs ↦
          let ne : free ≢ i = ground arith in
          inr (ne, sym (get_or-set_ne names free i (some name) none ne) ∙ h)
    ]

-- A name that no entry has stays without a duplicate.
set-AreDistinct :
    (names : Names) (free : ℕ) (name : Bytes)
    → AreDistinct names
    → ((i : ℕ) → HasName names i name → ⊥)
    → AreDistinct (set names free (some name))
set-AreDistinct names free name d fresh i j other h k =
    elim (HasName-set names free i name other h) [
      | inl (at, same) ↦ elim (HasName-set names free j name other k) [
        | inl (at', _) ↦ sym at ∙ at'
        | inr (_, old) ↦ absurd (fresh j (old ∙ ap some (sym same)))
      ]
      | inr (_, old) ↦ elim (HasName-set names free j name other k) [
        | inl (_, same) ↦ absurd (fresh i (old ∙ ap some (sym same)))
        | inr (_, old') ↦ d i j other old old'
      ]
    ]

-- A new name in a free entry of the user's keeps the table well-formed.
set-IsTable :
    (names : Names) (free : ℕ) (name : Bytes)
    → IsTable names
    → tag_user ≤ free
    → free ≤ tag_max
    → ((i : ℕ) → HasName names i name → ⊥)
    → IsTable (set names free (some name))
set-IsTable names free name t ge le fresh =
    let kept = λ (i : ℕ) (ne : free ≢ i). get_or-set_ne names free i (some name) none ne in
    record {
      size = length-set names free (some name) ∙ t.size;
      are_distinct = set-AreDistinct names free name t.are_distinct fresh;
      keeps_chn = kept tag_chn (omega arith) ∙ t.keeps_chn;
      keeps_gfw = kept tag_gfw (omega arith) ∙ t.keeps_gfw;
      keeps_none = kept tag_none (omega arith) ∙ t.keeps_none;
    }

-- `tag_register` keeps the table well-formed; either it gives a tag of the user's that now has the
-- name, or it gives none and changes nothing, with the overflow flag set only where all six entries
-- of the user's are taken.
pub tag_register-IsTable :
    (names : Names) (name : Bytes)
    → IsTable names
    → let r = tag_register names name in
      IsTable r.names × (IsRegistered names name r ⊎ IsRefused names r)
unfolding tag_register
tag_register-IsTable names name t = elim (tag_from_name-cases names name) [
  | inl (i, at, has) ↦
      let lt : i < tag_none + 1 = omega (arith, HasName-lt names i has, t.size) in
      let some_tag : i ≢ no_tag = omega arith in
      elim (Bool-cases (i == tag_chn || i == tag_gfw || i == tag_none)) [
        | inl built_in ↦
            rw (tag_register, at, ==_ne i no_tag some_tag, built_in) (t, inr (refl, refl, inl refl))
        | inr user ↦
            rw (tag_register, at, ==_ne i no_tag some_tag, user)
              (t, inl (ground arith, ground arith, refl, has))
      ]
  | inr (at, nowhere) ↦ elim (Bool-cases (is_name_text name)) [
    | inr bad ↦ rw (tag_register, at, bad) (t, inr (refl, refl, inl refl))
    | inl ok ↦ elim (find_free-cases (tag_max + 1 - tag_user) tag_user names) [
      | inl (free, e, ge, lt, empty) ↦
          rw (tag_register, at, ok, e)
            (
              set-IsTable names free name t ge (omega arith) nowhere,
              inl (
                ge,
                omega arith,
                refl,
                get_or-set_self names free (some name) none (omega (arith, t.size)),
              ),
            )
      | inr (e, all) ↦
          rw (tag_register, at, ok, e)
            (t, inr (refl, refl, inr (refl, λ i ge le. all i ge (omega arith))))
    ]
  ]
]

-- A name that is registered keeps its tag whatever is registered afterwards.
pub tag_register-HasName :
    (names : Names) (name other : Bytes) (tag : ℕ)
    → IsTable names
    → HasName names tag other
    → HasName (tag_register names name).names tag other
unfolding tag_register
tag_register-HasName names name other tag t h = elim (tag_from_name-cases names name) [
  | inl (i, at, has) ↦
      let some_tag : i ≢ no_tag = omega (arith, HasName-lt names i has, t.size) in
      elim (Bool-cases (i == tag_chn || i == tag_gfw || i == tag_none)) [
        | inl built_in ↦ rw (tag_register, at, ==_ne i no_tag some_tag, built_in) h
        | inr user ↦ rw (tag_register, at, ==_ne i no_tag some_tag, user) h
      ]
  | inr (at, nowhere) ↦ elim (Bool-cases (is_name_text name)) [
    | inr bad ↦ rw (tag_register, at, bad) h
    | inl ok ↦ elim (find_free-cases (tag_max + 1 - tag_user) tag_user names) [
      | inl (free, e, ge, lt, empty) ↦
          let ne : free ≢ tag =
            λ same. none_ne (sym empty ∙ ap (λ k. get_or names k none) same ∙ h) in
          rw (tag_register, at, ok, e) (get_or-set_ne names free tag (some name) none ne ∙ h)
      | inr (e, all) ↦ rw (tag_register, at, ok, e) h
    ]
  ]
]

-- The tags of the names in the table that the program starts with.
tag_from_name-initial_names :
    (i : ℕ) (name : Bytes) → HasName initial_names i name → tag_from_name initial_names name ≡ i
unfolding tag_from_name find_name equal
tag_from_name-initial_names zero name h =
    subst (λ t. tag_from_name initial_names t ≡ 0) (some-injective _ name h) refl
tag_from_name-initial_names (suc zero) name h =
    subst (λ t. tag_from_name initial_names t ≡ 1) (some-injective _ name h) refl
tag_from_name-initial_names (suc (suc zero)) name h = absurd (none_ne h)
tag_from_name-initial_names (suc (suc (suc zero))) name h = absurd (none_ne h)
tag_from_name-initial_names (suc (suc (suc (suc zero)))) name h = absurd (none_ne h)
tag_from_name-initial_names (suc (suc (suc (suc (suc zero))))) name h = absurd (none_ne h)
tag_from_name-initial_names (suc (suc (suc (suc (suc (suc zero)))))) name h = absurd (none_ne h)
tag_from_name-initial_names (suc (suc (suc (suc (suc (suc (suc zero))))))) name h =
    absurd (none_ne h)
tag_from_name-initial_names (suc (suc (suc (suc (suc (suc (suc (suc zero)))))))) name h =
    subst (λ t. tag_from_name initial_names t ≡ 8) (some-injective _ name h) refl
tag_from_name-initial_names (suc (suc (suc (suc (suc (suc (suc (suc (suc i))))))))) name h =
    absurd (none_ne h)

initial_names-AreDistinct : AreDistinct initial_names
initial_names-AreDistinct i j name h k =
    sym (tag_from_name-initial_names i name h) ∙ tag_from_name-initial_names j name k

pub initial_names-IsTable : IsTable initial_names
initial_names-IsTable = record {
  size = refl;
  are_distinct = initial_names-AreDistinct;
  keeps_chn = refl;
  keeps_gfw = refl;
  keeps_none = refl;
}
