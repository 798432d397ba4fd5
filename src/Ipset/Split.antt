-- ===== src/Ipset/Split.antt =====
-- A text of src/ipset.c split at a separator, which stands between names of sets.
use chinadns_ng.Prelude.{
  ℕ, ◌≡◌, ◌≢◌, ◌⊎◌, inl, inr, refl, ap, none, some, [], ◌∷◌, ◌++◌, ◌==◌, Bool-cases, ==_iff, ==_ne,
  ==_refl, All, arith,
}
use chinadns_ng.Prelude.Words.{Bytes}
use chinadns_ng.Ipset.{split_at}

-- No byte is the separator.
abbrev pub HasNo : ℕ → Bytes → Type 0
HasNo c = All (λ x. x ≢ c)

pub split_at-last : (c : ℕ) (part : Bytes) → HasNo c part → split_at c part ≡ (part, none)
unfolding split_at
split_at-last c [] v = refl
split_at-last c (x ∷ part) v = rw (==_ne x c v.0, split_at-last c part v.1) refl

pub split_at-part :
    (c : ℕ) (part rest : Bytes) → HasNo c part → split_at c (part ++ c ∷ rest) ≡ (part, some rest)
unfolding split_at
split_at-part c [] rest v = rw (==_refl c) refl
split_at-part c (x ∷ part) rest v = rw (==_ne x c v.0, split_at-part c part rest v.1) refl

-- What is in front of the first separator, and what is behind it.
abbrev IsSplitAt : ℕ → Bytes → Type 0
IsSplitAt c text =
    HasNo c text ⊎ ((part : Bytes) × (rest : Bytes) × (text ≡ part ++ c ∷ rest) × HasNo c part)

pub IsSplitAt-all : (c : ℕ) (text : Bytes) → IsSplitAt c text
IsSplitAt-all c [] = inl tt
IsSplitAt-all c (x ∷ text) = elim (Bool-cases (x == c)) [
  | inl here ↦ inr ([], text, ap (λ y. y ∷ text) ((==_iff x c).0 here), tt)
  | inr other ↦
      let ne : x ≢ c = ground arith in
      elim (IsSplitAt-all c text) [
        | inl v ↦ inl (ne, v)
        | inr (part, rest, e, v) ↦ inr (x ∷ part, rest, ap (λ t. x ∷ t) e, (ne, v))
      ]
]
