-- ===== src/Dnl/Table/Resize.antt =====
-- One bucket of `resize_map2` (src/dnl.c).
use chinadns_ng.Prelude.{
  ◌⊎◌, ℕ, ◌<◌, ◌≡◌, ◌≢◌, refl, sym, ap, ◌∙◌, true, List, [], ◌∷◌, arith, ◌==◌, All, Bool-cases,
  ==_iff, inl, inr, length, length-set, get_or-set_self, get_or-set_ne, subst,
}
use chinadns_ng.Prelude.Words.{Bytes}
use chinadns_ng.Dnl.Table.{Name, SecondMap, exists_in_list, resize_list, resize_bucket}
use chinadns_ng.Dnl.Table.Chain.{
  or_else, or_else-none, exists_in_list-elsewhere, place-exists_in_list,
}
use chinadns_ng.Dnl.Table.Rehash.{
  bucket_at, idx_of, IsBucket, SameShape, IsPending, IsSplit, resize_list-IsSplit,
}

-- A whole map whose names stand where `place` says.
abbrev pub IsPlaced : (ℕ → ℕ) → SecondMap → Type 0
IsPlaced place map = (i : ℕ) → IsBucket place i (bucket_at map i)

-- The same keys are found, at their places.
abbrev pub SameLookup : (ℕ → ℕ) → SecondMap → (ℕ → ℕ) → SecondMap → Type 0
SameLookup place map place' map' =
    (hashv : ℕ) (text : Bytes)
    → exists_in_list (bucket_at map' (place' hashv)) hashv text
      ≡ exists_in_list (bucket_at map (place hashv)) hashv text

-- From the old place to the new one, which differs for the hashes of bucket `k` only and is what the
-- map computes for these.
abbrev pub IsStep : (ℕ → ℕ) → (ℕ → ℕ) → ℕ → SecondMap → Type 0
IsStep place place' k map =
    (hashv : ℕ)
    → ((place hashv ≢ k) × (place' hashv ≡ place hashv))
      ⊎ ((place hashv ≡ k)
          × (place' hashv ≡ idx_of map hashv)
          × (place' hashv < length map.buckets))

eq_nil : (list : List Name) → (length list == 0) ≡ true → list ≡ []
eq_nil [] h = refl
eq_nil (p ∷ list) h = ground arith

empty_bucket :
    (map : SecondMap) (k : ℕ)
    → bucket_at map k ≡ []
    → let (stay, moved) = resize_list map k (bucket_at map k) in
      SameShape map map
      × (bucket_at map k ≡ stay)
      × ((i : ℕ) → i ≢ k → bucket_at map i ≡ bucket_at moved i)
unfolding resize_list
empty_bucket map k e = (
  (refl, refl, refl, refl),
  subst (λ l. l ≡ (resize_list map k l).0) (sym e) refl,
  λ i ne. subst (λ l. bucket_at map i ≡ bucket_at (resize_list map k l).1 i) (sym e) refl,
)

module _ (place place' : ℕ → ℕ) (k : ℕ) (map : SecondMap) (placed : IsPlaced place map)
    (step : IsStep place place' k map) where
  -- A list whose names do not stand at `k` keeps its place.
  All-step :
      (i : ℕ) (list : List Name)
      → i ≢ k
      → All (λ p. place p.hashv ≡ i) list
      → All (λ p. place' p.hashv ≡ i) list
  All-step i [] ne v = tt
  All-step i (p ∷ list) ne v = (
    elim (step p.hashv) [
      | inl (_, same) ↦ same ∙ v.0
      | inr (here, _, _) ↦ absurd (ne (sym v.0 ∙ here))
    ],
    All-step i list ne v.1,
  )

  All-moved :
      (list : List Name)
      → All (λ p. place p.hashv ≡ k) list
      → All
          (λ p. (place' p.hashv ≡ idx_of map p.hashv) × (place' p.hashv < length map.buckets))
          list
  All-moved [] v = tt
  All-moved (p ∷ list) v = (
    elim (step p.hashv) [ inl (ne, _) ↦ absurd (ne v.0) | inr (_, at, lt) ↦ (at, lt) ],
    All-moved list v.1,
  )

  IsPending-bucket : IsPending place' k map (bucket_at map k)
  IsPending-bucket = (
    (placed k).1,
    All-moved (bucket_at map k) (placed k).0,
    λ hashv text tag ne found.
        let here : place hashv ≡ k =
          place-exists_in_list place k (bucket_at map k) hashv text (placed k).0 found in
        exists_in_list-elsewhere place (place' hashv) (bucket_at map (place' hashv)) hashv text
          (placed (place' hashv)).0 (λ e. ne (sym e ∙ here)),
  )

  IsSplit-bucket : IsSplit place' k map (bucket_at map k) (resize_list map k (bucket_at map k))
  IsSplit-bucket =
      resize_list-IsSplit place' k map (bucket_at map k)
        (λ i ne. (All-step i (bucket_at map i) ne (placed i).0, (placed i).1)) IsPending-bucket

  -- The bucket behind the loop, and the others.
  buckets_lem :
      k < length map.buckets
      → let (stay, moved) = resize_list map k (bucket_at map k) in
        let r = resize_bucket map k in
        SameShape map r
        × (bucket_at r k ≡ stay)
        × ((i : ℕ) → i ≢ k → bucket_at r i ≡ bucket_at moved i)
  unfolding resize_bucket
  buckets_lem lt =
      let (stay, moved) = resize_list map k (bucket_at map k) in
      let ((l, s, n, size), _, _, _, _) = IsSplit-bucket in
      elim (Bool-cases (length (bucket_at map k) == 0)) [
        | inl empty ↦ rw empty (empty_bucket map k (eq_nil (bucket_at map k) empty))
        | inr full ↦ rw full (
          (l, s, n, length-set moved.buckets k stay ∙ size),
          get_or-set_self moved.buckets k stay [] (omega (arith, size)),
          λ i ne. get_or-set_ne moved.buckets k i stay [] (λ e. ne (sym e)),
        )
      ]

  pub resize_bucket-IsPlaced :
      k < length map.buckets
      → let r = resize_bucket map k in
        SameShape map r × IsPlaced place' r × SameLookup place map place' r
  resize_bucket-IsPlaced lt =
      let (stay, moved) = resize_list map k (bucket_at map k) in
      let (shape, here, away) = buckets_lem lt in
      let (_, others, b, same, split) = IsSplit-bucket in
      (
        shape,
        (λ i. elim (Bool-cases (i == k)) [
          | inl e ↦
              let at : i ≡ k = (==_iff i k).0 e in
              subst (λ j. IsBucket place' j (bucket_at (resize_bucket map k) j)) (sym at)
                (rw here b)
          | inr ne ↦ let away_i : i ≢ k = ground arith in rw (away i away_i) (others i away_i)
        ]),
        λ hashv text. elim (Bool-cases (place' hashv == k)) [
          | inl e ↦
              let at : place' hashv ≡ k = (==_iff (place' hashv) k).0 e in
              let was : place hashv ≡ k = elim (step hashv) [
                | inl (ne, kept) ↦ absurd (ne (sym kept ∙ at))
                | inr (before, _, _) ↦ before
              ] in
              ap (λ j. exists_in_list (bucket_at (resize_bucket map k) j) hashv text) at
              ∙ ap (λ l. exists_in_list l hashv text) here
              ∙ same hashv text at
              ∙ ap (λ j. exists_in_list (bucket_at map j) hashv text) (sym was)
          | inr e ↦
              let ne : place' hashv ≢ k = ground arith in
              ap (λ l. exists_in_list l hashv text) (away (place' hashv) ne)
              ∙ split hashv text ne
              ∙ elim (step hashv) [
                | inl (before, kept) ↦
                    ap (λ o. or_else o (exists_in_list (bucket_at map (place' hashv)) hashv text))
                      (exists_in_list-elsewhere place k (bucket_at map k) hashv text (placed k).0
                        before)
                    ∙ ap (λ j. exists_in_list (bucket_at map j) hashv text) kept
                | inr (before, _, _) ↦
                    ap (or_else (exists_in_list (bucket_at map k) hashv text)) (
                      exists_in_list-elsewhere place (place' hashv) (bucket_at map (place' hashv))
                        hashv text (placed (place' hashv)).0 (λ h. ne (sym h ∙ before)))
                    ∙ or_else-none (exists_in_list (bucket_at map k) hashv text)
                    ∙ ap (λ j. exists_in_list (bucket_at map j) hashv text) (sym before)
              ]
        ],
      )
