-- ===== src/Dnl/Table/Rehash.antt =====
-- One list of `resize_map2` (src/dnl.c): the names that stay and the names that move.
use mathlib.Core.Bool.{false≢true}
use chinadns_ng.Prelude.{
  ℕ, ◌<◌, ◌≡◌, ◌≢◌, refl, sym, ap, ◌∙◌, false, none, some, List, [], ◌∷◌, arith, ◌==◌,
  if◌then◌else◌, All, Bool-cases, ==_iff, inl, inr, none_ne, length, get_or, length-set,
  get_or-set_self, get_or-set_ne, subst,
}
use chinadns_ng.Prelude.Words.{Bytes}
use chinadns_ng.Dnl.Table.{
  Name, SecondMap, name_eq_r, exists_in_list, map_idx, store_in_second, resize_list,
}
use chinadns_ng.Dnl.Table.Chain.{
  or_else, IsUnique, name_eq_r_refl, name_eq_r-eq, name_eq_r-elsewhere, exists_in_list-hit,
  exists_in_list-miss, exists_in_list-eq,
}

abbrev pub bucket_at : SecondMap → ℕ → List Name
bucket_at map i = get_or map.buckets i []

-- The index of a hash in the L2 map.
abbrev pub idx_of : SecondMap → ℕ → ℕ
idx_of map hashv = map_idx map.lcap map.shift hashv

-- Every name of the list belongs at `i`, and none is there twice.
abbrev pub IsBucket : (ℕ → ℕ) → ℕ → List Name → Type 0
IsBucket place i list = All (λ p. place p.hashv ≡ i) list × IsUnique list

-- All but the buckets and the count of lists.
abbrev pub SameShape : SecondMap → SecondMap → Type 0
SameShape a b =
    (b.lcap ≡ a.lcap)
    × (b.shift ≡ a.shift)
    × (b.nitems ≡ a.nitems)
    × (length b.buckets ≡ length a.buckets)

pub SameShape-trans : (a b c : SecondMap) → SameShape a b → SameShape b c → SameShape a c
SameShape-trans a b c (l, s, n, k) (l', s', n', k') = (l' ∙ l, s' ∙ s, n' ∙ n, k' ∙ k)

pub bucket_at-store_self :
    (map : SecondMap) (i : ℕ) (name : Name)
    → i < length map.buckets
    → bucket_at (store_in_second map i name) i ≡ name ∷ bucket_at map i
unfolding store_in_second
bucket_at-store_self map i name lt = get_or-set_self map.buckets i (name ∷ bucket_at map i) [] lt

pub bucket_at-store_ne :
    (map : SecondMap) (i j : ℕ) (name : Name)
    → i ≢ j
    → bucket_at (store_in_second map i name) j ≡ bucket_at map j
unfolding store_in_second
bucket_at-store_ne map i j name ne = get_or-set_ne map.buckets i j (name ∷ bucket_at map i) [] ne

pub store_in_second-SameShape :
    (map : SecondMap) (i : ℕ) (name : Name) → SameShape map (store_in_second map i name)
unfolding store_in_second
store_in_second-SameShape map i name =
    (refl, refl, refl, length-set map.buckets i (name ∷ bucket_at map i))

-- `place` is where the names go that are hashed to bucket `k` before.
module _ (place : ℕ → ℕ) (k : ℕ) where
  -- The other buckets, while bucket `k` is taken apart.
  abbrev pub AreOthers : SecondMap → Type 0
  AreOthers map = (i : ℕ) → i ≢ k → IsBucket place i (bucket_at map i)

  -- What is left of the list goes to a bucket that there is, where it is not yet.
  abbrev pub IsPending : SecondMap → List Name → Type 0
  IsPending map list =
      IsUnique list
      × All (λ p. (place p.hashv ≡ idx_of map p.hashv) × (place p.hashv < length map.buckets)) list
      × ((hashv : ℕ) (text : Bytes) (tag : ℕ)
          → place hashv ≢ k
          → exists_in_list list hashv text ≡ some tag
          → exists_in_list (bucket_at map (place hashv)) hashv text ≡ none)

  -- What the loop over the list gives.
  abbrev pub IsSplit : SecondMap → List Name → List Name × SecondMap → Type 0
  IsSplit map list (stay, moved) =
      SameShape map moved
      × AreOthers moved
      × IsBucket place k stay
      × ((hashv : ℕ) (text : Bytes)
          → place hashv ≡ k
          → exists_in_list stay hashv text ≡ exists_in_list list hashv text)
      × ((hashv : ℕ) (text : Bytes)
          → place hashv ≢ k
          → exists_in_list (bucket_at moved (place hashv)) hashv text
            ≡ or_else (exists_in_list list hashv text)
                (exists_in_list (bucket_at map (place hashv)) hashv text))

  IsPending-tail :
      (map : SecondMap) (cur : Name) (list : List Name)
      → IsPending map (cur ∷ list)
      → IsPending map list
  IsPending-tail map cur list (u, v, away) = (
    u.1,
    v.1,
    λ hashv text tag ne found. elim (Bool-cases (name_eq_r cur hashv text)) [
      | inl hit ↦ absurd (none_ne (sym (exists_in_list-eq cur list hashv text hit ∙ u.0) ∙ found))
      | inr miss ↦ away hashv text tag ne (exists_in_list-miss cur list hashv text miss ∙ found)
    ],
  )

  -- The head of the list stays.
  IsSplit-stay :
      (map : SecondMap) (cur : Name) (list stay : List Name) (moved : SecondMap)
      → place cur.hashv ≡ k
      → IsPending map (cur ∷ list)
      → IsSplit map list (stay, moved)
      → IsSplit map (cur ∷ list) (cur ∷ stay, moved)
  IsSplit-stay map cur list stay moved here (u, v, away) (shape, others, b, same, split) = (
    shape,
    others,
    ((here, b.0), (same cur.hashv cur.text here ∙ u.0, b.1)),
    (λ hashv text at. elim (Bool-cases (name_eq_r cur hashv text)) [
      | inl hit ↦
          exists_in_list-hit cur stay hashv text hit
          ∙ sym (exists_in_list-hit cur list hashv text hit)
      | inr miss ↦
          exists_in_list-miss cur stay hashv text miss
          ∙ same hashv text at
          ∙ sym (exists_in_list-miss cur list hashv text miss)
    ]),
    (λ hashv text ne.
        let miss : name_eq_r cur hashv text ≡ false =
          name_eq_r-elsewhere place k cur hashv text here ne in
        split hashv text ne
        ∙ ap (λ o. or_else o (exists_in_list (bucket_at map (place hashv)) hashv text))
            (sym (exists_in_list-miss cur list hashv text miss))),
  )

  module _ (map : SecondMap) (cur : Name) (list : List Name) (away : place cur.hashv ≢ k)
      (others : AreOthers map) (pending : IsPending map (cur ∷ list)) where
    abbrev home : ℕ
    home = place cur.hashv

    abbrev stored : SecondMap
    stored = store_in_second map home cur

    -- The key of the head is not in its new bucket.
    cur_is_new : exists_in_list (bucket_at map home) cur.hashv cur.text ≡ none
    cur_is_new =
        pending.2 cur.hashv cur.text cur.tag away
          (exists_in_list-hit cur list cur.hashv cur.text (name_eq_r_refl cur))

    AreOthers-move : AreOthers stored
    AreOthers-move i ne = elim (Bool-cases (home == i)) [
      | inl same ↦
          let e : home ≡ i = (==_iff home i).0 same in
          subst (λ j. IsBucket place j (bucket_at stored j)) e
            (rw (bucket_at-store_self map home cur pending.1.0.1)
              ((refl, (others home away).0), (cur_is_new, (others home away).1)))
      | inr other ↦ rw (bucket_at-store_ne map home i cur (ground arith)) (others i ne)
    ]

    -- Looking in the buckets behind the move.
    exists-move :
        (hashv : ℕ) (text : Bytes)
        → exists_in_list (bucket_at stored (place hashv)) hashv text ≡ (
            if name_eq_r cur hashv text
            then some cur.tag
            else exists_in_list (bucket_at map (place hashv)) hashv text)
    exists-move hashv text = elim (Bool-cases (name_eq_r cur hashv text)) [
      | inl hit ↦
          let e : home ≡ place hashv = ap place (name_eq_r-eq cur hashv text hit).0 in
          rw hit (
            ap (λ j. exists_in_list (bucket_at stored j) hashv text) (sym e)
            ∙ ap (λ l. exists_in_list l hashv text)
                (bucket_at-store_self map home cur pending.1.0.1)
            ∙ exists_in_list-hit cur (bucket_at map home) hashv text hit)
      | inr miss ↦ rw miss (elim (Bool-cases (home == place hashv)) [
        | inl same ↦
            let e : home ≡ place hashv = (==_iff home (place hashv)).0 same in
            ap (λ j. exists_in_list (bucket_at stored j) hashv text) (sym e)
            ∙ ap (λ l. exists_in_list l hashv text)
                (bucket_at-store_self map home cur pending.1.0.1)
            ∙ exists_in_list-miss cur (bucket_at map home) hashv text miss
            ∙ ap (λ j. exists_in_list (bucket_at map j) hashv text) e
        | inr other ↦
            ap (λ l. exists_in_list l hashv text)
              (bucket_at-store_ne map home (place hashv) cur (ground arith))
      ])
    ]

    -- The head's key is not in the rest of the list.
    not_behind :
        (hashv : ℕ) (text : Bytes) {tag : ℕ}
        → exists_in_list list hashv text ≡ some tag
        → name_eq_r cur hashv text ≡ false
    not_behind hashv text found = elim (Bool-cases (name_eq_r cur hashv text)) [
      | inl hit ↦
          absurd (none_ne (sym (exists_in_list-eq cur list hashv text hit ∙ pending.0.0) ∙ found))
      | inr miss ↦ miss
    ]

    in_range :
        All
          (λ p. (place p.hashv ≡ idx_of stored p.hashv) × (place p.hashv < length stored.buckets))
          list
    unfolding store_in_second
    in_range =
        subst (λ n. All (λ p. (place p.hashv ≡ idx_of map p.hashv) × (place p.hashv < n)) list)
          (sym (length-set map.buckets home (cur ∷ bucket_at map home))) pending.1.1

    IsPending-move : IsPending stored list
    IsPending-move = (
      pending.0.1,
      in_range,
      λ hashv text tag ne found.
          exists-move hashv text
          ∙ rw (not_behind hashv text found)
              ((IsPending-tail map cur list pending).2 hashv text tag ne found),
    )

    -- The rest of the list after the head's move, for a key that belongs elsewhere.
    split-move :
        (hashv : ℕ) (text : Bytes)
        → or_else
            (exists_in_list list hashv text)
            (exists_in_list (bucket_at stored (place hashv)) hashv text)
          ≡ or_else
              (exists_in_list (cur ∷ list) hashv text)
              (exists_in_list (bucket_at map (place hashv)) hashv text)
    split-move hashv text = elim (Bool-cases (name_eq_r cur hashv text)) [
      | inl hit ↦ rw (
        exists_in_list-hit cur list hashv text hit,
        exists_in_list-eq cur list hashv text hit ∙ pending.0.0,
        exists-move hashv text,
        hit,
      )
      | inr miss ↦ rw (exists_in_list-miss cur list hashv text miss, exists-move hashv text, miss)
    ]

    IsSplit-move : (r : List Name × SecondMap) → IsSplit stored list r → IsSplit map (cur ∷ list) r
    IsSplit-move (stay, moved) (shape, others', b, same, split) = (
      SameShape-trans map stored moved (store_in_second-SameShape map home cur) shape,
      others',
      b,
      (λ hashv text at.
          same hashv text at
          ∙ sym (
              exists_in_list-miss cur list hashv text
                (name_eq_r-elsewhere place home cur hashv text refl (λ e. away (sym e ∙ at))))),
      (λ hashv text ne. split hashv text ne ∙ split-move hashv text),
    )

  -- The loop over the list takes bucket `k` apart.
  pub resize_list-IsSplit :
      (map : SecondMap) (list : List Name)
      → AreOthers map
      → IsPending map list
      → IsSplit map list (resize_list map k list)
  unfolding resize_list exists_in_list
  resize_list-IsSplit map [] others pending =
      ((refl, refl, refl, refl), others, (tt, tt), (λ hashv text at. refl), λ hashv text ne. refl)
  resize_list-IsSplit map (cur ∷ list) others pending =
      elim (Bool-cases (idx_of map cur.hashv == k)) [
        | inl stays ↦
            let here : place cur.hashv ≡ k =
              pending.1.0.0 ∙ (==_iff (idx_of map cur.hashv) k).0 stays in
            rw (resize_list, stays)
              (IsSplit-stay map cur list (resize_list map k list).0 (resize_list map k list).1 here
                pending (resize_list-IsSplit map list others (IsPending-tail map cur list pending)))
        | inr moves ↦
            let e : place cur.hashv ≡ idx_of map cur.hashv = pending.1.0.0 in
            let away : place cur.hashv ≢ k =
              λ at. false≢true (sym moves ∙ (==_iff (idx_of map cur.hashv) k).1 (sym e ∙ at)) in
            rw (resize_list, moves)
              (subst
                (λ i. IsSplit map (cur ∷ list) (resize_list (store_in_second map i cur) k list)) e
                (IsSplit-move map cur list away others pending
                  (resize_list (store_in_second map (place cur.hashv) cur) k list)
                  (resize_list-IsSplit (store_in_second map (place cur.hashv) cur) list
                    (AreOthers-move map cur list away others pending)
                    (IsPending-move map cur list away others pending))))
      ]
