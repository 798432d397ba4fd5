-- ===== src/Dnl/Table/Extend.antt =====
-- `add_to_dnl` of src/dnl.c: one name more in the two maps.
use chinadns_ng.Prelude.{
  ℕ, ◌<◌, ◌≡◌, ◌≢◌, ◌^◌, refl, sym, ap, ◌∙◌, Option, none, some, List, [], arith, ◌==◌, Bool-cases,
  Option-cases, ==_iff, inl, inr, length, get_or, set, length-set, get_or-set_self, get_or-set_ne,
  subst,
}
use chinadns_ng.Prelude.Words.{Bytes}
use chinadns_ng.Dnl.Table.{
  Name, Bucket, free, head, next_level, SecondMap, Dnl, exists_in_list, map_idx, exists_in_second,
}
use chinadns_ng.Dnl.Table.Chain.{or_else, or_else-none, name_eq_r-elsewhere}
use chinadns_ng.Dnl.Table.Rehash.{IsBucket}
use chinadns_ng.Dnl.Table.Grow.{map_idx-lt}
use chinadns_ng.Dnl.Table.Store.{offer}
use chinadns_ng.Dnl.Table.Lookup.{answer, place1, bucket1, find, IsDnl, IsWell}

-- What adding a name makes of the maps.
abbrev pub IsExtended : Dnl → Name → Dnl → Type 0
IsExtended dnl name dnl' =
    IsDnl dnl'
    × ((hashv : ℕ) (text : Bytes)
        → find dnl' hashv text ≡ or_else (find dnl hashv text) (offer name hashv text))

abbrev listed : Bucket → List Name
listed free = []
listed (head list) = list
listed next_level = []

next_ne : {list : List Name} → next_level ≡ head list → ⊥
next_ne h = cc

answer-same :
    (b : Bucket) (map2 map2' : Option SecondMap) (hashv : ℕ) (text : Bytes)
    → exists_in_second map2' hashv text ≡ exists_in_second map2 hashv text
    → answer b map2' hashv text ≡ answer b map2 hashv text
answer-same free map2 map2' hashv text e = refl
answer-same (head list) map2 map2' hashv text e = refl
answer-same next_level map2 map2' hashv text e = e

module _ (dnl : Dnl) (w : IsDnl dnl) (name : Name) where
  abbrev idx : ℕ
  idx = place1 dnl name.hashv

  pub idx-lt : idx < length dnl.map1.buckets
  idx-lt = omega (arith, map_idx-lt dnl.map1.lcap 0 name.hashv, w.size)

  pub offer-away :
      (hashv : ℕ) (text : Bytes) → place1 dnl hashv ≢ idx → offer name hashv text ≡ none
  offer-away hashv text ne = rw (name_eq_r-elsewhere (place1 dnl) idx name hashv text refl ne)

  -- The L2 map holds nothing of a bucket that does not refer to it.
  pub not_in_second :
      (hashv : ℕ) (text : Bytes)
      → bucket1 dnl (place1 dnl hashv) ≢ next_level
      → exists_in_second dnl.map2 hashv text ≡ none
  not_in_second hashv text ne = elim (Option-cases (exists_in_second dnl.map2 hashv text)) [
    | inl e ↦ e
    | inr (tag, found) ↦ absurd (ne (w.apart hashv text tag found))
  ]

  -- The bucket keeps a list, one name longer.
  pub stored_at :
      (b : Bucket) (list' : List Name) (nlists nitems : ℕ)
      → bucket1 dnl idx ≡ b
      → b ≢ next_level
      → IsBucket (place1 dnl) idx list'
      → ((hashv : ℕ) (text : Bytes)
          → place1 dnl hashv ≡ idx
          → exists_in_list list' hashv text
            ≡ or_else (answer b dnl.map2 hashv text) (offer name hashv text))
      → IsExtended dnl name (record dnl {
        map1 = record {
          buckets = set dnl.map1.buckets idx (head list');
          lcap = dnl.map1.lcap;
          nlists = nlists;
          nitems = nitems;
        };
      })
  stored_at b list' nlists nitems at ne bucket look =
      let bs : List Bucket = dnl.map1.buckets in
      let here : get_or (set bs idx (head list')) idx free ≡ head list' =
        get_or-set_self bs idx (head list') free idx-lt in
      (
        record {
          size = length-set bs idx (head list') ∙ w.size;
          heads = λ i list e. elim (Bool-cases (idx == i)) [
            | inl same ↦
                let at_i : idx ≡ i = (==_iff idx i).0 same in
                subst (λ l. IsBucket (place1 dnl) i l)
                  (ap listed
                    (sym (ap (λ j. get_or (set bs idx (head list')) j free) (sym at_i) ∙ here) ∙ e))
                  (subst (λ j. IsBucket (place1 dnl) j list') at_i bucket)
            | inr other ↦
                w.heads i list (sym (get_or-set_ne bs idx i (head list') free (ground arith)) ∙ e)
          ];
          second = w.second;
          apart = λ hashv text tag found.
              let refers = w.apart hashv text tag found in
              get_or-set_ne bs idx (place1 dnl hashv) (head list') free
                (λ e. ne (sym at ∙ ap (bucket1 dnl) e ∙ refers))
              ∙ refers;
        },
        λ hashv text. elim (Bool-cases (place1 dnl hashv == idx)) [
          | inl same ↦
              let e : place1 dnl hashv ≡ idx = (==_iff (place1 dnl hashv) idx).0 same in
              ap (λ j. answer (get_or (set bs idx (head list')) j free) dnl.map2 hashv text) e
              ∙ ap (λ a. answer a dnl.map2 hashv text) here
              ∙ look hashv text e
              ∙ ap (λ a. or_else (answer a dnl.map2 hashv text) (offer name hashv text)) (sym at)
              ∙ ap
                  (λ j.
                    or_else (answer (bucket1 dnl j) dnl.map2 hashv text) (offer name hashv text))
                  (sym e)
          | inr other ↦
              let away : place1 dnl hashv ≢ idx = ground arith in
              ap (λ a. answer a dnl.map2 hashv text)
                (get_or-set_ne bs idx (place1 dnl hashv) (head list') free (λ e. away (sym e)))
              ∙ sym (or_else-none (find dnl hashv text))
              ∙ ap (or_else (find dnl hashv text)) (sym (offer-away hashv text away))
        ],
      )

  -- The bucket refers to the L2 map, which has more names.
  module _ (dnl' : Dnl) (extra : ℕ → Bytes → Option ℕ)
      (size : length dnl'.map1.buckets ≡ length dnl.map1.buckets)
      (lcap : dnl'.map1.lcap ≡ dnl.map1.lcap) (here : bucket1 dnl' idx ≡ next_level)
      (others : (i : ℕ) → i ≢ idx → bucket1 dnl' i ≡ bucket1 dnl i) (second : IsWell dnl'.map2)
      (added : (hashv : ℕ) (text : Bytes)
        → exists_in_second dnl'.map2 hashv text
          ≡ or_else (exists_in_second dnl.map2 hashv text) (extra hashv text))
      (away : (hashv : ℕ) (text : Bytes) → place1 dnl hashv ≢ idx → extra hashv text ≡ none)
      (look : (hashv : ℕ) (text : Bytes)
        → place1 dnl hashv ≡ idx
        → or_else (exists_in_second dnl.map2 hashv text) (extra hashv text)
          ≡ or_else (find dnl hashv text) (offer name hashv text)) where
    same_place : place1 dnl' ≡ place1 dnl
    same_place = ap (λ l hashv. map_idx l 0 hashv) lcap

    second-away :
        (hashv : ℕ) (text : Bytes)
        → place1 dnl hashv ≢ idx
        → exists_in_second dnl'.map2 hashv text ≡ exists_in_second dnl.map2 hashv text
    second-away hashv text ne =
        added hashv text
        ∙ ap (or_else (exists_in_second dnl.map2 hashv text)) (away hashv text ne)
        ∙ or_else-none (exists_in_second dnl.map2 hashv text)

    referred-apart :
        (hashv : ℕ) (text : Bytes) (tag : ℕ)
        → exists_in_second dnl'.map2 hashv text ≡ some tag
        → bucket1 dnl' (place1 dnl hashv) ≡ next_level
    referred-apart hashv text tag found = elim (Bool-cases (place1 dnl hashv == idx)) [
      | inl same ↦ ap (bucket1 dnl') ((==_iff (place1 dnl hashv) idx).0 same) ∙ here
      | inr other ↦
          let ne : place1 dnl hashv ≢ idx = ground arith in
          others (place1 dnl hashv) ne
          ∙ w.apart hashv text tag (sym (second-away hashv text ne) ∙ found)
    ]

    referred-heads :
        (i : ℕ) (list : List Name) → bucket1 dnl' i ≡ head list → IsBucket (place1 dnl) i list
    referred-heads i list e = elim (Bool-cases (i == idx)) [
      | inl same ↦ absurd (next_ne (sym (ap (bucket1 dnl') ((==_iff i idx).0 same) ∙ here) ∙ e))
      | inr other ↦ w.heads i list (sym (others i (ground arith)) ∙ e)
    ]

    referred-find :
        (hashv : ℕ) (text : Bytes)
        → answer (bucket1 dnl' (place1 dnl hashv)) dnl'.map2 hashv text
          ≡ or_else (find dnl hashv text) (offer name hashv text)
    referred-find hashv text = elim (Bool-cases (place1 dnl hashv == idx)) [
      | inl same ↦
          let e : place1 dnl hashv ≡ idx = (==_iff (place1 dnl hashv) idx).0 same in
          ap (λ a. answer a dnl'.map2 hashv text) (ap (bucket1 dnl') e ∙ here)
          ∙ added hashv text
          ∙ look hashv text e
      | inr other ↦
          let ne : place1 dnl hashv ≢ idx = ground arith in
          ap (λ a. answer a dnl'.map2 hashv text) (others (place1 dnl hashv) ne)
          ∙ answer-same (bucket1 dnl (place1 dnl hashv)) dnl.map2 dnl'.map2 hashv text
              (second-away hashv text ne)
          ∙ sym (or_else-none (find dnl hashv text))
          ∙ ap (or_else (find dnl hashv text)) (sym (offer-away hashv text ne))
    ]

    pub referred_at : IsExtended dnl name dnl'
    referred_at = (
      record {
        size = size ∙ w.size ∙ ap (λ l. 2 ^ l) (sym lcap);
        heads = λ i list e.
            subst (λ place. IsBucket place i list) (sym same_place) (referred-heads i list e);
        second = second;
        apart = λ hashv text tag found.
            ap (λ place. bucket1 dnl' (place hashv)) same_place
            ∙ referred-apart hashv text tag found;
      },
      λ hashv text.
          ap (λ place. answer (bucket1 dnl' (place hashv)) dnl'.map2 hashv text) same_place
          ∙ referred-find hashv text,
    )
