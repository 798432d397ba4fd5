-- ===== src/Dnl/Table/Store.antt =====
-- A name that goes to the L2 map (src/dnl.c): `add_to_map2` from the label `redo` on.
use chinadns_ng.Prelude.{
  ltb, lt→ltb, none_ne, tests, ℕ, suc, ◌+◌, ◌<◌, ◌≡◌, refl, sym, ap, ◌∙◌, true, false, Option, none,
  some, ◌∷◌, arith, ◌==◌, if◌then◌else◌, Bool-cases, Option-cases, ==_iff, inl, inr, length,
  length-set, subst, ◌^◌,
}
use chinadns_ng.Prelude.Words.{Bytes}
use chinadns_ng.Dnl.Table.{
  Name, SecondMap, name_eq_r, exists_in_list, is_in_list, map_maxload, store_in_second, resize_map2,
  redo, new_map2, default_lcap,
}
use chinadns_ng.Dnl.Table.Chain.{
  or_else, or_else-none, name_eq_r-eq, exists_in_list-hit, exists_in_list-miss, exists_in_list-eq,
  exists_in_list-is_in_list, is_in_list-found,
}
use chinadns_ng.Dnl.Table.Rehash.{
  bucket_at, idx_of, IsBucket, bucket_at-store_self, bucket_at-store_ne,
}
use chinadns_ng.Dnl.Table.Grow.{
  IsSecond, find_in_second, resize_map2-IsSecond, map_idx-lt, get_or-replicate, length-replicate,
}

-- What a name answers to a key.
abbrev pub offer : Name → ℕ → Bytes → Option ℕ
offer name hashv text = if name_eq_r name hashv text then some name.tag else none

-- A name whose key is found already changes no lookup.
pub or_else-offer :
    (name : Name) (hashv : ℕ) (text : Bytes) (o : Option ℕ) {tag : ℕ}
    → (name_eq_r name hashv text ≡ true → o ≡ some tag)
    → o ≡ or_else o (offer name hashv text)
or_else-offer name hashv text o found = elim (Bool-cases (name_eq_r name hashv text)) [
  | inl hit ↦ rw (hit, found hit)
  | inr miss ↦ rw miss (sym (or_else-none o))
]

-- What adding a name makes of a map.
abbrev pub IsAdded : SecondMap → Name → SecondMap → Type 0
IsAdded map name map' =
    IsSecond map'
    × (map'.shift ≡ map.shift)
    × ((hashv : ℕ) (text : Bytes)
        → find_in_second map' hashv text
          ≡ or_else (find_in_second map hashv text) (offer name hashv text))

module _ (map : SecondMap) (name : Name) (w : IsSecond map) where
  abbrev home : ℕ
  home = idx_of map name.hashv

  abbrev stored : SecondMap
  stored = record (store_in_second map home name) { nitems = map.nitems + 1 }

  home-lt : home < length map.buckets
  home-lt = omega (arith, map_idx-lt map.lcap map.shift name.hashv, w.size)

  IsAdded-known : is_in_list (bucket_at map home) name ≡ true → IsAdded map name map
  IsAdded-known known =
      let (tag, found) = is_in_list-found (bucket_at map home) name known in
      (
        w,
        refl,
        λ hashv text. or_else-offer name hashv text (find_in_second map hashv text) (λ hit.
            let (eh, et) = name_eq_r-eq name hashv text hit in
            ap (λ k. find_in_second map k text) (sym eh)
            ∙ ap (find_in_second map name.hashv) (sym et)
            ∙ found),
      )

  module _ (new : is_in_list (bucket_at map home) name ≡ false) where
    stored-placed : (i : ℕ) → IsBucket (idx_of map) i (bucket_at (store_in_second map home name) i)
    stored-placed i = elim (Bool-cases (home == i)) [
      | inl same ↦
          let e : home ≡ i = (==_iff home i).0 same in
          subst (λ j. IsBucket (idx_of map) j (bucket_at (store_in_second map home name) j)) e
            (rw (bucket_at-store_self map home name home-lt) (
              (refl, (w.placed home).0),
              (exists_in_list-is_in_list (bucket_at map home) name new, (w.placed home).1),
            ))
      | inr other ↦ rw (bucket_at-store_ne map home i name (ground arith)) (w.placed i)
    ]

    find_in_second-stored :
        (hashv : ℕ) (text : Bytes)
        → exists_in_list (bucket_at (store_in_second map home name) (idx_of map hashv)) hashv text
          ≡ or_else (find_in_second map hashv text) (offer name hashv text)
    find_in_second-stored hashv text = elim (Bool-cases (name_eq_r name hashv text)) [
      | inl hit ↦
          let e : home ≡ idx_of map hashv = ap (idx_of map) (name_eq_r-eq name hashv text hit).0 in
          let absent : find_in_second map hashv text ≡ none =
            ap (λ j. exists_in_list (bucket_at map j) hashv text) (sym e)
            ∙ exists_in_list-eq name (bucket_at map home) hashv text hit
            ∙ exists_in_list-is_in_list (bucket_at map home) name new in
          rw (absent, hit)
            (ap (λ j. exists_in_list (bucket_at (store_in_second map home name) j) hashv text)
                (sym e)
              ∙ ap (λ l. exists_in_list l hashv text) (bucket_at-store_self map home name home-lt)
              ∙ exists_in_list-hit name (bucket_at map home) hashv text hit)
      | inr miss ↦
          rw (miss, or_else-none (find_in_second map hashv text))
            (elim (Bool-cases (home == idx_of map hashv)) [
              | inl same ↦
                  let e : home ≡ idx_of map hashv = (==_iff home (idx_of map hashv)).0 same in
                  ap (λ j. exists_in_list (bucket_at (store_in_second map home name) j) hashv text)
                    (sym e)
                  ∙ ap (λ l. exists_in_list l hashv text)
                      (bucket_at-store_self map home name home-lt)
                  ∙ exists_in_list-miss name (bucket_at map home) hashv text miss
                  ∙ ap (λ j. exists_in_list (bucket_at map j) hashv text) e
              | inr other ↦
                  ap (λ l. exists_in_list l hashv text)
                    (bucket_at-store_ne map home (idx_of map hashv) name (ground arith))
            ])
    ]

    IsAdded-stored : map.nitems < map_maxload map.lcap → IsAdded map name stored
    unfolding store_in_second
    IsAdded-stored room = (
      record {
        size = length-set map.buckets home (name ∷ bucket_at map home) ∙ w.size;
        placed = stored-placed;
        load = omega (arith, room);
        capacity = w.capacity;
      },
      refl,
      find_in_second-stored,
    )

resize_map2-room : (map : SecondMap) → resize_map2 map ≡ none → map.nitems < map_maxload map.lcap
unfolding resize_map2
resize_map2-room map h = elim (Bool-cases (ltb map.nitems (map_maxload map.lcap))) [
  | inl below ↦ omega (tests, below)
  | inr full ↦ absurd (none_ne (sym (rw full at h)))
]

resize_map2-none : (map : SecondMap) → map.nitems < map_maxload map.lcap → resize_map2 map ≡ none
unfolding resize_map2
resize_map2-none map room = rw (lt→ltb map.nitems (map_maxload map.lcap) room)

-- One round of `redo` where there is room.
redo-room :
    (fuel : ℕ) (map : SecondMap) (name : Name)
    → IsSecond map
    → map.nitems < map_maxload map.lcap
    → IsAdded map name (redo (suc fuel) map name)
unfolding redo
redo-room fuel map name w room =
    elim (Bool-cases (is_in_list (bucket_at map (idx_of map name.hashv)) name)) [
      | inl known ↦ rw known (IsAdded-known map name w known)
      | inr new ↦ rw (new, resize_map2-none map room) (IsAdded-stored map name w new room)
    ]

-- Two rounds are enough.
redo_twice :
    (fuel : ℕ) (map : SecondMap) (name : Name)
    → IsSecond map
    → IsAdded map name (redo (suc (suc fuel)) map name)
unfolding redo
redo_twice fuel map name w =
    elim (Bool-cases (is_in_list (bucket_at map (idx_of map name.hashv)) name)) [
      | inl known ↦ rw (redo, known) (IsAdded-known map name w known)
      | inr new ↦ elim (Option-cases (resize_map2 map)) [
        | inl stay ↦
            rw (redo, new, stay) (IsAdded-stored map name w new (resize_map2-room map stay))
        | inr (map', grow) ↦
            let (w', room, _, shift, same) = resize_map2-IsSecond map w grow in
            let (w'', shift', added) = redo-room fuel map' name w' room in
            rw (redo, new, grow)
              (
                w'',
                shift' ∙ shift,
                λ hashv text.
                    added hashv text
                    ∙ ap (λ o. or_else o (offer name hashv text)) (same hashv text),
              )
      ]
    ]

pub redo-IsAdded :
    (fuel : ℕ) (map : SecondMap) (name : Name)
    → IsSecond map
    → IsAdded map name (redo (fuel + 2) map name)
redo-IsAdded fuel map name w =
    let e : suc (suc fuel) ≡ fuel + 2 = omega arith in
    subst (λ n. IsAdded map name (redo n map name)) e (redo_twice fuel map name w)

pub new_map2-IsSecond : (shift : ℕ) → IsSecond (new_map2 shift)
unfolding new_map2
new_map2-IsSecond shift = record {
  size = length-replicate (2 ^ default_lcap);
  placed = λ i.
      subst (IsBucket (idx_of (new_map2 shift)) i) (sym (get_or-replicate (2 ^ default_lcap) i))
        (tt, tt);
  load = omega arith;
  capacity = omega arith;
}

pub find_in_second-new_map2 :
    (shift hashv : ℕ) (text : Bytes) → find_in_second (new_map2 shift) hashv text ≡ none
unfolding new_map2 exists_in_list
find_in_second-new_map2 shift hashv text =
    ap (λ l. exists_in_list l hashv text)
      (get_or-replicate (2 ^ default_lcap) (idx_of (new_map2 shift) hashv))
