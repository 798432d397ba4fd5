-- ===== src/Dnl/Table/Added.antt =====
-- Names added to the maps of src/dnl.c, against the list of these names.
use chinadns_ng.Prelude.{
  ◌-◌, ltb, ℕ, ◌+◌, ◌≡◌, ◌≢◌, refl, sym, ap, ◌∙◌, true, false, Option, none, List, [], ◌∷◌,
  Bool-cases, inl, inr, length, get_or, set, length-set, get_or-set_self, get_or-set_ne,
}
use chinadns_ng.Prelude.Words.{Bytes}
use chinadns_ng.Dnl.Table.{
  Name, Bucket, free, head, next_level, SecondMap, Dnl, name_eq_r, exists_in_list, is_in_list,
  max_collision, add_to_map2, move_to_map2, add_at, add_to_dnl, add_names, exists_in_second,
}
use chinadns_ng.Dnl.Table.Chain.{
  or_else, or_else-none, name_eq_r-eq, exists_in_list-elsewhere, exists_in_list-eq,
  exists_in_list-is_in_list, is_in_list-found,
}
use chinadns_ng.Dnl.Table.Store.{offer, or_else-offer}
use chinadns_ng.Dnl.Table.{exists_in_dnl}
use chinadns_ng.Dnl.Table.Lookup.{
  answer, place1, bucket1, find, IsDnl, add_to_map2-IsFiled, move_to_map2-IsFiled, or_else_assoc,
  or_else-exists_in_list,
}
use chinadns_ng.Dnl.Table.Extend.{
  IsExtended, stored_at, referred_at, offer-away, not_in_second, idx-lt,
}

head_ne : {list : List Name} → head list ≢ next_level
head_ne h = cc

free_ne : free ≢ next_level
free_ne h = cc

module _ (dnl : Dnl) (w : IsDnl dnl) (name : Name) where
  abbrev idx : ℕ
  idx = place1 dnl name.hashv

  exists_in_list-one :
      (hashv : ℕ) (text : Bytes) → exists_in_list (name ∷ []) hashv text ≡ offer name hashv text
  unfolding exists_in_list
  exists_in_list-one hashv text = refl

  add_at-free : bucket1 dnl idx ≡ free → IsExtended dnl name (add_at dnl idx name free)
  unfolding add_at exists_in_list
  add_at-free at =
      stored_at dnl w name free (name ∷ []) (dnl.map1.nlists + 1) (dnl.map1.nitems + 1) at free_ne
        ((refl, tt), (refl, tt)) (λ hashv text e. refl)

  module _ (list : List Name) (at : bucket1 dnl idx ≡ head list) where
    -- A name that is in the list already.
    add_at-known : is_in_list list name ≡ true → IsExtended dnl name dnl
    add_at-known known =
        let (tag, found) = is_in_list-found list name known in
        (
          w,
          λ hashv text. or_else-offer name hashv text (find dnl hashv text) (λ hit.
              let (eh, et) = name_eq_r-eq name hashv text hit in
              ap (λ k. find dnl k text) (sym eh)
              ∙ ap (find dnl name.hashv) (sym et)
              ∙ ap (λ b. answer b dnl.map2 name.hashv name.text) at
              ∙ found),
        )

    look_in_head :
        (hashv : ℕ) (text : Bytes)
        → place1 dnl hashv ≡ idx
        → find dnl hashv text ≡ exists_in_list list hashv text
    look_in_head hashv text e = ap (λ b. answer b dnl.map2 hashv text) (ap (bucket1 dnl) e ∙ at)

    module _ (new : is_in_list list name ≡ false) where
      offer_behind :
          (hashv : ℕ) (text : Bytes)
          → or_else (offer name hashv text) (exists_in_list list hashv text)
            ≡ or_else (exists_in_list list hashv text) (offer name hashv text)
      offer_behind hashv text = elim (Bool-cases (name_eq_r name hashv text)) [
        | inl hit ↦ rw (
          hit,
          exists_in_list-eq name list hashv text hit ∙ exists_in_list-is_in_list list name new,
        )
        | inr miss ↦ rw miss (sym (or_else-none (exists_in_list list hashv text)))
      ]

      -- The list has room.
      add_at-longer : IsExtended dnl name (record dnl {
        map1 = record (dnl.map1) {
          buckets = set dnl.map1.buckets idx (head (name ∷ list));
          nitems = dnl.map1.nitems + 1;
        };
      })
      unfolding exists_in_list
      add_at-longer =
          stored_at dnl w name (head list) (name ∷ list) dnl.map1.nlists (dnl.map1.nitems + 1) at
            head_ne
            (
              (refl, (w.heads idx list at).0),
              (exists_in_list-is_in_list list name new, (w.heads idx list at).1),
            )
            (λ hashv text e.
              sym (or_else-exists_in_list name list hashv text) ∙ offer_behind hashv text)

      -- The list goes to the L2 map.
      add_at-moved :
          let moving : Dnl = record dnl {
            map1 = record (dnl.map1) {
              buckets = set dnl.map1.buckets idx next_level;
              nlists = dnl.map1.nlists - 1;
            };
          } in
          IsExtended dnl name (add_to_map2 (move_to_map2 list moving) name)
      add_at-moved =
          let bs : List Bucket = dnl.map1.buckets in
          let moving : Dnl = record dnl {
            map1 = record (dnl.map1) {
              buckets = set bs idx next_level;
              nlists = dnl.map1.nlists - 1;
            };
          } in
          let moved : Dnl = move_to_map2 list moving in
          let (b, l, w', e) = move_to_map2-IsFiled list moving w.second in
          let (b', l', w'', e') = add_to_map2-IsFiled moved.map1 moved.map2 name w' in
          let bs' : (add_to_map2 moved name).map1.buckets ≡ set bs idx next_level = b' ∙ b in
          referred_at dnl w name (add_to_map2 moved name)
            (λ hashv text. or_else (exists_in_list list hashv text) (offer name hashv text))
            (ap length bs' ∙ length-set bs idx next_level) (l' ∙ l)
            (ap (λ x. get_or x idx free) bs'
              ∙ get_or-set_self bs idx next_level free (idx-lt dnl w name))
            (λ i ne.
              ap (λ x. get_or x i free) bs'
              ∙ get_or-set_ne bs idx i next_level free (λ h. ne (sym h)))
            w''
            (λ hashv text.
              e' hashv text
              ∙ ap (λ o. or_else o (offer name hashv text)) (e hashv text)
              ∙ or_else_assoc (exists_in_second dnl.map2 hashv text)
                  (exists_in_list list hashv text) (offer name hashv text))
            (λ hashv text ne.
              ap (λ o. or_else o (offer name hashv text))
                (exists_in_list-elsewhere (place1 dnl) idx list hashv text (w.heads idx list at).0
                  ne)
              ∙ offer-away dnl w name hashv text ne)
            (λ hashv text here.
              ap (λ o. or_else o (or_else (exists_in_list list hashv text) (offer name hashv text)))
                (not_in_second dnl w name hashv text
                  (λ next. head_ne (sym (ap (bucket1 dnl) here ∙ at) ∙ next)))
              ∙ ap (λ o. or_else o (offer name hashv text)) (sym (look_in_head hashv text here)))

      pub add_at-head : IsExtended dnl name (add_at dnl idx name (head list))
      unfolding add_at
      add_at-head = elim (Bool-cases (ltb (length list) max_collision)) [
        | inl room ↦ rw (new, room) add_at-longer
        | inr full ↦ rw (new, full) add_at-moved
      ]

  add_at-next : bucket1 dnl idx ≡ next_level → IsExtended dnl name (add_at dnl idx name next_level)
  unfolding add_at
  add_at-next at =
      let (b, l, w', e) = add_to_map2-IsFiled dnl.map1 dnl.map2 name w.second in
      referred_at dnl w name (add_to_map2 dnl name) (offer name) (ap length b) l
        (ap (λ x. get_or x idx free) b ∙ at) (λ i ne. ap (λ x. get_or x i free) b) w' e
        (λ hashv text ne. offer-away dnl w name hashv text ne)
        (λ hashv text here.
          ap (λ x. or_else (answer x dnl.map2 hashv text) (offer name hashv text))
            (sym (ap (bucket1 dnl) here ∙ at)))

  add_at-IsExtended :
      (b : Bucket) → bucket1 dnl idx ≡ b → IsExtended dnl name (add_at dnl idx name b)
  unfolding add_at
  add_at-IsExtended free at = add_at-free at
  add_at-IsExtended (head list) at = elim (Bool-cases (is_in_list list name)) [
    | inl known ↦ rw known (add_at-known list at known)
    | inr new ↦ add_at-head list at new
  ]
  add_at-IsExtended next_level at = add_at-next at

  add_to_dnl-IsExtended : IsExtended dnl name (add_to_dnl dnl name)
  unfolding add_to_dnl
  add_to_dnl-IsExtended = add_at-IsExtended (bucket1 dnl idx) refl

-- Names that are added keep the two maps well-formed.
pub add_names-IsDnl : (names : List Name) (dnl : Dnl) → IsDnl dnl → IsDnl (add_names names dnl)
unfolding add_names
add_names-IsDnl [] dnl w = w
add_names-IsDnl (name ∷ names) dnl w =
    add_names-IsDnl names (add_to_dnl dnl name) (add_to_dnl-IsExtended dnl w name).0

pub find-add_names :
    (names : List Name) (dnl : Dnl) (hashv : ℕ) (text : Bytes)
    → IsDnl dnl
    → find (add_names names dnl) hashv text
      ≡ or_else (find dnl hashv text) (exists_in_list names hashv text)
unfolding add_names exists_in_list
find-add_names [] dnl hashv text w = sym (or_else-none (find dnl hashv text))
find-add_names (name ∷ names) dnl hashv text w =
    let (w', added) = add_to_dnl-IsExtended dnl w name in
    find-add_names names (add_to_dnl dnl name) hashv text w'
    ∙ ap (λ o. or_else o (exists_in_list names hashv text)) (added hashv text)
    ∙ or_else_assoc (find dnl hashv text) (offer name hashv text) (exists_in_list names hashv text)
    ∙ ap (or_else (find dnl hashv text)) (or_else-exists_in_list name names hashv text)

answer-elim :
    (b : Bucket) (map2 : Option SecondMap) (hashv : ℕ) (text : Bytes)
    → (elim b [
      | free ↦ none
      | head list ↦ exists_in_list list hashv text
      | next_level ↦ exists_in_second map2 hashv text
    ])
      ≡ answer b map2 hashv text
answer-elim free map2 hashv text = refl
answer-elim (head list) map2 hashv text = refl
answer-elim next_level map2 hashv text = refl

exists_in_dnl-find :
    (calc_hashv : Bytes → ℕ) (dnl : Dnl) (text : Bytes)
    → exists_in_dnl calc_hashv dnl text ≡ find dnl (calc_hashv text) text
unfolding exists_in_dnl
exists_in_dnl-find calc_hashv dnl text =
    answer-elim (bucket1 dnl (place1 dnl (calc_hashv text))) dnl.map2 (calc_hashv text) text

-- The two maps answer what the list of the names answers behind what they answered before: the name
-- that was added first counts.
pub exists_in_dnl-add_names :
    (calc_hashv : Bytes → ℕ) (names : List Name) (dnl : Dnl) (text : Bytes)
    → IsDnl dnl
    → exists_in_dnl calc_hashv (add_names names dnl) text
      ≡ or_else (exists_in_dnl calc_hashv dnl text) (exists_in_list names (calc_hashv text) text)
exists_in_dnl-add_names calc_hashv names dnl text w =
    exists_in_dnl-find calc_hashv (add_names names dnl) text
    ∙ find-add_names names dnl (calc_hashv text) text w
    ∙ ap (λ o. or_else o (exists_in_list names (calc_hashv text) text))
        (sym (exists_in_dnl-find calc_hashv dnl text))
