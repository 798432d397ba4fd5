-- ===== src/Dnl/Table/Lookup.antt =====
-- The two maps of src/dnl.c together: what a name that is added does to every lookup.
use mathlib.Core.Option.{some-injective}
use chinadns_ng.Prelude.{
  ◌-◌, ℕ, ◌+◌, ◌≡◌, ◌^◌, refl, sym, ap, ◌∙◌, Option, none, some, List, [], ◌∷◌, Bool-cases, inl,
  inr, length, get_or, subst,
}
use chinadns_ng.Prelude.Words.{Bytes}
use chinadns_ng.Dnl.Table.{
  Name, Bucket, free, head, next_level, FirstMap, SecondMap, Dnl, name_eq_r, exists_in_list,
  map_idx, redo, new_map2, add_to_map2, move_to_map2, exists_in_second,
}
use chinadns_ng.Dnl.Table.Chain.{or_else, or_else-none}
use chinadns_ng.Dnl.Table.Rehash.{IsBucket}
use chinadns_ng.Dnl.Table.Grow.{IsSecond}
use chinadns_ng.Dnl.Table.Store.{offer, redo-IsAdded, new_map2-IsSecond, find_in_second-new_map2}

-- What a bucket of the L1 map answers.
abbrev pub answer : Bucket → Option SecondMap → ℕ → Bytes → Option ℕ
answer free map2 hashv text = none
answer (head list) map2 hashv text = exists_in_list list hashv text
answer next_level map2 hashv text = exists_in_second map2 hashv text

-- The index of a hash in the L1 map.
abbrev pub place1 : Dnl → ℕ → ℕ
place1 dnl hashv = map_idx dnl.map1.lcap 0 hashv

abbrev pub bucket1 : Dnl → ℕ → Bucket
bucket1 dnl i = get_or dnl.map1.buckets i free

-- The tag of a key.
abbrev pub find : Dnl → ℕ → Bytes → Option ℕ
find dnl hashv text = answer (bucket1 dnl (place1 dnl hashv)) dnl.map2 hashv text

-- The L1 map has the buckets it says, every name of its lists stands where its hash belongs, and
-- once; the L2 map is well-formed, and holds names of the buckets that refer to it only.
pub record IsDnl (dnl : Dnl) : Type 0 where
  pub size : length dnl.map1.buckets ≡ 2 ^ dnl.map1.lcap
  pub heads : (i : ℕ) (list : List Name) → bucket1 dnl i ≡ head list → IsBucket (place1 dnl) i list
  pub second : (map : SecondMap) → dnl.map2 ≡ some map → IsSecond map
  pub apart :
      (hashv : ℕ) (text : Bytes) (tag : ℕ)
      → exists_in_second dnl.map2 hashv text ≡ some tag
      → bucket1 dnl (place1 dnl hashv) ≡ next_level

abbrev pub IsWell : Option SecondMap → Type 0
IsWell map2 = (map : SecondMap) → map2 ≡ some map → IsSecond map

-- `add_to_map2` extends the L2 map and leaves the L1 map.
abbrev pub IsFiled : Dnl → (ℕ → Bytes → Option ℕ) → Dnl → Type 0
IsFiled dnl extra dnl' =
    (dnl'.map1.buckets ≡ dnl.map1.buckets)
    × (dnl'.map1.lcap ≡ dnl.map1.lcap)
    × IsWell dnl'.map2
    × ((hashv : ℕ) (text : Bytes)
        → exists_in_second dnl'.map2 hashv text
          ≡ or_else (exists_in_second dnl.map2 hashv text) (extra hashv text))

pub add_to_map2-IsFiled :
    (map1 : FirstMap) (map2 : Option SecondMap) (name : Name)
    → IsWell map2
    → let dnl : Dnl = record { map1 = map1; map2 = map2 } in
      IsFiled dnl (offer name) (add_to_map2 dnl name)
unfolding add_to_map2
add_to_map2-IsFiled map1 none name w =
    let map : SecondMap = new_map2 map1.lcap in
    let (w', _, added) = redo-IsAdded map.nitems map name (new_map2-IsSecond map1.lcap) in
    (
      refl,
      refl,
      (λ map' e. subst IsSecond (some-injective (redo (map.nitems + 2) map name) map' e) w'),
      λ hashv text.
          added hashv text
          ∙ ap (λ o. or_else o (offer name hashv text))
              (find_in_second-new_map2 map1.lcap hashv text),
    )
add_to_map2-IsFiled map1 (some map) name w =
    let (w', _, added) = redo-IsAdded map.nitems map name (w map refl) in
    (
      refl,
      refl,
      (λ map' e. subst IsSecond (some-injective (redo (map.nitems + 2) map name) map' e) w'),
      added,
    )

pub or_else_assoc : (a b c : Option ℕ) → or_else (or_else a b) c ≡ or_else a (or_else b c)
or_else_assoc none b c = refl
or_else_assoc (some tag) b c = refl

pub or_else-exists_in_list :
    (cur : Name) (list : List Name) (hashv : ℕ) (text : Bytes)
    → or_else (offer cur hashv text) (exists_in_list list hashv text)
      ≡ exists_in_list (cur ∷ list) hashv text
unfolding exists_in_list
or_else-exists_in_list cur list hashv text = elim (Bool-cases (name_eq_r cur hashv text)) [
  | inl hit ↦ rw hit
  | inr miss ↦ rw miss
]

pub move_to_map2-IsFiled :
    (list : List Name) (dnl : Dnl)
    → IsWell dnl.map2
    → IsFiled dnl (exists_in_list list) (move_to_map2 list dnl)
unfolding move_to_map2 exists_in_list
move_to_map2-IsFiled [] dnl w =
    (refl, refl, w, λ hashv text. sym (or_else-none (exists_in_second dnl.map2 hashv text)))
move_to_map2-IsFiled (cur ∷ list) dnl w =
    let fewer : Dnl = record dnl { map1 = record (dnl.map1) { nitems = dnl.map1.nitems - 1 } } in
    let (b, l, w', added) = add_to_map2-IsFiled fewer.map1 fewer.map2 cur w in
    let (b', l', w'', moved) = move_to_map2-IsFiled list (add_to_map2 fewer cur) w' in
    (
      b' ∙ b,
      l' ∙ l,
      w'',
      λ hashv text.
          moved hashv text
          ∙ ap (λ o. or_else o (exists_in_list list hashv text)) (added hashv text)
          ∙ or_else_assoc (exists_in_second dnl.map2 hashv text) (offer cur hashv text)
              (exists_in_list list hashv text)
          ∙ ap (or_else (exists_in_second dnl.map2 hashv text))
              (or_else-exists_in_list cur list hashv text),
    )
