-- ===== src/Dnl/Table.antt =====
-- src/dnl.c: the two-level hash table of names, and the lookup of a name's tag. A name's address is
-- the name itself, the list that starts in a bucket is the list of its names from the head, and the
-- memory behind them has no bound here. `calc_hashv`, a macro of src/uthash.h, is a parameter.
pub mod Chain
pub mod Rehash
pub mod Resize
pub mod Grow
pub mod Store
pub mod Lookup
pub mod Added
pub mod Extend
use chinadns_ng.Prelude.{
  take, ℕ, zero, suc, ◌+◌, ◌-◌, ◌*◌, ◌/◌, ◌%◌, ◌^◌, Bool, true, false, ◌&&◌, ◌||◌, Option, none,
  some, List, [], ◌∷◌, ◌++◌, ltb, ◌==◌, if◌then◌else◌, length, get_or, set, replicate, equal,
}
use chinadns_ng.Prelude.Words.{Bytes}

-- `struct name`, less its link.
pub record Name : Type 0 where
  pub text : Bytes
  pub tag : ℕ
  pub hashv : ℕ

abbrev pub default_lcap : ℕ
default_lcap = 4

abbrev pub max_collision : ℕ
max_collision = 4

-- A bucket of the L1 map.
pub data Bucket : Type 0 where
  free : Bucket
  head : List Name → Bucket
  next_level : Bucket

-- `s_map1`; its shift is 0.
pub record FirstMap : Type 0 where
  pub buckets : List Bucket
  pub lcap : ℕ
  pub nlists : ℕ
  pub nitems : ℕ

-- `s_map2`: a bucket is never BUCKET_NEXT, and one that is free is the empty list.
pub record SecondMap : Type 0 where
  pub buckets : List (List Name)
  pub lcap : ℕ
  pub nlists : ℕ
  pub nitems : ℕ
  pub shift : ℕ

-- Both maps; `none` is a null map.
pub record Dnl : Type 0 where
  pub map1 : FirstMap
  pub map2 : Option SecondMap

abbrev pub name_eq_r : Name → ℕ → Bytes → Bool
name_eq_r p hashv text = (p.hashv == hashv) && equal p.text text

-- `2 ^ n` reaches the number of names; the fuel is that number.
unfoldable pub calc_lcap_loop : ℕ → ℕ → ℕ → ℕ → ℕ
calc_lcap_loop zero n cap lcap = lcap
calc_lcap_loop (suc fuel) n cap lcap =
    let more = calc_lcap_loop fuel n (cap * 2) (lcap + 1) in if ltb cap n then more else lcap

unfoldable pub calc_lcap : ℕ → ℕ
calc_lcap n = calc_lcap_loop n n 1 0

abbrev pub map_idx : ℕ → ℕ → ℕ → ℕ
map_idx lcap shift hashv = hashv / 2 ^ shift % 2 ^ lcap

abbrev pub map_maxload : ℕ → ℕ
map_maxload lcap = 2 ^ lcap * 3 / 4

-- `return_if_exists`
unfoldable pub is_in_list : List Name → Name → Bool
is_in_list [] name = false
is_in_list (p ∷ list) name =
    let rest = is_in_list list name in name_eq_r p name.hashv name.text || rest

-- `store_as_head` or `store_as_body` in a bucket of the L2 map, with the count of lists.
unfoldable pub store_in_second : SecondMap → ℕ → Name → SecondMap
store_in_second map idx name =
    let list = get_or map.buckets idx [] in
    record map {
      buckets = set map.buckets idx (name ∷ list);
      nlists = if length list == 0 then map.nlists + 1 else map.nlists;
    }

-- One list of part 1 in `resize_map2`: the names that stay, and the map with the others moved.
unfoldable pub resize_list : SecondMap → ℕ → List Name → List Name × SecondMap
resize_list map idx [] = ([], map)
resize_list map idx (cur ∷ list) =
    let newidx = map_idx map.lcap map.shift cur.hashv in
    elim (newidx == idx) [
      | true ↦ let (stay, moved) = resize_list map idx list in (cur ∷ stay, moved)
      | false ↦ resize_list (store_in_second map newidx cur) idx list
    ]

-- The bucket at `idx` behind its list; a list of which nothing stays is gone.
unfoldable pub resize_bucket : SecondMap → ℕ → SecondMap
resize_bucket map idx =
    let list = get_or map.buckets idx [] in
    let (stay, moved) = resize_list map idx list in
    if length list == 0 then map else record moved {
      buckets = set moved.buckets idx stay;
      nlists = if length stay == 0 then moved.nlists - 1 else moved.nlists;
    }

unfoldable pub resize_buckets : ℕ → ℕ → SecondMap → SecondMap
resize_buckets zero idx map = map
resize_buckets (suc left) idx map = resize_buckets left (idx + 1) (resize_bucket map idx)

-- `none` is the result false.
unfoldable pub resize_map2 : SecondMap → Option SecondMap
resize_map2 map =
    let n = 2 ^ map.lcap in
    let grown = record map { buckets = map.buckets ++ replicate n []; lcap = map.lcap + 1 } in
    if ltb map.nitems (map_maxload map.lcap) then none else some (resize_buckets n 0 grown)

-- From the label `redo` on. The fuel bounds the rounds: the load limit doubles in each.
unfoldable pub redo : ℕ → SecondMap → Name → SecondMap
redo zero map name = map
redo (suc fuel) map name =
    let idx = map_idx map.lcap map.shift name.hashv in
    let stored = record (store_in_second map idx name) { nitems = map.nitems + 1 } in
    if is_in_list (get_or map.buckets idx []) name
    then map
    else (elim (resize_map2 map) [ none ↦ stored | some resized ↦ redo fuel resized name ])

unfoldable pub new_map2 : ℕ → SecondMap
new_map2 shift = record {
  buckets = replicate (2 ^ default_lcap) [];
  lcap = default_lcap;
  nlists = 0;
  nitems = 0;
  shift = shift;
}

unfoldable pub add_to_map2 : Dnl → Name → Dnl
add_to_map2 dnl name =
    let map : SecondMap = elim dnl.map2 [ none ↦ new_map2 dnl.map1.lcap | some map2 ↦ map2 ] in
    record dnl { map2 = some (redo (map.nitems + 2) map name) }

-- The loop over a list that moves to the L2 map.
unfoldable pub move_to_map2 : List Name → Dnl → Dnl
move_to_map2 [] dnl = dnl
move_to_map2 (cur ∷ list) dnl =
    let fewer = record dnl { map1 = record (dnl.map1) { nitems = dnl.map1.nitems - 1 } } in
    move_to_map2 list (add_to_map2 fewer cur)

-- Behind the load of the bucket at `idx`.
unfoldable pub add_at : Dnl → ℕ → Name → Bucket → Dnl
add_at dnl idx name free = record dnl {
  map1 = record (dnl.map1) {
    buckets = set dnl.map1.buckets idx (head (name ∷ []));
    nitems = dnl.map1.nitems + 1;
    nlists = dnl.map1.nlists + 1;
  };
}
add_at dnl idx name (head list) =
    let map = dnl.map1 in
    let longer = record map {
      buckets = set map.buckets idx (head (name ∷ list));
      nitems = map.nitems + 1;
    } in
    let moving = record map { buckets = set map.buckets idx next_level; nlists = map.nlists - 1 } in
    if is_in_list list name
    then dnl
    else if ltb (length list) max_collision
    then record dnl { map1 = longer }
    else add_to_map2 (move_to_map2 list (record dnl { map1 = moving })) name
add_at dnl idx name next_level = add_to_map2 dnl name

unfoldable pub add_to_dnl : Dnl → Name → Dnl
add_to_dnl dnl name =
    let idx = map_idx dnl.map1.lcap 0 name.hashv in
    add_at dnl idx name (get_or dnl.map1.buckets idx free)

-- `dnl_nitems`
abbrev pub dnl_nitems : Dnl → ℕ
dnl_nitems dnl = dnl.map1.nitems + (elim dnl.map2 [ none ↦ 0 | some map2 ↦ map2.nitems ])

unfoldable pub add_names : List Name → Dnl → Dnl
add_names [] dnl = dnl
add_names (name ∷ names) dnl = add_names names (add_to_dnl dnl name)

-- The number of names that were new, and the maps.
unfoldable pub add_list : List Name → Dnl → ℕ × Dnl
add_list names dnl = let added = add_names names dnl in (dnl_nitems added - dnl_nitems dnl, added)

-- The tag of the first name of the list that is equal.
unfoldable pub exists_in_list : List Name → ℕ → Bytes → Option ℕ
exists_in_list [] hashv text = none
exists_in_list (p ∷ list) hashv text =
    let rest = exists_in_list list hashv text in if name_eq_r p hashv text then some p.tag else rest

abbrev pub exists_in_second : Option SecondMap → ℕ → Bytes → Option ℕ
exists_in_second none hashv text = none
exists_in_second (some map) hashv text =
    exists_in_list (get_or map.buckets (map_idx map.lcap map.shift hashv) []) hashv text

module _ (calc_hashv : Bytes → ℕ) where
  -- The length of a name is a u8.
  unfoldable pub add_name : Bytes → ℕ → Name
  add_name name tag =
      let text = take (length name % 256) name in
      record { text = text; tag = tag % 8; hashv = calc_hashv text }

  unfoldable pub exists_in_dnl : Dnl → Bytes → Option ℕ
  exists_in_dnl dnl text =
      let hashv = calc_hashv text in
      elim (get_or dnl.map1.buckets (map_idx dnl.map1.lcap 0 hashv) free) [
        | free ↦ none
        | head list ↦ exists_in_list list hashv text
        | next_level ↦ exists_in_second dnl.map2 hashv text
      ]
