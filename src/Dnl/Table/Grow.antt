-- ===== src/Dnl/Table/Grow.antt =====
-- `resize_map2` of src/dnl.c as a whole.
use mathlib.Core.Path.{ap₂}
use mathlib.Core.Option.{some-injective}
use mathlib.Core.Path.{fun_ext}
use native.Mathlib.Nat.{mod-lt, one-le-pow, pow-le-pow_right}
use native.Mathlib.Numerals.{towards_suc}
use chinadns_ng.Prelude.{
  ◌++◌, replicate, length-append, ◌*◌, ◌/◌, ◌≤◌, ◌^◌, ltb, lt→ltb, le→ltb, tests, ℕ, zero, suc, ◌+◌,
  ◌<◌, ◌≡◌, refl, sym, ap, ◌∙◌, Option, some, List, [], ◌∷◌, arith, ◌==◌, if◌then◌else◌, Bool-cases,
  inl, inr, none_ne, length, get_or, subst,
}
use chinadns_ng.Prelude.Words.{Bytes}
use chinadns_ng.Dnl.Table.{
  Name, SecondMap, exists_in_list, map_idx, resize_bucket, resize_buckets, resize_map2, map_maxload,
}
use chinadns_ng.Dnl.Table.Rehash.{bucket_at, idx_of, IsBucket, SameShape, SameShape-trans}
use chinadns_ng.Dnl.Table.Resize.{IsPlaced, SameLookup, IsStep, resize_bucket-IsPlaced}

pow_suc : (lcap : ℕ) → 2 ^ (lcap + 1) ≡ 2 * 2 ^ lcap
pow_suc lcap = simp towards_suc (omega arith)

pub pow_positive : (n : ℕ) → 0 < 2 ^ n
pow_positive n = one-le-pow n 2 (omega arith)

pub map_idx-lt : (lcap shift hashv : ℕ) → map_idx lcap shift hashv < 2 ^ lcap
map_idx-lt lcap shift hashv = mod-lt (hashv / 2 ^ shift) (pow_positive lcap)

-- Where the names stand when the first `k` of the old buckets are done.
abbrev place_at : ℕ → ℕ → ℕ → ℕ → ℕ
place_at lcap shift k hashv =
    if ltb (map_idx lcap shift hashv) k
    then map_idx (lcap + 1) shift hashv
    else map_idx lcap shift hashv

-- A map of capacity `2 ^ (lcap + 1)`.
abbrev IsGrown : ℕ → ℕ → SecondMap → Type 0
IsGrown lcap shift map =
    (map.lcap ≡ lcap + 1) × (map.shift ≡ shift) × (length map.buckets ≡ 2 ^ (lcap + 1))

place_at-IsStep :
    (lcap shift k : ℕ) (map : SecondMap)
    → IsGrown lcap shift map
    → IsStep (place_at lcap shift k) (place_at lcap shift (k + 1)) k map
place_at-IsStep lcap shift k map (l, s, size) hashv =
    let o : ℕ = map_idx lcap shift hashv in
    let j : ℕ = map_idx (lcap + 1) shift hashv in
    let same : j ≡ idx_of map hashv = ap₂ (λ a b. map_idx a b hashv) (sym l) (sym s) in
    let lt : j < length map.buckets = omega (arith, map_idx-lt (lcap + 1) shift hashv, size) in
    elim (Bool-cases (ltb o k)) [
      | inl done ↦ elim (Bool-cases (j == k)) [
        | inl e ↦ rw (done, lt→ltb o (k + 1) (omega (tests, done))) (inr (ground arith, same, lt))
        | inr e ↦ rw (done, lt→ltb o (k + 1) (omega (tests, done))) (inl (ground arith, refl))
      ]
      | inr todo ↦ elim (Bool-cases (o == k)) [
        | inl e ↦ rw (todo, lt→ltb o (k + 1) (ground arith)) (inr (ground arith, same, lt))
        | inr e ↦ rw (todo, le→ltb o (k + 1) (ground arith)) (inl (ground arith, refl))
      ]
    ]

resize_buckets-IsPlaced :
    (lcap shift left k : ℕ) (map : SecondMap)
    → IsGrown lcap shift map
    → k + left ≤ 2 ^ lcap
    → IsPlaced (place_at lcap shift k) map
    → let r = resize_buckets left k map in
      SameShape map r
      × IsPlaced (place_at lcap shift (k + left)) r
      × SameLookup (place_at lcap shift k) map (place_at lcap shift (k + left)) r
unfolding resize_buckets
resize_buckets-IsPlaced lcap shift zero k map grown le placed =
    let e : k + 0 ≡ k = omega arith in rw e ((refl, refl, refl, refl), placed, λ hashv text. refl)
resize_buckets-IsPlaced lcap shift (suc left) k map (l, s, size) le placed =
    let e : k + suc left ≡ (k + 1) + left = omega arith in
    let ((l', s', n', size'), placed', same) =
      resize_bucket-IsPlaced (place_at lcap shift k) (place_at lcap shift (k + 1)) k map placed
        (place_at-IsStep lcap shift k map (l, s, size)) (omega (arith, pow_suc lcap, le, size)) in
    let (shape, placed'', same') =
      resize_buckets-IsPlaced lcap shift left (k + 1) (resize_bucket map k)
        (l' ∙ l, s' ∙ s, size' ∙ size) (omega arith) placed' in
    rw e (
      SameShape-trans map (resize_bucket map k) (resize_buckets left (k + 1) (resize_bucket map k))
          (l', s', n', size') shape,
      placed'',
      λ hashv text. same' hashv text ∙ same hashv text,
    )

-- A well-formed L2 map: as many buckets as it says, every name where its hash belongs and once, and
-- no more names than the load limit allows.
pub record IsSecond (map : SecondMap) : Type 0 where
  pub size : length map.buckets ≡ 2 ^ map.lcap
  pub placed : IsPlaced (idx_of map) map
  pub load : map.nitems ≤ map_maxload map.lcap
  pub capacity : 4 ≤ map.lcap

-- The tag of a key in the L2 map.
abbrev pub find_in_second : SecondMap → ℕ → Bytes → Option ℕ
find_in_second map hashv text = exists_in_list (bucket_at map (idx_of map hashv)) hashv text

abbrev grown : SecondMap → SecondMap
grown map = record map { buckets = map.buckets ++ replicate (2 ^ map.lcap) []; lcap = map.lcap + 1 }

pub get_or-replicate : (n i : ℕ) → get_or {A = List Name} (replicate n []) i [] ≡ []
get_or-replicate zero i = refl
get_or-replicate (suc n) zero = refl
get_or-replicate (suc n) (suc i) = get_or-replicate n i

-- The buckets that are added are empty.
bucket_at-grown :
    (buckets : List (List Name)) (n i : ℕ)
    → get_or (buckets ++ replicate n []) i [] ≡ get_or buckets i []
bucket_at-grown [] n i = get_or-replicate n i
bucket_at-grown (list ∷ buckets) n zero = refl
bucket_at-grown (list ∷ buckets) n (suc i) = bucket_at-grown buckets n i

-- Before the first bucket, and behind the last one.
place_at-first : (lcap shift hashv : ℕ) → place_at lcap shift 0 hashv ≡ map_idx lcap shift hashv
place_at-first lcap shift hashv = rw (le→ltb (map_idx lcap shift hashv) 0 (omega arith))

place_at-last :
    (lcap shift hashv : ℕ)
    → place_at lcap shift (0 + 2 ^ lcap) hashv ≡ map_idx (lcap + 1) shift hashv
place_at-last lcap shift hashv =
    rw (
      lt→ltb (map_idx lcap shift hashv) (0 + 2 ^ lcap) (omega (arith, map_idx-lt lcap shift hashv)))

-- What `resize_map2` makes of a map.
abbrev pub IsResized : SecondMap → SecondMap → Type 0
IsResized map map' =
    IsSecond map'
    × (map'.nitems < map_maxload map'.lcap)
    × (map'.nitems ≡ map.nitems)
    × (map'.shift ≡ map.shift)
    × ((hashv : ℕ) (text : Bytes) → find_in_second map' hashv text ≡ find_in_second map hashv text)

pub length-replicate : (n : ℕ) → length {A = List Name} (replicate n []) ≡ n
length-replicate zero = refl
length-replicate (suc n) = ap suc (length-replicate n)

length-grown :
    (map : SecondMap)
    → length map.buckets ≡ 2 ^ map.lcap
    → length (grown map).buckets ≡ 2 ^ (map.lcap + 1)
length-grown map size = omega (
  arith,
  length-append map.buckets (replicate (2 ^ map.lcap) []),
  length-replicate (2 ^ map.lcap),
  pow_suc map.lcap,
  size,
)

grown-IsPlaced :
    (map : SecondMap)
    → IsPlaced (idx_of map) map
    → IsPlaced (place_at map.lcap map.shift 0) (grown map)
grown-IsPlaced map placed i =
    let e : place_at map.lcap map.shift 0 ≡ idx_of map =
      fun_ext (place_at-first map.lcap map.shift) in
    subst (λ place. IsBucket place i (bucket_at (grown map) i)) (sym e)
      (subst (IsBucket (idx_of map) i) (sym (bucket_at-grown map.buckets (2 ^ map.lcap) i))
        (placed i))

sixteen : (lcap : ℕ) → 4 ≤ lcap → 16 ≤ 2 ^ lcap
sixteen lcap le = pow-le-pow_right {n = 2} (omega arith) le

maxload_twice :
    (lcap nitems : ℕ) → 4 ≤ lcap → nitems ≤ map_maxload lcap → nitems < map_maxload (lcap + 1)
maxload_twice lcap nitems capacity load = omega (arith, pow_suc lcap, sixteen lcap capacity, load)

-- Where the load limit is reached, `resize_map2` doubles the buckets and every key is found as before.
pub resize_map2-IsSecond :
    (map : SecondMap) {map' : SecondMap}
    → IsSecond map
    → resize_map2 map ≡ some map'
    → IsResized map map'
unfolding resize_map2
resize_map2-IsSecond map {map'} w h = elim (Bool-cases (ltb map.nitems (map_maxload map.lcap))) [
  | inl below ↦ absurd (none_ne (rw below at h))
  | inr full ↦
      let n : ℕ = 2 ^ map.lcap in
      let r : SecondMap = resize_buckets n 0 (grown map) in
      let ((l, s, items, size'), placed, same) =
        resize_buckets-IsPlaced map.lcap map.shift n 0 (grown map)
          (refl, refl, length-grown map w.size) (omega arith) (grown-IsPlaced map w.placed) in
      let place_r : place_at map.lcap map.shift (0 + n) ≡ idx_of r = fun_ext (λ hashv.
        place_at-last map.lcap map.shift hashv ∙ ap₂ (λ a b. map_idx a b hashv) (sym l) (sym s)) in
      let room : r.nitems < map_maxload r.lcap =
        rw (l, items) (maxload_twice map.lcap map.nitems w.capacity w.load) in
      subst (IsResized map) (some-injective r map' (rw full at h)) (
        (record {
          size = size' ∙ length-grown map w.size ∙ ap (λ k. 2 ^ k) (sym l);
          placed = subst (λ place. IsPlaced place r) place_r placed;
          load = omega (arith, room);
          capacity = omega (arith, l, w.capacity);
        }),
        room,
        items,
        s,
        λ hashv text.
            ap (λ place. exists_in_list (bucket_at r (place hashv)) hashv text) (sym place_r)
            ∙ same hashv text
            ∙ ap (λ j. exists_in_list (bucket_at (grown map) j) hashv text)
                (place_at-first map.lcap map.shift hashv)
            ∙ ap (λ b. exists_in_list b hashv text)
                (bucket_at-grown map.buckets n (idx_of map hashv)),
      )
]
