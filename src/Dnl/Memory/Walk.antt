-- ===== src/Dnl/Memory/Walk.antt =====
-- The names of src/dnl.c in memory: going from one to the next by their sizes finds all that were
-- written, in order.
use native.Mathlib.Nat.{mod-lt}
use chinadns_ng.Prelude.{
  ℕ, ◌+◌, ◌-◌, ◌%◌, ◌^◌, ◌≤◌, ◌<◌, ◌≡◌, refl, ap, ◌∙◌, true, some, List, [], ◌∷◌, map, arith, ltb,
  ◌==◌, if◌then◌else◌, length, Bool-cases, inl, inr, ==_ne, ==_refl, ltb→lt, ltb→le,
}
use chinadns_ng.Prelude.Words.{Bytes}
use chinadns_ng.Dnl.Table.{Name, add_name}
use chinadns_ng.Dnl.Memory.{
  Memory, align_to, name_align, Pages, alloc, name_at, get_namesz, names_from, write_name,
  write_names,
}

-- What was written below the end of the used range is found as before.
abbrev AreKept : Memory → Memory → Type 0
AreKept memory memory' =
    (address : ℕ) (name : Name)
    → address < memory.end
    → name_at memory.cells address ≡ some name
    → name_at memory'.cells address ≡ some name

-- Every mapping of some bytes works.
abbrev pub AreMapped : Pages → Type 0
AreMapped pages = (1 ≤ pages.size) × ((size : ℕ) → 1 ≤ size → pages.maps size ≡ true)

-- The used range lies in the area.
abbrev pub IsWithin : Memory → Type 0
IsWithin memory = memory.end ≤ memory.cap

align_to-name_align : (n : ℕ) → align_to n name_align ≡ n
unfolding align_to
align_to-name_align n = let whole : n % 1 ≡ 0 = omega arith in rw (whole) refl

align_to_bounds : (sz align : ℕ) → 1 ≤ align → sz + align < 2 ^ 32 → sz ≤ align_to sz align
unfolding align_to
align_to_bounds sz align some_align fits =
    let part : sz % align < align = mod-lt sz some_align in
    elim (Bool-cases (sz % align == 0)) [
      | inl whole ↦ rw whole (omega arith)
      | inr more ↦ rw more (omega (arith, part, fits))
    ]

alloc-end :
    (pages : Pages) (sz : ℕ) (memory : Memory)
    → AreMapped pages
    → memory.end + sz + pages.size < 2 ^ 32
    → (cap : ℕ) × (alloc pages sz name_align memory
        ≡ some (memory.end, record memory { cap = cap; end = memory.end + sz }))
      × (memory.end + sz ≤ cap)
unfolding alloc
alloc-end pages sz memory (some_size, mapped) fits =
    let cap : ℕ = align_to (memory.end + sz) pages.size in
    let end : (align_to memory.end name_align + sz) % 2 ^ 32 ≡ memory.end + sz =
      omega (arith, align_to-name_align memory.end, fits) in
    let start : (memory.end + sz + 2 ^ 32 - sz) % 2 ^ 32 ≡ memory.end = omega (arith, fits) in
    elim (Bool-cases (ltb memory.cap (memory.end + sz))) [
      | inl grow ↦
          let covers : memory.end + sz ≤ cap =
            align_to_bounds (memory.end + sz) pages.size some_size fits in
          let lt : memory.cap < memory.end + sz = ltb→lt memory.cap (memory.end + sz) grow in
          (cap, rw (alloc, end, start, grow, mapped cap (omega (arith, lt, covers))) refl, covers)
      | inr room ↦
          (memory.cap, rw (alloc, end, start, room) refl, ltb→le memory.cap (memory.end + sz) room)
    ]

module _ (calc_hashv : Bytes → ℕ) (pages : Pages) (tag : ℕ) where
  abbrev pub name_of : Bytes → Name
  name_of name = add_name calc_hashv name tag

  -- The room that names take.
  abbrev pub total_size : List Bytes → ℕ
  total_size [] = 0
  total_size (name ∷ names) = get_namesz (name_of name) + total_size names

  abbrev stored : Bytes → ℕ → Memory → Memory
  stored name cap memory = record {
    cap = cap;
    end = memory.end + get_namesz (name_of name);
    cells = (memory.end, name_of name) ∷ memory.cells;
  }

  write_name-stored :
      (name : Bytes) (memory : Memory)
      → AreMapped pages
      → memory.end + get_namesz (name_of name) + pages.size < 2 ^ 32
      → (cap : ℕ) × (write_name calc_hashv pages tag name memory
          ≡ some (memory.end, stored name cap memory))
        × IsWithin (stored name cap memory)
  unfolding write_name
  write_name-stored name memory mapped fits =
      let (cap, e, within) = alloc-end pages (get_namesz (name_of name)) memory mapped fits in
      (cap, rw (write_name, e) refl, within)

  stored-AreKept :
      (name : Bytes) (cap : ℕ) (memory : Memory) → AreKept memory (stored name cap memory)
  unfolding name_at
  stored-AreKept name cap memory address p below h =
      rw (==_ne memory.end address (omega (arith, below))) h

  name_at-stored :
      (name : Bytes) (cap : ℕ) (memory : Memory)
      → name_at (stored name cap memory).cells memory.end ≡ some (name_of name)
  unfolding name_at
  name_at-stored name cap memory = rw (==_refl memory.end) refl

  abbrev first_address : List Bytes → ℕ → ℕ → ℕ → ℕ
  first_address [] addr0 count end = addr0
  first_address (name ∷ names) addr0 count end = if count == 0 then end else addr0

  first_address-suc :
      (names : List Bytes) (addr0 count end : ℕ) → first_address names addr0 (count + 1) end ≡ addr0
  first_address-suc [] addr0 count end = refl
  first_address-suc (name ∷ names) addr0 count end = rw (==_ne (count + 1) 0 (omega arith)) refl

  write_names_lem :
      (names : List Bytes) (addr0 count : ℕ) (memory : Memory)
      → AreMapped pages
      → IsWithin memory
      → memory.end + total_size names + pages.size < 2 ^ 32
      → (memory' : Memory) × (write_names calc_hashv pages tag names addr0 count memory
          ≡ some (first_address names addr0 count memory.end, count + length names, memory'))
        × IsWithin memory'
        × AreKept memory memory'
        × (names_from memory'.cells (length names) memory.end ≡ some (map name_of names))
  unfolding write_names names_from
  write_names_lem [] addr0 count memory mapped within fits = (
    memory,
    ap (λ n. some (addr0, n, memory)) (omega arith),
    within,
    (λ address p below h. h),
    refl,
  )
  write_names_lem (name ∷ names) addr0 count memory mapped within fits =
      let size : ℕ = get_namesz (name_of name) in
      let (cap, e, within1) = write_name-stored name memory mapped (omega (arith, fits)) in
      let next : Memory = stored name cap memory in
      let first : ℕ = first_address (name ∷ names) addr0 count memory.end in
      let (memory', e', within', kept, walk) =
        write_names_lem names first (count + 1) next mapped within1 (omega (arith, fits)) in
      let here : name_at memory'.cells memory.end ≡ some (name_of name) =
        kept memory.end (name_of name) (omega arith) (name_at-stored name cap memory) in
      let step : (memory.end + size) % 2 ^ 32 ≡ memory.end + size = omega (arith, fits) in
      let total : count + 1 + length names ≡ count + length (name ∷ names) = omega arith in
      (
        memory',
        rw (write_names, e)
            (e'
              ∙ ap (λ a. some (a, count + 1 + length names, memory'))
                  (first_address-suc names first count next.end)
              ∙ ap (λ n. some (first, n, memory')) total),
        within',
        (λ address p below h.
            kept address p (omega (arith, below))
              (stored-AreKept name cap memory address p below h)),
        rw (names_from, here, step, walk) refl,
      )

  -- The names of a tag, written behind what memory holds, where they and a page fit a u32 and every
  -- mapping works: the used range stays within the area, and from the address of the first one,
  -- `add_list` finds as many names as were written, the same ones in the same order.
  pub write_names-names_from :
      (name : Bytes) (names : List Bytes) (memory : Memory)
      → AreMapped pages
      → IsWithin memory
      → memory.end + total_size (name ∷ names) + pages.size < 2 ^ 32
      → (addr0 : ℕ) × (count : ℕ) × (memory' : Memory) × (write_names calc_hashv pages tag
            (name ∷ names)
            0
            0
            memory
          ≡ some (addr0, count, memory'))
        × IsWithin memory'
        × (count ≡ length (name ∷ names))
        × (names_from memory'.cells count addr0 ≡ some (map name_of (name ∷ names)))
  write_names-names_from name names memory mapped within fits =
      let (memory', e, within', kept, walk) =
        write_names_lem (name ∷ names) 0 0 memory mapped within fits in
      let count : 0 + length (name ∷ names) ≡ length (name ∷ names) = omega arith in
      (
        memory.end,
        length (name ∷ names),
        memory',
        e ∙ ap (λ n. some (memory.end, n, memory')) count,
        within',
        refl,
        walk,
      )
