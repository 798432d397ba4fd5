-- ===== src/Dnl/Memory.antt =====
-- src/dnl.c: the memory behind the names. `alloc` takes room from an area of pages that grows, a name
-- is known by its address, and `add_list` goes from one name to the next by their sizes. The content
-- of the memory is the list of the names written, the last one first, each with its address.
pub mod Walk
use chinadns_ng.Prelude.{
  ℕ, zero, suc, ◌+◌, ◌-◌, ◌%◌, ◌^◌, Bool, Option, none, some, ◌>>=◌, List, [], ◌∷◌, ltb, ◌==◌,
  if◌then◌else◌, length,
}
use chinadns_ng.Prelude.Words.{Bytes}
use chinadns_ng.Dnl.Table.{Name, add_name}

-- `s_cap`, `s_end` and the names.
pub record Memory : Type 0 where
  pub cap : ℕ
  pub end : ℕ
  pub cells : List (ℕ × Name)

-- A u32.
unfoldable pub align_to : ℕ → ℕ → ℕ
align_to sz align = let n = sz % align in if n == 0 then sz else (sz + (align - n)) % 2 ^ 32

-- `sizeof(struct name)`, which is packed.
abbrev pub name_structsize : ℕ
name_structsize = 9

abbrev pub name_align : ℕ
name_align = 1

-- The size of a page, and whether `mmap` or `mremap` gives an area of a size.
pub record Pages : Type 0 where
  pub size : ℕ
  pub maps : ℕ → Bool

-- `none` is the exit of a failed mapping.
unfoldable pub alloc : Pages → ℕ → ℕ → Memory → Option (ℕ × Memory)
alloc pages sz align memory =
    let end = (align_to memory.end align + sz) % 2 ^ 32 in
    let address = (end + 2 ^ 32 - sz) % 2 ^ 32 in
    let cap = align_to end pages.size in
    if ltb memory.cap end
    then (if pages.maps cap then some (address, record memory { cap = cap; end = end }) else none)
    else some (address, record memory { end = end })

-- What `add_list` finds at an address.
unfoldable pub name_at : List (ℕ × Name) → ℕ → Option Name
name_at [] address = none
name_at ((a, name) ∷ cells) address =
    let rest = name_at cells address in if a == address then some name else rest

abbrev pub get_namesz : Name → ℕ
get_namesz name = name_structsize + length name.text

-- The loop of `add_list`, as the names that it adds; `none` is an address at which no name is.
unfoldable pub names_from : List (ℕ × Name) → ℕ → ℕ → Option (List Name)
names_from cells zero address = some []
names_from cells (suc count) address = name_at cells address >>= λ name.
    names_from cells count ((address + get_namesz name) % 2 ^ 32) >>= λ names. some (name ∷ names)

module _ (calc_hashv : Bytes → ℕ) (pages : Pages) where
  -- `add_name` with its memory.
  unfoldable pub write_name : ℕ → Bytes → Memory → Option (ℕ × Memory)
  write_name tag name memory =
      let p = add_name calc_hashv name tag in
      alloc pages (get_namesz p) name_align memory >>= λ (address, next).
      some (address, record next { cells = (address, p) ∷ next.cells })

  -- The names that `load_list` adds: the address of the first one, and their number.
  unfoldable pub write_names : ℕ → List Bytes → ℕ → ℕ → Memory → Option (ℕ × ℕ × Memory)
  write_names tag [] addr0 count memory = some (addr0, count, memory)
  write_names tag (name ∷ names) addr0 count memory =
      write_name tag name memory >>= λ (address, next).
      write_names tag names (if count == 0 then address else addr0) (count + 1) next
