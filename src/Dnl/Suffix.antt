-- ===== src/Dnl/Suffix.antt =====
-- src/dnl.c: `get_suffix` and `dnl_get_tag`. A suffix is its bytes, which hold its length.
pub mod Labels
use chinadns_ng.Prelude.{
  ℕ, zero, suc, ◌+◌, ◌-◌, ◌/◌, ◌%◌, ◌^◌, Bool, ◌||◌, Option, none, some, List, [], ◌∷◌, ltb, ◌==◌,
  if◌then◌else◌, length, drop,
}
use chinadns_ng.Prelude.Words.{Bytes, byte}
use chinadns_ng.Dnl.{Levels}
use chinadns_ng.Dnl.Table.{Dnl, exists_in_dnl}

-- `memrchr(name, c, n)`: the offset of the last `c` among the first `n` bytes.
unfoldable pub memrchr : Bytes → ℕ → ℕ → Option ℕ
memrchr name c zero = none
memrchr name c (suc i) = let rest = memrchr name c i in if byte name i == c then some i else rest

abbrev pub has_interest : Levels → ℕ → Bool
has_interest levels level = levels.level_interest / 2 ^ (level - 1) % 2 == 1

-- Behind the loop: the whole name.
abbrev pub whole_name : Levels → Bytes → ℕ → List Bytes
whole_name levels name level = if has_interest levels level then name ∷ [] else []

-- The loop; `dot` is the offset of the last dot found. The fuel is more than the levels.
unfoldable pub suffix_loop : ℕ → Levels → Bytes → ℕ → ℕ → List Bytes
suffix_loop zero levels name dot level = []
suffix_loop (suc fuel) levels name dot level =
    if ltb levels.level_max level
    then whole_name levels name level
    else (elim (memrchr name b'.' dot) [
      | none ↦ whole_name levels name level
      | some i ↦
          let rest = suffix_loop fuel levels name i (level + 1) in
          if has_interest levels level then drop (suc i) name ∷ rest else rest
    ])

unfoldable pub get_suffix : Levels → Bytes → List Bytes
get_suffix levels name = suffix_loop (levels.level_max + 1) levels name (length name) 1

-- The loop of `dnl_get_tag`, from the last suffix down.
unfoldable pub find_tag : (Bytes → Option ℕ) → List Bytes → Option ℕ
find_tag exists [] = none
find_tag exists (suffix ∷ suffixes) = elim (find_tag exists suffixes) [
  | none ↦ exists suffix
  | some tag ↦ some tag
]

-- `none` is a failed assertion: the list is null, or the length is 0 or does not fit a u8.
unfoldable pub dnl_get_tag : (Bytes → ℕ) → Option Dnl → Levels → Bytes → ℕ → Option ℕ
dnl_get_tag calc_hashv none levels name default_tag = none
dnl_get_tag calc_hashv (some dnl) levels name default_tag =
    if (length name == 0) || ltb 255 (length name)
    then none
    else (elim (find_tag (exists_in_dnl calc_hashv dnl) (get_suffix levels name)) [
      | none ↦ some default_tag
      | some tag ↦ some tag
    ])
