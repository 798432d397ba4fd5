-- ===== src/Dnl.antt =====
-- src/dnl.c: the domain lists. Here the check of a name that is read (`check_name`), which
-- notes the levels in use. A name is its bytes without the terminator.
pub mod Accepted
pub mod Table
pub mod Memory
pub mod Suffix
pub mod Init
pub mod Load
use Prim.Native.Nat.{bit_or}
use chinadns_ng.Prelude.{
  ℕ, zero, suc, ◌+◌, ◌-◌, ◌^◌, Bool, ◌||◌, Option, none, some, ltb, ◌==◌, if◌then◌else◌, length,
  drop, max,
}
use chinadns_ng.Prelude.Words.{Bytes, byte}
use chinadns_ng.Dns.Header.{label_maxlen}

abbrev pub max_name_level : ℕ
max_name_level = 8

-- `s_level_interest`, a u8, and `s_level_max`.
pub record Levels : Type 0 where
  pub level_interest : ℕ
  pub level_max : ℕ

-- The loop of `check_name`, which counts `i` down; the first argument after the name is `i + 1`.
-- The result is the name, truncated if needed, and its level.
unfoldable pub check_loop : Bytes → ℕ → ℕ → ℕ → Option (Bytes × ℕ)
check_loop name zero label_len level = some (name, level)
check_loop name (suc i) label_len level =
    let c = byte name i in
    let behind_dot = check_loop name i 0 (level + 1) in
    let behind_char = check_loop name i (label_len + 1) level in
    if c == b'.'
    then (if ltb label_len 1
        then none
        else if ltb max_name_level (level + 1)
        then some (drop (suc i) name, level)
        else behind_dot)
    else if ltb label_maxlen (label_len + 1)
    then none
    else behind_char

unfoldable pub note_level : Levels → ℕ → Levels
note_level levels level = record {
  level_interest = bit_or levels.level_interest (2 ^ (level - 1));
  level_max = if ltb levels.level_max level then level else levels.level_max;
}

-- The guard in front of the loop.
unfoldable pub is_refused : Bytes → Bool
is_refused name =
    ltb (length name) 1
    || (byte name 0 == b'.')
    || (byte name 0 == b'#')
    || (byte name (length name - 1) == b'.')

unfoldable pub check_name : Levels → Bytes → Option Bytes × Levels
check_name levels name =
    if is_refused name then (none, levels) else (elim (check_loop name (length name) 0 1) [
      | none ↦ (none, levels)
      | some (kept, level) ↦ (some kept, note_level levels level)
    ])
