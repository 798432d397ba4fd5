-- ===== src/Dnl/Load.antt =====
-- src/dnl.c: `load_list` and the first loop of `dnl_init`, which read the names of each tag from its
-- files; src/dnl.zig: `readToken` and `dnl_load_list_gz`, which do so for a file that ends in ".gz".
-- The file system, the scanner of the C library and the gzip stream are a record of parameters.
pub mod Noted
pub mod Scanned
pub mod Checked
pub mod Listed
pub mod Tagged
use chinadns_ng.Prelude.{
  ℕ, zero, suc, ◌+◌, ◌-◌, Bool, true, false, ◌&&◌, Option, none, some, List, [], ◌∷◌, ◌++◌, ltb,
  leb, ◌==◌, if◌then◌else◌, length, drop, equal,
}
use chinadns_ng.Prelude.Words.{Bytes, c_string}
use chinadns_ng.Dns.Header.{name_maxlen}
use chinadns_ng.Dnl.{Levels, check_name}

-- What is outside: `scan` opens a file and reads its words of at most 253 bytes with `fscanf`;
-- `gunzip` gives the bytes of a gzip stream, and whether it ends in a read error; `is_whitespace` is
-- `std.ascii.isWhitespace`. `none` is a file that cannot be opened.
pub record Files : Type 0 where
  pub scan : Bytes → Option (List Bytes)
  pub gunzip : Bytes → Option (Bytes × Bool)
  pub is_whitespace : ℕ → Bool

-- What reading changes: the levels in use, and the words that stdin still has.
pub record Input : Type 0 where
  pub levels : Levels
  pub stdin : List Bytes

abbrev pub initial_levels : Levels
initial_levels = record { level_interest = 0; level_max = 0 }

abbrev pub initial_input : List Bytes → Input
initial_input stdin = record { levels = initial_levels; stdin = stdin }

-- The loop over the words: the names that are added, and the levels.
unfoldable pub load_words : List Bytes → Levels → List Bytes × Levels
load_words [] levels = ([], levels)
load_words (word ∷ words) levels =
    let (name, noted) = check_name levels (c_string word) in
    let (names, levels') = load_words words noted in
    ((elim name [ none ↦ names | some kept ↦ kept ∷ names ]), levels')

-- The token that ends, in front of the ones behind it; a token that is too long is dropped.
unfoldable pub end_token : Option Bytes → List Bytes → List Bytes
end_token none tokens = tokens
end_token (some []) tokens = tokens
end_token (some (b ∷ token)) tokens = (b ∷ token) ∷ tokens

-- The calls of `readToken` on a stream, without the tokens that are too long. The token under way is
-- `none` once it is; a read error drops it.
unfoldable pub read_tokens : (ℕ → Bool) → Bool → Option Bytes → Bytes → List Bytes
read_tokens is_whitespace failed token [] = if failed then [] else end_token token []
read_tokens is_whitespace failed none (b ∷ stream) =
    let next = read_tokens is_whitespace failed (some []) stream in
    let consume = read_tokens is_whitespace failed none stream in
    if is_whitespace b then next else consume
read_tokens is_whitespace failed (some token) (b ∷ stream) =
    let next = read_tokens is_whitespace failed (some []) stream in
    let longer = read_tokens is_whitespace failed (some (token ++ b ∷ [])) stream in
    let consume = read_tokens is_whitespace failed none stream in
    if is_whitespace b
    then end_token (some token) next
    else if ltb (length token) name_maxlen
    then longer
    else consume

-- `none` is the result false.
unfoldable pub dnl_load_list_gz : Files → Bytes → Levels → Option (List Bytes × Levels)
dnl_load_list_gz files fname levels = elim (files.gunzip fname) [
  | none ↦ none
  | some (stream, failed) ↦
      some (load_words (read_tokens files.is_whitespace failed (some []) stream) levels)
]

unfoldable pub has_gz_suffix : Bytes → Bool
has_gz_suffix fname =
    leb 3 (length fname) && equal (drop (length fname - 3) fname) (b'.' ∷ b'g' ∷ b'z' ∷ [])

abbrev with_levels : Input → List Bytes × Levels → List Bytes × Input
with_levels input (names, levels) = (names, record input { levels = levels })

-- One round of the loop over the file names. Stdin has nothing more behind its reading.
unfoldable pub load_file : Files → Bytes → Input → List Bytes × Input
load_file files fname input =
    let (names, levels) = load_words input.stdin input.levels in
    if equal fname (b'-' ∷ [])
    then (names, record { levels = levels; stdin = [] })
    else if has_gz_suffix fname
    then (elim (dnl_load_list_gz files fname input.levels) [
      | none ↦ ([], input)
      | some loaded ↦ with_levels input loaded
    ])
    else (elim (files.scan fname) [
      | none ↦ ([], input)
      | some words ↦ with_levels input (load_words words input.levels)
    ])

unfoldable pub load_list : Files → List Bytes → Input → List Bytes × Input
load_list files [] input = ([], input)
load_list files (fname ∷ filenames) input =
    let (names, next) = load_file files fname input in
    let (more, last) = load_list files filenames next in (names ++ more, last)

-- The loop of `dnl_init` over the tags below `n`: the names of each. No file names are a null list.
unfoldable pub load_tags : Files → (ℕ → List Bytes) → ℕ → Input → (ℕ → List Bytes) × Input
load_tags files tag_to_filenames zero input = ((λ tag. []), input)
load_tags files tag_to_filenames (suc n) input =
    let (loaded, next) = load_tags files tag_to_filenames n input in
    let (names, last) = load_list files (tag_to_filenames n) next in
    ((λ tag. if tag == n then names else loaded tag), last)
