-- ===== src/CacheMgr.antt =====
-- tool/dns_cache_mgr.c: the tool that lists the entries of a cache file and removes those of some
-- domains. A file is its bytes; a header is its 24 bytes, little-endian, the last one padding. The
-- message buffer keeps what an earlier entry left. Printing is the list of what is printed.
pub mod Suffix
pub mod Entries
pub mod Delete
pub mod Listing
pub mod Arguments
use chinadns_ng.Prelude.{
  ℕ, zero, suc, ◌+◌, ◌-◌, ◌*◌, ◌%◌, ◌^◌, Bool, true, false, ◌&&◌, ◌||◌, Option, none, some, List,
  [], ◌∷◌, ◌++◌, ltb, leb, ◌==◌, if◌then◌else◌, length, take, drop, equal,
}
use chinadns_ng.Prelude.Words.{Bytes, byte, c_string}
use chinadns_ng.Prelude.Int.{ℤ, signed32}
use chinadns_ng.Dns.Header.{header_size, dns_get_qtype}
use chinadns_ng.Dns.Name.{dns_wire_to_ascii}

abbrev pub entry_header_size : ℕ
entry_header_size = 24

unfoldable pub update_time : Bytes → ℕ
update_time h =
    byte h 0
    + byte h 1 * 2 ^ 8
    + byte h 2 * 2 ^ 16
    + byte h 3 * 2 ^ 24
    + byte h 4 * 2 ^ 32
    + byte h 5 * 2 ^ 40
    + byte h 6 * 2 ^ 48
    + byte h 7 * 2 ^ 56

unfoldable pub ttl : Bytes → ℕ
ttl h = byte h 12 + byte h 13 * 2 ^ 8 + byte h 14 * 2 ^ 16 + byte h 15 * 2 ^ 24

unfoldable pub msg_len : Bytes → ℕ
msg_len h = byte h 20 + byte h 21 * 2 ^ 8

unfoldable pub qnamelen : Bytes → ℕ
qnamelen h = byte h 22

-- `ended` is the result false; `failed` ends the program with an error, by `printf_exit` or the
-- assertion of `dns_wire_to_ascii`; `entry` has the header, the buffer, the name up to its null byte
-- and the rest of the file.
pub data Next : Type 0 where
  ended failed : Next
  entry : Bytes → Bytes → Bytes → Bytes → Next

-- `next` behind the header, with a buffer `msg`, as both callers have one. `fread` of no bytes fails.
unfoldable pub read_entry : Bytes → Bytes → Bytes → Next
read_entry h rest msg =
    let msg' = take (msg_len h) rest ++ drop (msg_len h) msg in
    let decoded = dns_wire_to_ascii (take (qnamelen h) (drop header_size msg')) in
    if (msg_len h == 0) || ltb (length rest) (msg_len h) then failed else (elim decoded [
      | none ↦ failed
      | some none ↦ failed
      | some (some name) ↦ entry h msg' (c_string name) (drop (msg_len h) rest)
    ])

-- `next` on the rest of the file.
unfoldable pub next : Bytes → Bytes → Next
next file msg =
    let body = read_entry (take entry_header_size file) (drop entry_header_size file) msg in
    if ltb (length file) entry_header_size then ended else body

-- The condition on a suffix.
unfoldable pub has_suffix : Bytes → Bytes → Bool
has_suffix name suffix =
    let start = length name - length suffix in
    leb (length suffix) (length name)
    && equal (drop start name) suffix
    && ((length name == length suffix) || (byte name (start - 1) == b'.'))

-- The loop over the suffixes.
unfoldable pub is_removed : List Bytes → Bytes → Bool
is_removed [] name = false
is_removed (suffix ∷ suffixes) name =
    let rest = is_removed suffixes name in if has_suffix name suffix then true else rest

-- The loop of `delete`: the names printed, and the bytes written, in order. Each round reads a
-- header at least, so the length of the file and one more is enough fuel.
unfoldable pub delete_loop :
    ℕ → Bytes → Bytes → List Bytes → List Bytes → Bytes → Option (List Bytes × Bytes)
delete_loop zero file msg suffixes printed written = none
delete_loop (suc fuel) file msg suffixes printed written = elim (next file msg) [
  | ended ↦ some (printed, written)
  | failed ↦ none
  | entry h msg' name rest ↦
      let remove = delete_loop fuel rest msg' suffixes (printed ++ name ∷ []) written in
      let keep =
        delete_loop fuel rest msg' suffixes printed (written ++ h ++ take (msg_len h) msg') in
      if is_removed suffixes name then remove else keep
]

-- A line of the list. `ttl` is what is left of it at the time `now`, in 32 bits.
pub record Line : Type 0 where
  pub name : Bytes
  pub qtype : ℕ
  pub ttl_left : ℤ
  pub size : ℕ

-- (i32)(now - h->update_time), as its bit pattern; i64 values are their bit patterns.
abbrev pub age : ℕ → Bytes → ℕ
age now h = (now + 2 ^ 64 - update_time h) % 2 ^ 32

abbrev pub line : ℕ → Bytes → Bytes → Bytes → Line
line now h msg name = record {
  name = name;
  qtype = dns_get_qtype msg (qnamelen h);
  ttl_left = signed32 ((ttl h + 2 ^ 32 - age now h) % 2 ^ 32);
  size = msg_len h;
}

unfoldable pub list_loop : ℕ → ℕ → Bytes → Bytes → Option (List Line)
list_loop zero now file msg = none
list_loop (suc fuel) now file msg = elim (next file msg) [
  | ended ↦ some []
  | failed ↦ none
  | entry h msg' name rest ↦ elim (list_loop fuel now rest msg') [
    | none ↦ none
    | some lines ↦ some (line now h msg' name ∷ lines)
  ]
]

-- How a run ends: with an error, which leaves the file as it is; with the list printed; or with the
-- names printed and the file that takes its place. What is printed before an error is not kept.
pub data Outcome : Type 0 where
  exited : Outcome
  listed : List Line → Outcome
  removed : List Bytes → Bytes → Outcome

-- `list`; `msg` is what `malloc` gives.
unfoldable pub list : ℕ → Bytes → Bytes → Outcome
list now msg file = elim (list_loop (length file + 1) now file msg) [
  | none ↦ exited
  | some lines ↦ listed lines
]

-- `delete`; the first test is whether `mkstemp` works, the second one whether `rename` does. Its
-- writes are taken to be whole.
unfoldable pub delete : Bool → Bool → Bytes → List Bytes → Bytes → Outcome
delete has_temp renames msg suffixes file =
    let run = delete_loop (length file + 1) file msg suffixes [] [] in
    if has_temp
    then (elim run [
      | none ↦ exited
      | some (printed, written) ↦ if renames then removed printed written else exited
    ])
    else exited

-- What `main` reads from its arguments.
pub record Options : Type 0 where
  pub path : Bytes
  pub suffixes : List Bytes

abbrev pub max_suffixes : ℕ
max_suffixes = 10

-- The loop over the arguments behind `argv[0]`; `none` is an exit with an error.
unfoldable pub parse_args : List Bytes → Options → Option Options
parse_args [] options = some options
parse_args (arg ∷ []) options = none
parse_args (arg ∷ value ∷ args) options =
    let with_path = parse_args args (record options { path = value }) in
    let with_suffix =
      parse_args args (record options { suffixes = options.suffixes ++ value ∷ [] }) in
    if equal arg (b'-' ∷ b'f' ∷ [])
    then with_path
    else if equal arg (b'-' ∷ b'r' ∷ [])
    then (if ltb (length options.suffixes) max_suffixes then with_suffix else none)
    else none

abbrev pub initial_options : Options
initial_options = record {
  path = b'd' ∷ b'n' ∷ b's' ∷ b'-' ∷ b'c' ∷ b'a' ∷ b'c' ∷ b'h' ∷ b'e' ∷ b'.' ∷ b'd' ∷ b'b' ∷ [];
  suffixes = [];
}

-- What the program needs from outside: the file at a path, the time, the memory that `malloc` gives,
-- and whether `mkstemp` and `rename` work.
pub record System : Type 0 where
  pub fopen : Bytes → Option Bytes
  pub time : ℕ
  pub memory : Bytes
  pub has_temp : Bool
  pub renames : Bool

unfoldable pub main : System → List Bytes → Outcome
main system args = elim (parse_args args initial_options) [
  | none ↦ exited
  | some options ↦ elim (system.fopen options.path) [
    | none ↦ exited
    | some file ↦
        if length options.suffixes == 0
        then list system.time system.memory file
        else delete system.has_temp system.renames system.memory options.suffixes file
  ]
]
