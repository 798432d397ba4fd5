-- ===== src/Dns/Name.antt =====
-- Domain names on the wire and in ASCII (src/dns.c): `decode_name`, `dns_ascii_to_wire`,
-- `dns_wire_to_ascii`.

pub mod Labels
pub mod Decode
pub mod Encode
use chinadns_ng.Prelude.{
  ℕ, zero, suc, ◌+◌, ◌-◌, ◌%◌, Bool, true, false, ◌&&◌, ◌||◌, Option, none, some, ◌>>=◌, [], ◌∷◌,
  ◌++◌, ltb, leb, ◌==◌, if◌then◌else◌, length, set, take, drop,
}
use chinadns_ng.Prelude.Words.{Bytes}
use chinadns_ng.Dns.Header.{name_wire_minlen, name_wire_maxlen, label_maxlen}

-- `memchr(xs, c, length xs)`: the offset of the first `c`.
unfoldable pub memchr : ℕ → Bytes → Option ℕ
memchr c [] = none
memchr c (x ∷ xs) =
    if x == c then some 0 else elim (memchr c xs) [ none ↦ none | some i ↦ some (suc i) ]

-- The loop of `decode_name`. `out` is the whole buffer and `i` the place of the pointer in it; the
-- last argument is what `src` and `len` still hold. The fuel is that length.
unfoldable pub decode_loop : ℕ → Bool → Bytes → ℕ → Bytes → Option Bytes
decode_loop fuel first out i [] = some out
decode_loop fuel first out i (label_len ∷ []) = none
decode_loop zero first out i (label_len ∷ c ∷ src) = none
decode_loop (suc fuel) first out i (label_len ∷ c ∷ src) =
    let out' = if first then out else set out i b'.' in
    let i' = if first then i else i + 1 in
    let next = decode_loop fuel false out' (i' + label_len) (drop label_len (c ∷ src)) in
    if ltb label_len 1 || ltb label_maxlen label_len
    then none
    else if ltb (length (c ∷ src)) label_len
    then none
    else next

-- `none` is the result false; `some out` is what the buffer holds.
unfoldable pub decode_name : Bytes → Option Bytes
unfolding decode_loop
decode_name src =
    let len = length src in
    if leb len name_wire_minlen
    then some (b'.' ∷ 0 ∷ [])
    else decode_loop len true (drop 1 src) 0 (take (len - 1) src)

-- After the loop of `dns_ascii_to_wire`: the null label.
abbrev pub close_wire : Bytes → ℕ → Option (Bytes × ℕ)
close_wire buf level =
    if ltb name_wire_maxlen (length buf + 1) then none else some (buf ++ 0 ∷ [], level)

-- The body of the loop of `dns_ascii_to_wire` on the label of `len` bytes at `start`. `level` is a u8.
unfoldable pub add_label : Bytes → ℕ → Bytes → ℕ → Option (Bytes × ℕ)
add_label buf level start len =
    if ltb len 1 || ltb label_maxlen len
    then none
    else if ltb name_wire_maxlen (length buf + 1 + len)
    then none
    else some (buf ++ len ∷ take len start, (level + 1) % 256)

-- The loop; `start` is the rest of the name. Each round takes a byte at least, so
-- `length start + 1` rounds are enough.
unfoldable pub wire_loop : ℕ → Bytes → ℕ → Bytes → Option (Bytes × ℕ)
wire_loop zero buf level start = none
wire_loop (suc fuel) buf level start = elim (memchr b'.' start) [
  | none ↦ do (buf', level') ← add_label buf level start (length start); close_wire buf' level'
  | some k ↦ do
    (buf', level') ← add_label buf level start k
    wire_loop fuel buf' level' (drop (k + 1) start)
]

-- `none` is the result 0; `some (buf, level)` the bytes written, whose number is returned, and
-- `*p_level`.
unfoldable pub dns_ascii_to_wire : Bytes → Option (Bytes × ℕ)
unfolding wire_loop memchr add_label
dns_ascii_to_wire ascii_name = wire_loop (length ascii_name + 1) [] 0 ascii_name

-- `none` is the failed assertion on `wire_len`.
unfoldable pub dns_wire_to_ascii : Bytes → Option (Option Bytes)
unfolding decode_name
dns_wire_to_ascii wire_name =
    if leb name_wire_minlen (length wire_name) && leb (length wire_name) name_wire_maxlen
    then some (decode_name wire_name)
    else none
