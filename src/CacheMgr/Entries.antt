-- ===== src/CacheMgr/Entries.antt =====
-- A cache file of tool/dns_cache_mgr.c as its entries, and what `next` reads of them.
use chinadns_ng.Prelude.{
  ◌≤◌, ◌<◌, ◌≡◌, ◌≢◌, refl, sym, ap, ◌∙◌, some, List, [], ◌∷◌, ◌++◌, arith, ◌==◌, length, take,
  drop, All, append_assoc, length-append, take-append, drop-append, ==_ne, le→ltb, lt→ltb, le→leb,
  Bool-cases, inl, inr,
}
use chinadns_ng.Prelude.Words.{Bytes, c_string}
use chinadns_ng.Dns.Header.{header_size, name_wire_maxlen}
use chinadns_ng.Dns.Name.{decode_name, dns_wire_to_ascii}
use chinadns_ng.Dns.Name.Labels.{IsLabel, encode_labels, wire_name, dotted}
use chinadns_ng.Dns.Name.Decode.{decode_name-wire_name}
use chinadns_ng.CacheMgr.{entry_header_size, msg_len, qnamelen, ended, entry, read_entry, next}

-- The header of the entry, and its message: the DNS header, the labels of its name and the rest.
pub record Entry : Type 0 where
  pub header : Bytes
  pub dns_header : Bytes
  pub labels : List Bytes
  pub rest : Bytes

abbrev pub message : Entry → Bytes
message e = e.dns_header ++ (wire_name e.labels ++ e.rest)

-- The lengths in the header are right, the name is valid and the type behind it is there.
pub record IsEntry (e : Entry) : Type 0 where
  pub header_len : length e.header ≡ entry_header_size
  pub dns_header_len : length e.dns_header ≡ header_size
  pub size : msg_len e.header ≡ length (message e)
  pub name_size : qnamelen e.header ≡ length (wire_name e.labels)
  pub short : length (wire_name e.labels) ≤ name_wire_maxlen
  pub valid : All IsLabel e.labels
  pub has_type : 2 ≤ length e.rest

-- The ASCII form of a name; the root is a dot.
abbrev pub ascii : List Bytes → Bytes
ascii [] = b'.' ∷ []
ascii (l ∷ ls) = dotted (l ∷ ls)

-- The name as the tool sees it, up to a null byte.
abbrev pub name_of : Entry → Bytes
name_of e = c_string (ascii e.labels)

-- A file: entries, and bytes behind them.
abbrev pub file_of : List Entry → Bytes → Bytes
file_of [] tail = tail
file_of (e ∷ es) tail = e.header ++ (message e ++ file_of es tail)

c_string-end : (text : Bytes) → c_string (text ++ 0 ∷ []) ≡ c_string text
unfolding c_string
c_string-end [] = refl
c_string-end (c ∷ text) = elim (Bool-cases (c == 0)) [
  | inl end ↦ rw end refl
  | inr more ↦ rw more (ap (λ t. c ∷ t) (c_string-end text))
]

decode_name-ascii :
    (ls : List Bytes) → All IsLabel ls → decode_name (wire_name ls) ≡ some (ascii ls ++ 0 ∷ [])
unfolding decode_name
decode_name-ascii [] v = refl
decode_name-ascii (l ∷ ls) v = decode_name-wire_name l ls v

dns_wire_to_ascii-ascii :
    (ls : List Bytes)
    → All IsLabel ls
    → length (wire_name ls) ≤ name_wire_maxlen
    → dns_wire_to_ascii (wire_name ls) ≡ some (some (ascii ls ++ 0 ∷ []))
unfolding dns_wire_to_ascii
dns_wire_to_ascii-ascii ls v short =
    let some_byte : 1 ≤ length (wire_name ls) =
      omega (arith, length-append (encode_labels ls) (0 ∷ [])) in
    rw
      (
        dns_wire_to_ascii,
        le→leb 1 (length (wire_name ls)) some_byte,
        le→leb (length (wire_name ls)) name_wire_maxlen short,
      )
      (ap some (decode_name-ascii ls v))

-- What is read behind a header whose sizes are right.
read_entry-entry :
    (h m file msg wire name : Bytes)
    → msg_len h ≡ length m
    → length m ≢ 0
    → take (qnamelen h) (drop header_size (m ++ drop (length m) msg)) ≡ wire
    → dns_wire_to_ascii wire ≡ some (some name)
    → read_entry h (m ++ file) msg ≡ entry h (m ++ drop (length m) msg) (c_string name) file
unfolding read_entry
read_entry-entry h m file msg wire name size some_byte qname decoded =
    rw
      (
        read_entry,
        size,
        take-append m file (length m) refl,
        ==_ne (length m) 0 some_byte,
        le→ltb (length (m ++ file)) (length m) (omega (arith, length-append m file)),
        qname,
        decoded,
      )
      (rw (size, take-append m file (length m) refl, drop-append m file (length m) refl) refl)

-- `next` reads the first entry, and leaves the buffer behind its message as it is.
pub next-entry :
    (e : Entry) (file msg : Bytes)
    → IsEntry e
    → next (e.header ++ (message e ++ file)) msg
      ≡ entry e.header (message e ++ drop (length (message e)) msg) (name_of e) file
unfolding next
next-entry e file msg w =
    let whole : Bytes = e.header ++ (message e ++ file) in
    let stale : Bytes = drop (length (message e)) msg in
    let wire : Bytes = wire_name e.labels in
    let long : entry_header_size ≤ length whole =
      omega (arith, w.header_len, length-append e.header (message e ++ file)) in
    let split : message e ++ stale ≡ e.dns_header ++ (wire ++ (e.rest ++ stale)) =
      append_assoc e.dns_header (wire ++ e.rest) stale
      ∙ ap (λ t. e.dns_header ++ t) (append_assoc wire e.rest stale) in
    let qname : take (qnamelen e.header) (drop header_size (message e ++ stale)) ≡ wire =
      ap (λ t. take (qnamelen e.header) (drop header_size t)) split
      ∙ ap (take (qnamelen e.header))
          (drop-append e.dns_header (wire ++ (e.rest ++ stale)) header_size w.dns_header_len)
      ∙ take-append wire (e.rest ++ stale) (qnamelen e.header) (sym w.name_size) in
    let some_byte : length (message e) ≢ 0 =
      omega (arith, w.dns_header_len, length-append e.dns_header (wire ++ e.rest)) in
    rw
      (
        le→ltb (length whole) entry_header_size long,
        take-append e.header (message e ++ file) entry_header_size w.header_len,
        drop-append e.header (message e ++ file) entry_header_size w.header_len,
      )
      (read_entry-entry e.header (message e) file msg wire (ascii e.labels ++ 0 ∷ []) w.size
          some_byte qname (dns_wire_to_ascii-ascii e.labels w.valid w.short)
        ∙ ap (λ name. entry e.header (message e ++ stale) name file)
            (c_string-end (ascii e.labels)))

-- Fewer bytes than a header end the file.
pub next-ended : (file msg : Bytes) → length file < entry_header_size → next file msg ≡ ended
unfolding next
next-ended file msg short = rw (next, lt→ltb (length file) entry_header_size short) refl
