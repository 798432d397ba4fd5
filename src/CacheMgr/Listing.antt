-- ===== src/CacheMgr/Listing.antt =====
-- What `list` of tool/dns_cache_mgr.c shows of a file of entries.
use mathlib.Core.Path.{ap₂}
use chinadns_ng.Prelude.Int.{signed32, sub_ℕ}
use chinadns_ng.Prelude.{
  sym, ◌∙◌, ◌-◌, ◌*◌, ◌%◌, ◌^◌, append_assoc, ℕ, zero, suc, ◌+◌, ◌≤◌, ◌<◌, ◌≡◌, refl, ap, some,
  List, [], ◌∷◌, ◌++◌, arith, length, drop, map, All, length-append, get_or-append,
}
use chinadns_ng.Prelude.Words.{Bytes, byte, be16}
use chinadns_ng.Dns.Header.{header_size, dns_get_qtype}
use chinadns_ng.Dns.Name.Labels.{wire_name}
use chinadns_ng.CacheMgr.{
  entry_header_size, update_time, ttl, age, qnamelen, Line, line, list_loop, listed, list,
}
use chinadns_ng.CacheMgr.Entries.{Entry, IsEntry, message, name_of, file_of, next-entry, next-ended}
use chinadns_ng.CacheMgr.Delete.{length-file_of}

-- The line of an entry: the type is the two bytes behind the name of its own message, and what is
-- left of its TTL is the TTL less its age, as an integer.
abbrev pub entry_line : ℕ → Entry → Line
entry_line now e = record {
  name = name_of e;
  qtype = byte e.rest 0 * 256 + byte e.rest 1;
  ttl_left = sub_ℕ (ttl e.header) (now - update_time e.header);
  size = length (message e);
}

-- The entry is not from the future, and its age and its TTL are an i32.
abbrev pub IsTimely : ℕ → Entry → Type 0
IsTimely now e =
    (update_time e.header ≤ now) × (now - update_time e.header < 2 ^ 31) × (ttl e.header < 2 ^ 31)

byte-append :
    (before tail : Bytes) (n i : ℕ)
    → length before ≡ n
    → byte (before ++ tail) (n + i) ≡ byte tail i
byte-append [] tail n i e = let start : n + i ≡ i = omega (arith, e) in ap (byte tail) start
byte-append (c ∷ before) tail n i e =
    let next : n + i ≡ suc (length before + i) = omega (arith, e) in
    ap (byte (c ∷ before ++ tail)) next ∙ byte-append before tail (length before) i refl

-- The type in the buffer, whatever is behind the message.
dns_get_qtype-entry :
    (e : Entry) (stale : Bytes)
    → IsEntry e
    → dns_get_qtype (message e ++ stale) (qnamelen e.header) ≡ byte e.rest 0 * 256 + byte e.rest 1
unfolding dns_get_qtype
dns_get_qtype-entry e stale w =
    let n : ℕ = qnamelen e.header in
    let wire : Bytes = wire_name e.labels in
    let front : Bytes = e.dns_header ++ wire in
    let split : message e ++ stale ≡ front ++ (e.rest ++ stale) =
      append_assoc e.dns_header (wire ++ e.rest) stale
      ∙ ap (λ t. e.dns_header ++ t) (append_assoc wire e.rest stale)
      ∙ sym (append_assoc e.dns_header wire (e.rest ++ stale)) in
    let size : length front ≡ header_size + n =
      omega (arith, length-append e.dns_header wire, w.dns_header_len, w.name_size) in
    let at : (i : ℕ)
        → i < 2
        → byte (front ++ (e.rest ++ stale)) (header_size + n + i) ≡ byte e.rest i =
      λ i lt.
        byte-append front (e.rest ++ stale) (header_size + n) i size
        ∙ get_or-append e.rest stale i 0 (omega (arith, w.has_type, lt)) in
    let first : header_size + n ≡ header_size + n + 0 = omega arith in
    ap (λ t. be16 t (header_size + n)) split
    ∙ ap₂ (λ a b. a * 256 + b) (ap (byte (front ++ (e.rest ++ stale))) first ∙ at 0 (omega arith))
        (at 1 (omega arith))

age-IsTimely :
    (now : ℕ) (e : Entry) → IsTimely now e → age now e.header ≡ now - update_time e.header
age-IsTimely now e t = omega (arith, t.0, t.1)

signed32-sub :
    (t a : ℕ) → t < 2 ^ 31 → a < 2 ^ 31 → signed32 ((t + 2 ^ 32 - a) % 2 ^ 32) ≡ sub_ℕ t a
signed32-sub t a lt la = ground arith

line-entry :
    (now : ℕ) (e : Entry) (stale : Bytes)
    → IsEntry e
    → IsTimely now e
    → line now e.header (message e ++ stale) (name_of e) ≡ entry_line now e
line-entry now e stale w t =
    let qtype' : ℕ = dns_get_qtype (message e ++ stale) (qnamelen e.header) in
    let left : signed32 ((ttl e.header + 2 ^ 32 - age now e.header) % 2 ^ 32)
        ≡ sub_ℕ (ttl e.header) (now - update_time e.header) =
      ap (λ a. signed32 ((ttl e.header + 2 ^ 32 - a) % 2 ^ 32)) (age-IsTimely now e t)
      ∙ signed32-sub (ttl e.header) (now - update_time e.header) t.2 t.1 in
    ap (λ z. record (line now e.header (message e ++ stale) (name_of e)) { ttl_left = z }) left
    ∙ ap
        (λ n. record (line now e.header (message e ++ stale) (name_of e)) {
          ttl_left = sub_ℕ (ttl e.header) (now - update_time e.header);
          size = n;
        })
        w.size
    ∙ ap (λ q. record (entry_line now e) { qtype = q }) (dns_get_qtype-entry e stale w)

list_loop-file_of :
    (fuel now : ℕ) (es : List Entry) (tail msg : Bytes)
    → All IsEntry es
    → All (IsTimely now) es
    → length tail < entry_header_size
    → length es < fuel
    → list_loop fuel now (file_of es tail) msg ≡ some (map (entry_line now) es)
unfolding list_loop
list_loop-file_of zero now es tail msg v t short enough = absurd (omega arith)
list_loop-file_of (suc fuel) now [] tail msg v t short enough =
    rw (list_loop, next-ended tail msg short) refl
list_loop-file_of (suc fuel) now (e ∷ es) tail msg v t short enough =
    let stale : Bytes = drop (length (message e)) msg in
    rw
      (
        list_loop,
        next-entry e (file_of es tail) msg v.0,
        list_loop-file_of fuel now es tail (message e ++ stale) v.1 t.1 short (omega arith),
      )
      (ap (λ shown. some (shown ∷ map (entry_line now) es)) (line-entry now e stale v.0 t.0))

-- On a file of entries, with less than a header behind them, the list has a line for each entry, in
-- order: its name, the type of its own message whatever the buffer held before, its TTL less the
-- time since its update, and the size of its message. The entries are not from the future, and
-- their ages and TTLs are below 2 ^ 31.
pub list-entry_line :
    (now : ℕ) (es : List Entry) (tail msg : Bytes)
    → All IsEntry es
    → All (IsTimely now) es
    → length tail < entry_header_size
    → list now msg (file_of es tail) ≡ listed (map (entry_line now) es)
unfolding list
list-entry_line now es tail msg v t short =
    rw
      (
        list,
        list_loop-file_of (length (file_of es tail) + 1) now es tail msg v t short
            (omega (arith, length-file_of es tail v)),
      )
      refl
