-- ===== src/Dns/Build.antt =====
-- Replies that the program makes itself (src/dns.c): `dns_empty_reply`, `dns_servfail_reply`,
-- `dns_truncate` and `dns_make_reply`. Each returns the length and the message.
pub mod Header
pub mod Accepted
pub mod Answer
use chinadns_ng.Prelude.{
  ℕ, ◌+◌, ◌-◌, ◌%◌, Option, none, some, ◌++◌, ltb, if◌then◌else◌, length, take, drop,
}
use chinadns_ng.Prelude.Words.{Bytes}
use chinadns_ng.Dns.Header.{
  header_size, msg_minlen, qr_reply, rcode_noerror, rcode_servfail, set_qr, set_aa, set_tc, set_ra,
  set_rcode, set_count,
}
use chinadns_ng.Dns.Name.{memchr}

-- The three counts behind the question's are cleared.
abbrev pub clear_counts : Bytes → Bytes
clear_counts msg = set_count 10 0 (set_count 8 0 (set_count 6 0 msg))

unfoldable pub dns_empty_reply : Bytes → ℕ → ℕ × Bytes
dns_empty_reply msg qnamelen = (
  (if ltb 0 qnamelen then msg_minlen qnamelen else header_size) % 65536,
  clear_counts (set_rcode rcode_noerror (set_ra 1 (set_qr qr_reply msg))),
)

unfoldable pub dns_servfail_reply : Bytes → ℕ → ℕ × Bytes
dns_servfail_reply msg qnamelen =
    let (len, h) = dns_empty_reply msg qnamelen in (len, set_rcode rcode_servfail (set_aa 0 h))

-- `none` is a failed assertion.
unfoldable pub get_qnamelen : Bytes → Option ℕ
get_qnamelen msg =
    let rest = drop header_size msg in
    if ltb 0 (length msg - header_size)
    then (elim (memchr 0 rest) [ none ↦ none | some p ↦ some (p + 1) ])
    else none

-- The copy holds the header and the question only.
unfoldable pub dns_truncate : Bytes → Option (ℕ × Bytes)
dns_truncate msg = elim (get_qnamelen msg) [
  | none ↦ none
  | some qnamelen ↦ some (dns_empty_reply (set_tc 1 (take (msg_minlen qnamelen) msg)) qnamelen)
]

-- The message is the header and question of the query, made a reply, and the answer.
unfoldable pub dns_make_reply : Bytes → ℕ → Bytes → ℕ → Bytes
dns_make_reply qmsg qnamelen answer answer_n =
    let (len, h) = dns_empty_reply (take (msg_minlen qnamelen) qmsg) qnamelen in
    set_aa 1 (set_count 6 answer_n h) ++ answer
