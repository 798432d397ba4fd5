-- ===== src/Dns/Check.antt =====
-- The checks on a message that comes in (src/dns.c): `check_msg`, `dns_check_query`,
-- `rm_additional` and `dns_check_reply`.

pub mod Question
pub mod Reply
use chinadns_ng.Prelude.{
  ℕ, ◌+◌, ◌-◌, ◌%◌, Bool, true, false, not, ◌&&◌, ◌||◌, Option, none, some, ltb, ◌==◌,
  if◌then◌else◌, length, drop, take,
}
use chinadns_ng.Prelude.Words.{Bytes}
use chinadns_ng.Dns.Header.{
  header_size, question_size, msg_minsize, msg_maxsize, msg_minlen, name_wire_minlen,
  name_wire_maxlen, qr_query, qr_reply, header_qr, header_tc, question_count, set_tc, set_ra,
  set_count, get_answer_count, get_authority_count, dns_is_good,
}
use chinadns_ng.Dns.Name.{memchr, decode_name}
use chinadns_ng.Dns.Record.{skip_record}

-- The result of a check: whether it passed, the message as memory holds it afterwards, the name
-- if one was asked for, `*p_qnamelen`, and for a reply `*p_newlen`.
pub data Checked : Type 0 where
  bad : Bytes → Checked
  good : Bytes → Option Bytes → ℕ → Checked

-- The name in ASCII, if it is asked for; the outer `none` is a name that does not decode.
unfoldable pub question_name : Bool → Bytes → Option (Option Bytes)
unfolding decode_name
question_name false qname = some none
question_name true qname = elim (decode_name qname) [ none ↦ none | some name ↦ some (some name) ]

-- Behind the decoding: the remaining length.
unfoldable pub check_remaining : Bytes → ℕ → Option (Option Bytes) → Checked
check_remaining msg qnamelen none = bad msg
check_remaining msg qnamelen (some name) =
    if ltb (length msg - header_size - qnamelen) question_size
    then bad msg
    else good msg name qnamelen

-- Behind the search for the end of the name.
unfoldable pub check_question : Bytes → Bool → Option ℕ → Checked
unfolding question_name check_remaining
check_question msg want_name none = bad msg
check_question msg want_name (some p) =
    let qnamelen = p + 1 in
    if ltb qnamelen name_wire_minlen || ltb name_wire_maxlen qnamelen
    then bad msg
    else check_remaining msg qnamelen
        (question_name want_name (take qnamelen (drop header_size msg)))

unfoldable pub check_msg : Bool → Bytes → Bool → Checked
unfolding check_question memchr
check_msg is_query msg want_name =
    let msg' = if is_query && header_tc msg == 1 then set_tc 0 msg else msg in
    if ltb (length msg) msg_minsize || ltb msg_maxsize (length msg)
    then bad msg
    else if not (header_qr msg == (if is_query then qr_query else qr_reply))
    then bad msg
    else if not (question_count msg == 1)
    then bad msg
    else check_question msg' want_name (memchr 0 (drop header_size msg'))

unfoldable pub dns_check_query : Bytes → Bool → Checked
dns_check_query = check_msg true

-- The new length, which is a u16 (0 if failed), and the message.
unfoldable pub rm_additional : Bytes → ℕ → ℕ × Bytes
rm_additional msg qnamelen =
    let walk =
      skip_record (get_answer_count msg + get_authority_count msg)
        (drop (msg_minlen qnamelen) msg) in
    if not (dns_is_good msg)
    then (length msg % 65536, msg)
    else if not walk.result
    then (0, msg)
    else ((length msg - length walk.rest) % 65536, set_count 10 0 msg)

pub data CheckedReply : Type 0 where
  bad : Bytes → CheckedReply
  good : Bytes → Option Bytes → ℕ → ℕ → CheckedReply

unfoldable pub finish_reply : Option Bytes → ℕ → ℕ × Bytes → CheckedReply
finish_reply name qnamelen (newlen, msg) =
    if newlen == 0
    then CheckedReply.bad msg
    else CheckedReply.good (set_ra 1 msg) name qnamelen newlen

unfoldable pub dns_check_reply : Bytes → Bool → CheckedReply
dns_check_reply msg want_name = elim (check_msg false msg want_name) [
  | Checked.bad msg' ↦ CheckedReply.bad msg'
  | Checked.good msg' name qnamelen ↦ finish_reply name qnamelen (rm_additional msg' qnamelen)
]
