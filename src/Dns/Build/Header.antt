-- ===== src/Dns/Build/Header.antt =====
-- The header of a reply that src/dns.c makes, field by field.
use chinadns_ng.Prelude.{ℕ, ◌≤◌, ◌≡◌, refl, Bool, true, false, not, ◌&&◌, ◌∷◌, arith, length, drop}
use chinadns_ng.Prelude.Words.{Bytes}
use chinadns_ng.Dns.Header.{
  header_size, qr_reply, rcode_noerror, rcode_servfail, header_qr, header_aa, header_tc, header_rd,
  header_ra, header_opcode, header_rcode, question_count, get_records_count, dns_get_id,
  dns_get_rcode, dns_is_tc, dns_is_good,
}
use chinadns_ng.Dns.Build.{dns_empty_reply, dns_servfail_reply}

-- What holds of every message that begins with twelve bytes holds of every one that is long enough.
pub by_header {ℓ} :
    (P : Bytes → Type ℓ)
    → ((a b c d e f g h i j k l : ℕ) (rest : Bytes)
        → P (a ∷ b ∷ c ∷ d ∷ e ∷ f ∷ g ∷ h ∷ i ∷ j ∷ k ∷ l ∷ rest))
    → (msg : Bytes) → header_size ≤ length msg
    → P msg
by_header P all (a ∷ b ∷ c ∷ d ∷ e ∷ f ∷ g ∷ h ∷ i ∷ j ∷ k ∷ l ∷ rest) fits =
    all a b c d e f g h i j k l rest
by_header P all _ fits = absurd (omega arith)

-- What a reply without records keeps of the message that it was made of, and what it sets.
pub record IsEmptyReply (msg : Bytes) (reply : Bytes) : Type 0 where
  pub is_reply : header_qr reply ≡ qr_reply
  pub recursion : header_ra reply ≡ 1
  pub no_records : get_records_count reply ≡ 0
  pub same_id : dns_get_id reply ≡ dns_get_id msg
  pub same_opcode : header_opcode reply ≡ header_opcode msg
  pub same_tc : header_tc reply ≡ header_tc msg
  pub same_rd : header_rd reply ≡ header_rd msg
  pub same_questions : question_count reply ≡ question_count msg
  pub same_length : length reply ≡ length msg
  pub same_behind : drop header_size reply ≡ drop header_size msg

IsEmptyReply-header :
    (qnamelen a b c d e f g h i j k l : ℕ) (rest : Bytes)
    → let msg = a ∷ b ∷ c ∷ d ∷ e ∷ f ∷ g ∷ h ∷ i ∷ j ∷ k ∷ l ∷ rest in
      let reply = (dns_empty_reply msg qnamelen).1 in
      IsEmptyReply msg reply × (header_rcode reply ≡ rcode_noerror)
unfolding dns_empty_reply get_records_count dns_get_id
IsEmptyReply-header qnamelen a b c d e f g h i j k l rest = (
  record {
    is_reply = omega arith;
    recursion = omega arith;
    no_records = refl;
    same_id = refl;
    same_opcode = omega arith;
    same_tc = omega arith;
    same_rd = omega arith;
    same_questions = refl;
    same_length = refl;
    same_behind = refl;
  },
  omega arith,
)

-- `dns_empty_reply` makes a reply of any message with a header: no error, no records, recursion
-- available; the id, the opcode, tc, rd and all behind the header stay.
pub dns_empty_reply_header :
    (msg : Bytes) (qnamelen : ℕ)
    → header_size ≤ length msg
    → let reply = (dns_empty_reply msg qnamelen).1 in
      IsEmptyReply msg reply × (dns_get_rcode reply ≡ rcode_noerror)
unfolding dns_get_rcode
dns_empty_reply_header msg qnamelen fits =
    by_header
      (λ m.
        IsEmptyReply m (dns_empty_reply m qnamelen).1
        × (header_rcode (dns_empty_reply m qnamelen).1 ≡ rcode_noerror))
      (IsEmptyReply-header qnamelen) msg fits

and_false : (b : Bool) → b && false ≡ false
and_false true = refl
and_false false = refl

servfail_reply_header :
    (qnamelen a b c d e f g h i j k l : ℕ) (rest : Bytes)
    → let msg = a ∷ b ∷ c ∷ d ∷ e ∷ f ∷ g ∷ h ∷ i ∷ j ∷ k ∷ l ∷ rest in
      let reply = (dns_servfail_reply msg qnamelen).1 in
      IsEmptyReply msg reply × (header_rcode reply ≡ rcode_servfail) × (header_aa reply ≡ 0)
unfolding dns_servfail_reply dns_empty_reply get_records_count dns_get_id
servfail_reply_header qnamelen a b c d e f g h i j k l rest = (
  record {
    is_reply = omega arith;
    recursion = omega arith;
    no_records = refl;
    same_id = refl;
    same_opcode = omega arith;
    same_tc = omega arith;
    same_rd = omega arith;
    same_questions = refl;
    same_length = refl;
    same_behind = refl;
  },
  omega arith,
  omega arith,
)

-- `dns_servfail_reply` differs in the rcode, which is SERVFAIL, and in aa, which is cleared: such a
-- reply is never good.
dns_servfail_reply_header :
    (msg : Bytes) (qnamelen : ℕ)
    → header_size ≤ length msg
    → let reply = (dns_servfail_reply msg qnamelen).1 in
      IsEmptyReply msg reply
      × (dns_get_rcode reply ≡ rcode_servfail)
      × (header_aa reply ≡ 0)
      × (dns_is_good reply ≡ false)
unfolding dns_get_rcode dns_is_good dns_is_tc
dns_servfail_reply_header msg qnamelen fits =
    let (empty, rcode, aa) =
      by_header
        (λ m.
          IsEmptyReply m (dns_servfail_reply m qnamelen).1
          × (header_rcode (dns_servfail_reply m qnamelen).1 ≡ rcode_servfail)
          × (header_aa (dns_servfail_reply m qnamelen).1 ≡ 0))
        (servfail_reply_header qnamelen) msg fits in
    (empty, rcode, aa, rw rcode (and_false (not (dns_is_tc (dns_servfail_reply msg qnamelen).1))))
