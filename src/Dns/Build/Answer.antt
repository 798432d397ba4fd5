-- ===== src/Dns/Build/Answer.antt =====
-- `dns_make_reply` of src/dns.c: the reply made of a query and of given answer records.
use mathlib.Core.Path.{ap₂}
use mathlib.Core.Option.{some-injective}
use chinadns_ng.Prelude.{
  ℕ, zero, suc, ◌+◌, ◌-◌, ◌*◌, ◌/◌, ◌%◌, ◌≤◌, ◌<◌, ◌≡◌, refl, sym, ap, ◌∙◌, true, false, none, some,
  List, [], ◌∷◌, ◌++◌, arith, ◌==◌, length, take, drop, All, length-append, drop-append,
  length-take, Option-cases, Bool-cases, inl, inr, ==_ne, get_or-take, get_or-append, append-nil,
  none_ne,
}
use chinadns_ng.Prelude.Words.{Bytes}
use chinadns_ng.Dns.Header.{
  header_size, msg_maxsize, msg_minlen, rcode_noerror, qr_reply, header_qr, header_tc, header_rcode,
  set_aa, set_count, question_count, dns_is_good, dns_get_id, get_answer_count, get_authority_count,
  get_additional_count, get_records_count,
}
use chinadns_ng.Dns.Name.{memchr}
use chinadns_ng.Dns.Name.Encode.{memchr_sound}
use chinadns_ng.Dns.Record.{skip_record}
use chinadns_ng.Dns.Record.Grammar.{Rr, IsRr, rr_bytes}
use chinadns_ng.Dns.Record.Walk.{skip_record-rr_bytes}
use chinadns_ng.Dns.Check.{CheckedReply, rm_additional, finish_reply, dns_check_reply}
use chinadns_ng.Dns.Check.Question.{HasQuestion, check_msg-HasQuestion, memchr-FoundAt}
use chinadns_ng.Dns.Check.Reply.{IsReply, stripped, is_good-congr}
use chinadns_ng.Dns.Build.{dns_empty_reply, dns_make_reply}
use chinadns_ng.Dns.Build.Accepted.{HasQuestion-take, HasQuestion-edit}
use chinadns_ng.Dns.Build.Header.{by_header}

-- What the code puts in front of the answer, for a message that is cut to its question.
abbrev reply_header : ℕ → ℕ → Bytes → Bytes
reply_header n answer_n kept = set_aa 1 (set_count 6 answer_n (dns_empty_reply kept n).1)

abbrev HasReplyHeader : ℕ → Bytes → Bytes → Type 0
HasReplyHeader answer_n kept reply =
    (header_qr reply ≡ qr_reply)
    × (header_tc reply ≡ header_tc kept)
    × (header_rcode reply ≡ rcode_noerror)
    × (get_answer_count reply ≡ answer_n)
    × (get_authority_count reply ≡ 0)
    × (get_additional_count reply ≡ 0)
    × (dns_get_id reply ≡ dns_get_id kept)
    × (question_count reply ≡ question_count kept)
    × (length reply ≡ length kept)
    × (drop header_size reply ≡ drop header_size kept)

reply_header_fields :
    (n answer_n : ℕ)
    → answer_n < 65536
    → (a b c d e f g h i j k l : ℕ) (rest : Bytes)
    → let kept = a ∷ b ∷ c ∷ d ∷ e ∷ f ∷ g ∷ h ∷ i ∷ j ∷ k ∷ l ∷ rest in
      HasReplyHeader answer_n kept (reply_header n answer_n kept)
unfolding dns_empty_reply get_answer_count get_authority_count get_additional_count dns_get_id
reply_header_fields n answer_n lt a b c d e f g h i j k l rest =
    (omega arith, omega arith, omega arith, omega arith, refl, refl, refl, refl, refl, refl)

-- The header's fields do not change when bytes are appended.
HasReplyHeader-append :
    (answer_n : ℕ) (kept reply answer : Bytes)
    → header_size ≤ length reply
    → HasReplyHeader answer_n kept reply
    → let out = reply ++ answer in
      (header_qr out ≡ qr_reply)
      × (header_tc out ≡ header_tc kept)
      × (header_rcode out ≡ rcode_noerror)
      × (get_answer_count out ≡ answer_n)
      × (get_authority_count out ≡ 0)
      × (get_additional_count out ≡ 0)
      × (dns_get_id out ≡ dns_get_id kept)
      × (question_count out ≡ question_count kept)
unfolding get_answer_count get_authority_count get_additional_count dns_get_id
HasReplyHeader-append answer_n kept reply answer long
      (qr, tc, rcode, ans, auth, add, id, count, _, _) =
    let at = λ (i : ℕ) (lt : i < header_size). get_or-append reply answer i 0 (omega arith) in
    let word = λ (i : ℕ) (lt : i + 1 < header_size).
      ap₂ (λ a b. a * 256 + b) (at i (omega arith)) (at (i + 1) (omega arith)) in
    (
      ap (λ b. b / 128) (at 2 (omega arith)) ∙ qr,
      ap (λ b. b / 2 % 2) (at 2 (omega arith)) ∙ tc,
      ap (λ b. b % 16) (at 3 (omega arith)) ∙ rcode,
      word 6 (omega arith) ∙ ans,
      word 8 (omega arith) ∙ auth,
      word 10 (omega arith) ∙ add,
      ap₂ (λ a b. a + b * 256) (at 0 (omega arith)) (at 1 (omega arith)) ∙ id,
      word 4 (omega arith) ∙ count,
    )

skip_record-rr_bytes_only :
    (rs : List Rr)
    → All IsRr rs
    → ((skip_record (length rs) (rr_bytes rs)).result ≡ true)
      × ((skip_record (length rs) (rr_bytes rs)).rest ≡ [])
skip_record-rr_bytes_only rs v = rw (← append-nil (rr_bytes rs)) (skip_record-rr_bytes rs [] v)

drop-append_left : (n : ℕ) (xs ys : Bytes) → n ≤ length xs → drop n (xs ++ ys) ≡ drop n xs ++ ys
drop-append_left zero xs ys h = refl
drop-append_left (suc n) [] ys h = absurd (omega arith)
drop-append_left (suc n) (x ∷ xs) ys h = drop-append_left n xs ys (omega arith)

memchr-append_found :
    (c : ℕ) (xs ys : Bytes) {i : ℕ} → memchr c xs ≡ some i → memchr c (xs ++ ys) ≡ some i
unfolding memchr
memchr-append_found c [] ys h = cc
memchr-append_found c (x ∷ xs) ys {i} h = elim (Bool-cases (x == c)) [
  | inl e ↦ rw e (rw e at h)
  | inr e ↦ elim (Option-cases (memchr c xs)) [
    | inl m ↦ absurd (none_ne (rw (e, m) at h))
    | inr (j, m) ↦
        rw (e, memchr-append_found c xs ys m) (ap some (some-injective (suc j) i (rw (e, m) at h)))
  ]
]

-- What is appended behind the question is not part of it.
HasQuestion-append :
    (msg answer : Bytes) (n : ℕ)
    → HasQuestion msg n
    → length (msg ++ answer) ≤ msg_maxsize
    → HasQuestion (msg ++ answer) n
HasQuestion-append msg answer n q max =
    let at =
      λ (i : ℕ) (lt : i < header_size). get_or-append msg answer i 0 (omega (arith, q.fits)) in
    record {
      name_min = q.name_min;
      name_max = q.name_max;
      fits = omega (arith, q.fits, length-append msg answer);
      size_max = max;
      name_end = rw (drop-append_left header_size msg answer (omega (arith, q.fits))) (
          memchr_sound 0 (drop header_size msg ++ answer) (
            memchr-append_found 0 (drop header_size msg) answer
              (memchr-FoundAt 0 (drop header_size msg) (n - 1) q.name_end)));
      one_question =
          ap₂ (λ a b. a * 256 + b) (at 4 (omega arith)) (at 5 (omega arith)) ∙ q.one_question;
    }

-- A reply with no additional records and nothing behind its records passes `dns_check_reply` whole.
dns_check_reply-whole :
    (msg : Bytes) (n : ℕ) (rs : List Rr)
    → HasQuestion msg n
    → header_qr msg ≡ qr_reply
    → dns_is_good msg ≡ true
    → All IsRr rs
    → get_answer_count msg + get_authority_count msg ≡ length rs
    → drop (msg_minlen n) msg ≡ rr_bytes rs
    → dns_check_reply msg false ≡ CheckedReply.good (stripped msg) none n (length msg)
unfolding dns_check_reply finish_reply rm_additional
dns_check_reply-whole msg n rs q qr good v count body =
    let (ok, done) = skip_record-rr_bytes_only rs v in
    let small : (length msg - 0) % 65536 ≡ length msg = omega (arith, q.size_max) in
    rw (
      dns_check_reply,
      check_msg-HasQuestion false false msg n q qr,
      good,
      count,
      body,
      ok,
      done,
      small,
      ==_ne (length msg) 0 (omega (arith, q.fits)),
    )

-- A query without tc and the bytes of fewer than 65536 well-formed records that fit a message give
-- a good reply to that query with exactly those records, which passes `dns_check_reply` whole.
pub dns_make_reply-dns_check_reply :
    (qmsg : Bytes) (n : ℕ) (rs : List Rr)
    → HasQuestion qmsg n
    → header_tc qmsg ≡ 0
    → All IsRr rs
    → length rs < 65536
    → msg_minlen n + length (rr_bytes rs) ≤ msg_maxsize
    → let out = dns_make_reply qmsg n (rr_bytes rs) (length rs) in
      IsReply out n rs
      × (dns_is_good out ≡ true)
      × (dns_get_id out ≡ dns_get_id qmsg)
      × (dns_check_reply out false ≡ CheckedReply.good (stripped out) none n (length out))
unfolding dns_make_reply get_records_count dns_get_id dns_is_good
dns_make_reply-dns_check_reply qmsg n rs q no_tc v few fits =
    let ml : ℕ = msg_minlen n in
    let kept : Bytes = take ml qmsg in
    let answer : Bytes = rr_bytes rs in
    let h : Bytes = reply_header n (length rs) kept in
    let out : Bytes = h ++ answer in
    let kept_q = HasQuestion-take qmsg n q in
    let size_kept : length kept ≡ ml = omega (arith, length-take ml qmsg, q.fits) in
    let fields : HasReplyHeader (length rs) kept h =
      by_header (λ m. HasReplyHeader (length rs) m (reply_header n (length rs) m))
        (reply_header_fields n (length rs) few) kept (omega (arith, size_kept)) in
    let (_, _, _, _, _, _, _, count, len, behind) = fields in
    let size_h : length h ≡ ml = len ∙ size_kept in
    let (qr, tc, rcode, ans, auth, add, id, _) =
      HasReplyHeader-append (length rs) kept h answer (omega (arith, size_h)) fields in
    let size : length out ≡ ml + length answer = omega (arith, length-append h answer, size_h) in
    let out_q =
      HasQuestion-append h answer n (HasQuestion-edit kept h n kept_q len count behind)
        (omega (arith, size, fits)) in
    let body : drop ml out ≡ answer = drop-append h answer ml size_h in
    let no_tc' : header_tc kept ≡ 0 =
      ap (λ b. b / 2 % 2) (get_or-take ml 2 qmsg 0 (omega arith)) ∙ no_tc in
    let good : dns_is_good out ≡ true = is_good-congr out [] (tc ∙ no_tc') rcode in
    let id' : dns_get_id kept ≡ dns_get_id qmsg =
      ap₂ (λ a b. a + b * 256) (get_or-take ml 0 qmsg 0 (omega arith))
        (get_or-take ml 1 qmsg 0 (omega arith)) in
    (
      record {
        fits = omega (arith, size);
        size_max = omega (arith, size, fits);
        found = (omega (arith, ans, auth, add), v, body ∙ sym (append-nil answer));
      },
      good,
      id ∙ id',
      dns_check_reply-whole out n rs out_q qr good v (omega (arith, ans, auth)) body,
    )
