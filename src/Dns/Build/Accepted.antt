-- ===== src/Dns/Build/Accepted.antt =====
-- `dns_truncate` of src/dns.c, and `dns_check_reply` on what it makes.
use mathlib.Core.Path.{ap₂}
use mathlib.Core.Option.{some-injective}
use chinadns_ng.Prelude.{
  ℕ, zero, suc, ◌+◌, ◌-◌, ◌*◌, ◌/◌, ◌%◌, ◌<◌, ◌≡◌, ◌≢◌, sym, ap, ◌∙◌, false, none, some, [], ◌∷◌,
  arith, ◌==◌, length, take, drop, length-take, lt→ltb, Option-cases, Bool-cases, inl, inr,
  drop-set, length-set, get_or-set_ne, get_or-set_self, ==_ne, drop-take, get_or-take, none_ne,
}
use chinadns_ng.Prelude.Words.{Bytes, byte}
use chinadns_ng.Dns.Header.{
  header_size, question_size, msg_minlen, qr_reply, header_qr, header_tc, set_tc, set_ra,
  question_count, dns_is_good, dns_is_tc, dns_get_id, get_records_count,
}
use chinadns_ng.Dns.Name.{memchr}
use chinadns_ng.Dns.Name.Encode.{FoundAt, memchr_sound}
use chinadns_ng.Dns.Check.{CheckedReply, rm_additional, finish_reply, dns_check_reply}
use chinadns_ng.Dns.Check.Question.{HasQuestion, check_msg-HasQuestion, memchr-FoundAt}
use chinadns_ng.Dns.Build.{dns_empty_reply, get_qnamelen, dns_truncate}
use chinadns_ng.Dns.Build.Header.{dns_empty_reply_header}

-- A byte found stays found where the bytes are cut behind it.
memchr-take :
    (c : ℕ) (xs : Bytes) (k : ℕ) {i : ℕ}
    → memchr c xs ≡ some i
    → i < k
    → memchr c (take k xs) ≡ some i
unfolding memchr
memchr-take c [] k h lt = cc
memchr-take c (x ∷ xs) zero h lt = absurd (omega arith)
memchr-take c (x ∷ xs) (suc k) {i} h lt = elim (Bool-cases (x == c)) [
  | inl e ↦ rw e (rw e at h)
  | inr e ↦ elim (Option-cases (memchr c xs)) [
    | inl m ↦ absurd (none_ne (rw (e, m) at h))
    | inr (j, m) ↦
        let same : suc j ≡ i = some-injective (suc j) i (rw (e, m) at h) in
        rw (e, memchr-take c xs k m (omega (arith, same))) (ap some same)
  ]
]

FoundAt-take : (c : ℕ) (xs : Bytes) (k i : ℕ) → FoundAt c xs i → i < k → FoundAt c (take k xs) i
FoundAt-take c xs k i f lt =
    memchr_sound c (take k xs) (memchr-take c xs k (memchr-FoundAt c xs i f) lt)

-- A message cut behind its question still has it.
pub HasQuestion-take :
    (msg : Bytes) (n : ℕ) → HasQuestion msg n → HasQuestion (take (msg_minlen n) msg) n
HasQuestion-take msg n q =
    let ml : ℕ = msg_minlen n in
    let at = λ (i : ℕ) (lt : i < ml). get_or-take ml i msg 0 lt in
    let whole : header_size + (n + question_size) ≡ ml = omega arith in
    let cut : drop header_size (take ml msg) ≡ take (n + question_size) (drop header_size msg) =
      ap (λ k. drop header_size (take k msg)) (sym whole)
      ∙ drop-take header_size (n + question_size) msg in
    record {
      name_min = q.name_min;
      name_max = q.name_max;
      fits = omega (arith, length-take ml msg, q.fits);
      size_max = omega (arith, length-take ml msg, q.size_max);
      name_end = rw cut (
          FoundAt-take 0 (drop header_size msg) (n + question_size) (n - 1) q.name_end
            (omega (arith, q.name_min)));
      one_question = omega (arith, at 4 (omega arith), at 5 (omega arith), q.one_question);
    }

-- An edit of the header that keeps the question count keeps the question.
pub HasQuestion-edit :
    (msg msg' : Bytes) (n : ℕ)
    → HasQuestion msg n
    → length msg' ≡ length msg
    → question_count msg' ≡ question_count msg
    → drop header_size msg' ≡ drop header_size msg
    → HasQuestion msg' n
HasQuestion-edit msg msg' n q len count behind = record {
  name_min = q.name_min;
  name_max = q.name_max;
  fits = omega (arith, q.fits, len);
  size_max = omega (arith, q.size_max, len);
  name_end = rw behind q.name_end;
  one_question = count ∙ q.one_question;
}

get_qnamelen-HasQuestion : (msg : Bytes) (n : ℕ) → HasQuestion msg n → get_qnamelen msg ≡ some n
unfolding get_qnamelen
get_qnamelen-HasQuestion msg n q =
    let found : memchr 0 (drop header_size msg) ≡ some (n - 1) =
      memchr-FoundAt 0 (drop header_size msg) (n - 1) q.name_end in
    let back : n - 1 + 1 ≡ n = omega (arith, q.name_min) in
    rw (lt→ltb 0 (length msg - header_size) (omega (arith, q.fits)), found, back)

-- `dns_empty_reply` keeps the question.
pub HasQuestion-empty_reply :
    (msg : Bytes) (n : ℕ) → HasQuestion msg n → HasQuestion (dns_empty_reply msg n).1 n
HasQuestion-empty_reply msg n q =
    let empty = (dns_empty_reply_header msg n (omega (arith, q.fits))).0 in
    HasQuestion-edit msg (dns_empty_reply msg n).1 n q empty.same_length empty.same_questions
      empty.same_behind

pub dns_empty_reply_len :
    (msg : Bytes) (n : ℕ) → HasQuestion msg n → (dns_empty_reply msg n).0 ≡ msg_minlen n
unfolding dns_empty_reply
dns_empty_reply_len msg n q =
    rw (lt→ltb 0 n (omega (arith, q.name_min))) (omega (arith, q.name_max))

-- A reply with one question that is not good (as tc is set) passes `dns_check_reply` whole.
dns_check_reply-truncated :
    (msg : Bytes) (n : ℕ)
    → HasQuestion msg n
    → header_qr msg ≡ qr_reply
    → header_tc msg ≡ 1
    → dns_check_reply msg false ≡ CheckedReply.good (set_ra 1 msg) none n (length msg)
unfolding dns_check_reply finish_reply rm_additional dns_is_good dns_is_tc
dns_check_reply-truncated msg n q qr tc =
    let small : length msg % 65536 ≡ length msg = omega (arith, q.size_max) in
    let some_len : length msg ≢ 0 = omega (arith, q.fits) in
    rw (
      dns_check_reply,
      check_msg-HasQuestion false false msg n q qr,
      tc,
      small,
      ==_ne (length msg) 0 some_len,
    )

-- A message with one question is truncated to a header of the same id, which marks a reply with tc set
-- and no records, and the bytes of its question as they were; the result passes `dns_check_reply`.
pub dns_truncate-dns_check_reply :
    (msg : Bytes) (n : ℕ)
    → HasQuestion msg n
    → (out : Bytes) × (dns_truncate msg ≡ some (msg_minlen n, out))
      × (length out ≡ msg_minlen n)
      × (header_tc out ≡ 1)
      × (get_records_count out ≡ 0)
      × (dns_get_id out ≡ dns_get_id msg)
      × (header_qr out ≡ qr_reply)
      × (drop header_size out ≡ take (n + question_size) (drop header_size msg))
      × (dns_check_reply out false ≡ CheckedReply.good (set_ra 1 out) none n (msg_minlen n))
unfolding dns_truncate dns_get_id
dns_truncate-dns_check_reply msg n q =
    let ml : ℕ = msg_minlen n in
    let kept : Bytes = take ml msg in
    let cut : Bytes = set_tc 1 kept in
    let out : Bytes = (dns_empty_reply cut n).1 in
    let kept_q = HasQuestion-take msg n q in
    let whole : header_size + (n + question_size) ≡ ml = omega arith in
    let behind : drop header_size kept ≡ take (n + question_size) (drop header_size msg) =
      ap (λ k. drop header_size (take k msg)) (sym whole)
      ∙ drop-take header_size (n + question_size) msg in
    let at = λ (i : ℕ) (ne : 2 ≢ i).
      get_or-set_ne kept 2 i (byte kept 2 / 4 * 4 + 1 * 2 + byte kept 2 % 2) 0 ne in
    let len : length cut ≡ ml = omega (
      arith,
      length-set kept 2 (byte kept 2 / 4 * 4 + 1 * 2 + byte kept 2 % 2),
      length-take ml msg,
      q.fits,
    ) in
    let cut_q =
      HasQuestion-edit kept cut n kept_q (length-set kept 2 _)
        (ap₂ (λ a b. a * 256 + b) (at 4 (omega arith)) (at 5 (omega arith)))
        (drop-set kept 2 header_size _ (omega arith)) in
    let (empty, _) = dns_empty_reply_header cut n (omega (arith, len)) in
    let size : length out ≡ ml = empty.same_length ∙ len in
    let tc : header_tc out ≡ 1 =
      empty.same_tc
      ∙ (let e =
            get_or-set_self kept 2 (byte kept 2 / 4 * 4 + 1 * 2 + byte kept 2 % 2) 0
              (omega (arith, length-take ml msg, q.fits)) in
          rw e (omega arith)) in
    let id : dns_get_id out ≡ dns_get_id msg =
      empty.same_id
      ∙ ap₂ (λ a b. a + b * 256) (at 0 (omega arith) ∙ get_or-take ml 0 msg 0 (omega arith))
          (at 1 (omega arith) ∙ get_or-take ml 1 msg 0 (omega arith)) in
    (
      out,
      rw (dns_truncate, get_qnamelen-HasQuestion msg n q)
          (ap (λ k. some (k, out)) (dns_empty_reply_len cut n cut_q)),
      size,
      tc,
      empty.no_records,
      id,
      empty.is_reply,
      empty.same_behind ∙ drop-set kept 2 header_size _ (omega arith) ∙ behind,
      dns_check_reply-truncated out n (HasQuestion-empty_reply cut n cut_q) empty.is_reply tc
          ∙ ap (CheckedReply.good (set_ra 1 out) none n) size,
    )
