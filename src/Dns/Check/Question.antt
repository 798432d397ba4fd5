-- ===== src/Dns/Check/Question.antt =====
-- `check_msg` of src/dns.c against the form of a message with one question.
use mathlib.Core.Path.{ap₂}
use chinadns_ng.Prelude.{
  ℕ, suc, ◌+◌, ◌-◌, ◌*◌, ◌/◌, ◌%◌, ◌≤◌, ◌<◌, ◌≡◌, ◌≢◌, refl, sym, ap, ◌∙◌, Bool, true, false, not,
  ◌&&◌, ◌||◌, Option, none, some, arith, tests, ltb, ◌==◌, if◌then◌else◌, length, take, drop,
  length-take, le→ltb, Bool-cases, Option-cases, inl, inr, subst, drop-set, length-set,
  get_or-set_ne, get_or-set_self, ==_iff,
}
use chinadns_ng.Prelude.Words.{Bytes, byte}
use chinadns_ng.Dns.Header.{
  header_size, question_size, msg_minsize, msg_maxsize, msg_minlen, name_wire_minlen,
  name_wire_maxlen, qr_query, qr_reply, header_qr, header_tc, question_count, set_tc,
}
use chinadns_ng.Dns.Name.{memchr, decode_name}
use chinadns_ng.Dns.Name.Encode.{FoundAt, memchr_sound, memchr-append}
use chinadns_ng.Dns.Check.{
  Checked, bad, good, question_name, check_remaining, check_question, check_msg,
}

-- A header and one question whose name takes `qnamelen` bytes up to and with its first null byte.
pub record HasQuestion (msg : Bytes) (qnamelen : ℕ) : Type 0 where
  pub name_min : name_wire_minlen ≤ qnamelen
  pub name_max : qnamelen ≤ name_wire_maxlen
  pub fits : msg_minlen qnamelen ≤ length msg
  pub size_max : length msg ≤ msg_maxsize
  pub name_end : FoundAt 0 (drop header_size msg) (qnamelen - 1)
  pub one_question : question_count msg ≡ 1

pub not_bad :
    (b : Bool) (m : Bytes) (x : Checked) {msg : Bytes} {name : Option Bytes} {n : ℕ}
    → (if b then bad m else x) ≡ good msg name n
    → (b ≡ false) × (x ≡ good msg name n)
not_bad true m x h = cc
not_bad false m x h = (refl, h)

check_remaining_sound :
    (msg : Bytes) (qnamelen : ℕ) (found : Option (Option Bytes)) {msg' : Bytes}
    {name : Option Bytes} {n : ℕ}
    → check_remaining msg qnamelen found ≡ good msg' name n
    → (msg' ≡ msg)
      × (n ≡ qnamelen)
      × (found ≡ some name)
      × (question_size ≤ length msg - header_size - qnamelen)
unfolding check_remaining
check_remaining_sound msg qnamelen none h = cc
check_remaining_sound msg qnamelen (some a) h = ground arith

or_false : (a b : Bool) → a || b ≡ false → (a ≡ false) × (b ≡ false)
or_false a b h = ground arith

check_question_sound :
    (msg : Bytes) (want_name : Bool) (p : Option ℕ) {msg' : Bytes} {name : Option Bytes} {n : ℕ}
    → check_question msg want_name p ≡ good msg' name n
    → (msg' ≡ msg)
      × (p ≡ some (n - 1))
      × (name_wire_minlen ≤ n)
      × (n ≤ name_wire_maxlen)
      × (question_size ≤ length msg - header_size - n)
      × (question_name want_name (take n (drop header_size msg)) ≡ some name)
unfolding check_question
check_question_sound msg want_name none h = cc
check_question_sound msg want_name (some k) {n} h =
    let found = question_name want_name (take (k + 1) (drop header_size msg)) in
    let (range, rest) =
      not_bad (ltb (k + 1) name_wire_minlen || ltb name_wire_maxlen (k + 1)) msg
        (check_remaining msg (k + 1) found) h in
    let (same, size, named, room) = check_remaining_sound msg (k + 1) found rest in
    (
      same,
      ap some (omega (arith, size)),
      omega (arith, size),
      omega (
        tests,
        size,
        (or_false (ltb (k + 1) name_wire_minlen) (ltb name_wire_maxlen (k + 1)) range).1,
      ),
      omega (arith, size, room),
      ap (λ k. question_name want_name (take k (drop header_size msg))) size ∙ named,
    )

-- The header as the check leaves it: a query's tc flag is cleared, nothing else changes.
abbrev pub cleared : Bool → Bytes → Bytes
cleared is_query msg = if is_query && header_tc msg == 1 then set_tc 0 msg else msg

length-cleared : (is_query : Bool) (msg : Bytes) → length (cleared is_query msg) ≡ length msg
length-cleared is_query msg = elim (Bool-cases (is_query && header_tc msg == 1)) [
  | inl c ↦ rw c (length-set msg 2 _)
  | inr c ↦ rw c
]

drop-cleared :
    (is_query : Bool) (msg : Bytes) (n : ℕ) → 2 < n → drop n (cleared is_query msg) ≡ drop n msg
drop-cleared is_query msg n h = elim (Bool-cases (is_query && header_tc msg == 1)) [
  | inl c ↦ rw c (drop-set msg 2 n _ h)
  | inr c ↦ rw c
]

byte-cleared :
    (is_query : Bool) (msg : Bytes) (i : ℕ) → 2 ≢ i → byte (cleared is_query msg) i ≡ byte msg i
byte-cleared is_query msg i h = elim (Bool-cases (is_query && header_tc msg == 1)) [
  | inl c ↦ rw c (get_or-set_ne msg 2 i _ 0 h)
  | inr c ↦ rw c
]

qr-cleared :
    (is_query : Bool) (msg : Bytes)
    → 2 < length msg
    → header_qr (cleared is_query msg) ≡ header_qr msg
qr-cleared is_query msg h = elim (Bool-cases (is_query && header_tc msg == 1)) [
  | inl c ↦
      rw (c, get_or-set_self msg 2 (byte msg 2 / 4 * 4 + 0 * 2 + byte msg 2 % 2) 0 h) (omega arith)
  | inr c ↦ rw c
]

not-false : (b : Bool) → not b ≡ false → b ≡ true
not-false b h = ground arith

-- A message that `check_msg` accepts has the direction asked for, one question with its name
-- decoded if wanted, and is left as it came but for a query's tc flag.
pub check_msg_sound :
    (is_query want_name : Bool) (msg : Bytes) {msg' : Bytes} {name : Option Bytes} {n : ℕ}
    → check_msg is_query msg want_name ≡ good msg' name n
    → (msg' ≡ cleared is_query msg)
      × HasQuestion msg' n
      × (header_qr msg' ≡ (if is_query then qr_query else qr_reply))
      × (question_name want_name (take n (drop header_size msg')) ≡ some name)
unfolding check_msg
check_msg_sound is_query want_name msg {n} h =
    let low : Bool = ltb (length msg) msg_minsize in
    let high : Bool = ltb msg_maxsize (length msg) in
    let direction : ℕ = if is_query then qr_query else qr_reply in
    let m : Bytes = cleared is_query msg in
    let check = check_question m want_name (memchr 0 (drop header_size m)) in
    let (size, h1) =
      not_bad (low || high) msg
        (if not (header_qr msg == direction)
          then bad msg
          else if not (question_count msg == 1)
          then bad msg
          else check)
        h in
    let (qr, h2) =
      not_bad (not (header_qr msg == direction)) msg
        (if not (question_count msg == 1) then bad msg else check) h1 in
    let (count, h3) = not_bad (not (question_count msg == 1)) msg check h2 in
    let (same, found, lo, hi, room, named) =
      check_question_sound m want_name (memchr 0 (drop header_size m)) h3 in
    let (size0, size1) = or_false low high size in
    let len : length m ≡ length msg = length-cleared is_query msg in
    let asked : question_count msg ≡ 1 =
      (==_iff (question_count msg) 1).0 (not-false (question_count msg == 1) count) in
    let directed : header_qr m ≡ direction =
      qr-cleared is_query msg (omega (tests, size0))
      ∙ (==_iff (header_qr msg) direction).0 (not-false (header_qr msg == direction) qr) in
    (
      same,
      rw same (record {
        name_min = lo;
        name_max = hi;
        fits = omega (tests, size0, room);
        size_max = omega (tests, size1, len);
        name_end = memchr_sound 0 (drop header_size m) found;
        one_question =
            ap₂ (λ a b. a * 256 + b) (byte-cleared is_query msg 4 (omega arith))
              (byte-cleared is_query msg 5 (omega arith))
            ∙ asked;
      }),
      rw same directed,
      rw same named,
    )

-- `memchr` finds the first byte where it is.
pub memchr-FoundAt : (c : ℕ) (xs : Bytes) (i : ℕ) → FoundAt c xs i → memchr c xs ≡ some i
memchr-FoundAt c xs i (lt, e, before) =
    ap (memchr c) e
    ∙ memchr-append c (take i xs) (drop (suc i) xs) before
    ∙ ap some (omega (arith, length-take i xs))

-- What is made of a message with a question: it is refused where its name is asked for and is
-- not one.
abbrev pub by_name : Bytes → ℕ → Bool → Option Bytes → Checked
by_name msg n false decoded = good msg none n
by_name msg n true none = bad msg
by_name msg n true (some name) = good msg (some name) n

check_remaining-by_name :
    (msg : Bytes) (n : ℕ) (want_name : Bool) (qname : Bytes)
    → ltb (length msg - header_size - n) question_size ≡ false
    → check_remaining msg n (question_name want_name qname)
      ≡ by_name msg n want_name (decode_name qname)
unfolding check_remaining question_name
check_remaining-by_name msg n false qname room = rw room refl
check_remaining-by_name msg n true qname room = elim (Option-cases (decode_name qname)) [
  | inl other ↦ rw (question_name, other) refl
  | inr (name, found) ↦ rw (question_name, found, room) refl
]

check_question-by_name :
    (msg : Bytes) (want_name : Bool) (n : ℕ)
    → name_wire_minlen ≤ n
    → n ≤ name_wire_maxlen
    → msg_minlen n ≤ length msg
    → check_question msg want_name (some (n - 1))
      ≡ by_name msg n want_name (decode_name (take n (drop header_size msg)))
unfolding check_question
check_question-by_name msg want_name n lo hi fits =
    let back : n - 1 + 1 ≡ n = omega (arith, lo) in
    rw (check_question, back, le→ltb n name_wire_minlen lo, le→ltb name_wire_maxlen n hi)
      (check_remaining-by_name msg n want_name (take n (drop header_size msg))
        (le→ltb (length msg - header_size - n) question_size (omega (arith, fits))))

-- The converse: a message with one question and the right direction is accepted if its name is not
-- asked for or decodes, and refused if its name is asked for and does not decode.
pub check_msg-HasQuestion :
    (is_query want_name : Bool) (msg : Bytes) (n : ℕ)
    → HasQuestion msg n
    → header_qr msg ≡ (if is_query then qr_query else qr_reply)
    → check_msg is_query msg want_name
      ≡ by_name (cleared is_query msg) n want_name (decode_name (take n (drop header_size msg)))
unfolding check_msg
check_msg-HasQuestion is_query want_name msg n q direction =
    let m : Bytes = cleared is_query msg in
    let at : memchr 0 (drop header_size m) ≡ some (n - 1) =
      memchr-FoundAt 0 (drop header_size m) (n - 1) (
        subst (λ t. FoundAt 0 t (n - 1)) (sym (drop-cleared is_query msg header_size (omega arith)))
          q.name_end) in
    rw
      (
        le→ltb (length msg) msg_minsize (omega (arith, q.fits, q.name_min)),
        le→ltb msg_maxsize (length msg) q.size_max,
        (==_iff (header_qr msg) (if is_query then qr_query else qr_reply)).1 direction,
        (==_iff (question_count msg) 1).1 q.one_question,
        at,
      )
      (check_question-by_name m want_name n q.name_min q.name_max
          (omega (arith, length-cleared is_query msg, q.fits))
        ∙ ap (λ t. by_name m n want_name (decode_name (take n t)))
            (drop-cleared is_query msg header_size (omega arith)))
