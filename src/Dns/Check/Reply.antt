-- ===== src/Dns/Check/Reply.antt =====
-- `dns_check_reply` of src/dns.c against the form of a reply whose records are whole and counted.
use mathlib.Core.Path.{ap₂}
use chinadns_ng.Prelude.{
  ℕ, ◌+◌, ◌-◌, ◌*◌, ◌/◌, ◌%◌, ◌≤◌, ◌<◌, ◌≡◌, ◌≢◌, ◌⊎◌, refl, sym, ap, ◌∙◌, Bool, true, false, not,
  ◌&&◌, ◌||◌, Option, List, [], ◌++◌, arith, ◌==◌, if◌then◌else◌, length, take, drop, set,
  length-append, take-append, length-take, length-drop, Bool-cases, inl, inr, subst, drop-set,
  length-set, get_or-set_ne, get_or-set_self, drop-take, get_or-take, append-nil,
}
use chinadns_ng.Prelude.Words.{Bytes, byte}
use chinadns_ng.Dns.Header.{
  header_size, msg_maxsize, msg_minlen, rcode_noerror, rcode_nxdomain, header_rcode, header_tc,
  set_ra, set_count, dns_is_good, get_answer_count, get_authority_count, get_records_count,
}
use chinadns_ng.Dns.Record.{skip_record}
use chinadns_ng.Dns.Record.Grammar.{Rr, rr_bytes}
use chinadns_ng.Dns.Record.Walk.{AreFound, skip_record_sound}
use chinadns_ng.Dns.Check.{
  Checked, CheckedReply, check_msg, rm_additional, finish_reply, dns_check_reply,
}
use chinadns_ng.Dns.Check.Question.{HasQuestion, check_msg_sound}

-- A good message whose counts cover exactly the records behind its question.
pub record IsReply (msg : Bytes) (qnamelen : ℕ) (rs : List Rr) : Type 0 where
  pub fits : msg_minlen qnamelen ≤ length msg
  pub size_max : length msg ≤ msg_maxsize
  pub found : AreFound (get_records_count msg) (drop (msg_minlen qnamelen) msg) [] rs

-- The header behind the checks: no additional records, recursion available.
abbrev pub stripped : Bytes → Bytes
stripped msg = set_ra 1 (set_count 10 0 msg)

pub length-stripped : (msg : Bytes) → length (stripped msg) ≡ length msg
length-stripped msg =
    length-set (set_count 10 0 msg) 3 _ ∙ length-set (set msg 10 0) 11 0 ∙ length-set msg 10 0

pub drop-stripped : (msg : Bytes) (n : ℕ) → 11 < n → drop n (stripped msg) ≡ drop n msg
drop-stripped msg n h =
    drop-set (set_count 10 0 msg) 3 n _ (omega arith)
    ∙ drop-set (set msg 10 0) 11 n 0 h
    ∙ drop-set msg 10 n 0 (omega arith)

byte-stripped : (msg : Bytes) (i : ℕ) → 3 ≢ i → 10 ≢ i → 11 ≢ i → byte (stripped msg) i ≡ byte msg i
byte-stripped msg i a b c =
    get_or-set_ne (set_count 10 0 msg) 3 i _ 0 a
    ∙ get_or-set_ne (set msg 10 0) 11 i 0 0 c
    ∙ get_or-set_ne msg 10 i 0 0 b

byte_3-set_ra :
    (v : ℕ) (msg : Bytes) → 3 < length msg → byte (set_ra v msg) 3 ≡ v * 128 + byte msg 3 % 128
byte_3-set_ra v msg h = get_or-set_self msg 3 (v * 128 + byte msg 3 % 128) 0 h

-- `dns_is_good` sees tc and rcode only.
pub is_good-congr :
    (a b : Bytes)
    → header_tc a ≡ header_tc b
    → header_rcode a ≡ header_rcode b
    → dns_is_good a ≡ dns_is_good b
unfolding dns_is_good
is_good-congr a b t r = ap₂ (λ x y. not (x == 1) && (y == rcode_noerror || y == rcode_nxdomain)) t r

pub is_good-set_ra :
    (v : ℕ) (msg : Bytes) → 3 < length msg → dns_is_good (set_ra v msg) ≡ dns_is_good msg
is_good-set_ra v msg h =
    is_good-congr (set_ra v msg) msg
      (ap (λ b. b / 2 % 2) (get_or-set_ne msg 3 2 (v * 128 + byte msg 3 % 128) 0 (omega arith)))
      (let e = byte_3-set_ra v msg h in rw e (omega arith))

-- The count that `rm_additional` clears is not seen either.
is_good-set_count : (msg : Bytes) → dns_is_good (set_count 10 0 msg) ≡ dns_is_good msg
is_good-set_count msg =
    let at = λ (i : ℕ) (a : 10 ≢ i) (b : 11 ≢ i).
      get_or-set_ne (set msg 10 0) 11 i 0 0 b ∙ get_or-set_ne msg 10 i 0 0 a in
    is_good-congr (set_count 10 0 msg) msg (ap (λ b. b / 2 % 2) (at 2 (omega arith) (omega arith)))
      (ap (λ b. b % 16) (at 3 (omega arith) (omega arith)))

not_bad_reply :
    (b : Bool) (m : Bytes) (x : CheckedReply) {msg : Bytes} {name : Option Bytes} {n newlen : ℕ}
    → (if b then CheckedReply.bad m else x) ≡ CheckedReply.good msg name n newlen
    → (b ≡ false) × (x ≡ CheckedReply.good msg name n newlen)
not_bad_reply true m x h = cc
not_bad_reply false m x h = (refl, h)

-- The result of `finish_reply`, taken apart.
finish_reply_sound :
    (name0 : Option Bytes) (n0 : ℕ) (r : ℕ × Bytes) {msg : Bytes} {name : Option Bytes}
    {n newlen : ℕ}
    → finish_reply name0 n0 r ≡ CheckedReply.good msg name n newlen
    → (r.0 ≢ 0) × (msg ≡ set_ra 1 r.1) × (name ≡ name0) × (n ≡ n0) × (newlen ≡ r.0)
unfolding finish_reply
finish_reply_sound name0 n0 (len, m) h =
    let (nz, e) = not_bad_reply (len == 0) m (CheckedReply.good (set_ra 1 m) name0 n0 len) h in
    (ground arith, cc e, cc e, cc e, cc e)

bad_ne :
    {m msg : Bytes} {name : Option Bytes} {n newlen : ℕ}
    → CheckedReply.bad m ≡ CheckedReply.good msg name n newlen
    → ⊥
bad_ne h = cc

Checked-cases :
    (c : Checked)
    → ((m : Bytes) × (c ≡ Checked.bad m))
      ⊎ ((m : Bytes) × (name : Option Bytes) × (n : ℕ) × (c ≡ Checked.good m name n))
Checked-cases (Checked.bad m) = inl (m, refl)
Checked-cases (Checked.good m name n) = inr (m, name, n, refl)

-- `rm_additional` on a good message: either it fails, or the records are there.
rm_additional-good :
    (msg : Bytes) (n : ℕ)
    → dns_is_good msg ≡ true
    → (rm_additional msg n).0 ≢ 0
    → let walk =
        skip_record (get_answer_count msg + get_authority_count msg) (drop (msg_minlen n) msg) in
      (walk.result ≡ true)
      × (rm_additional msg n ≡ ((length msg - length walk.rest) % 65536, set_count 10 0 msg))
unfolding rm_additional
rm_additional-good msg n g h =
    let walk =
      skip_record (get_answer_count msg + get_authority_count msg) (drop (msg_minlen n) msg) in
    elim (Bool-cases walk.result) [ inl r ↦ (r, rw (g, r)) | inr r ↦ absurd (h (rw (g, r))) ]

-- The counts of the header as the check leaves it.
records_count-stripped :
    (msg : Bytes) (newlen : ℕ)
    → 11 < newlen
    → 11 < length msg
    → get_records_count (take newlen (stripped msg))
      ≡ get_answer_count msg + get_authority_count msg
unfolding get_records_count
records_count-stripped msg newlen h k =
    let at = λ (i : ℕ) (lt : i < newlen). get_or-take newlen i (stripped msg) 0 lt in
    let same = λ (i : ℕ) (lt : i < newlen) (a : 3 ≢ i) (b : 10 ≢ i) (c : 11 ≢ i).
      at i lt ∙ byte-stripped msg i a b c in
    let zero10 : byte (stripped msg) 10 ≡ 0 =
      get_or-set_ne (set_count 10 0 msg) 3 10 _ 0 (omega arith)
      ∙ get_or-set_ne (set msg 10 0) 11 10 0 0 (omega arith)
      ∙ get_or-set_self msg 10 0 0 (omega arith) in
    let zero11 : byte (stripped msg) 11 ≡ 0 =
      get_or-set_ne (set_count 10 0 msg) 3 11 _ 0 (omega arith)
      ∙ get_or-set_self (set msg 10 0) 11 0 0 (omega (arith, length-set msg 10 0)) in
    omega (
      arith,
      same 6 (omega arith) (omega arith) (omega arith) (omega arith),
      same 7 (omega arith) (omega arith) (omega arith) (omega arith),
      same 8 (omega arith) (omega arith) (omega arith) (omega arith),
      same 9 (omega arith) (omega arith) (omega arith) (omega arith),
      at 10 (omega arith),
      at 11 (omega arith),
      zero10,
      zero11,
    )

-- The records that `skip_record` walked over are what is left behind the question.
stripped-IsReply :
    (msg : Bytes) (n : ℕ) (rest : Bytes) (rs : List Rr)
    → msg_minlen n ≤ length msg
    → length msg ≤ msg_maxsize
    → AreFound (get_answer_count msg + get_authority_count msg) (drop (msg_minlen n) msg) rest rs
    → (length msg - length rest ≤ length msg)
      × IsReply (take (length msg - length rest) (stripped msg)) n rs
stripped-IsReply msg n rest rs fits max (len, v, e) =
    let ml : ℕ = msg_minlen n in
    let l : ℕ = length (rr_bytes rs) in
    let newlen : ℕ = length msg - length rest in
    let kept : newlen ≡ ml + l =
      omega (arith, ap length e, length-append (rr_bytes rs) rest, length-drop ml msg) in
    let size : length (take newlen (stripped msg)) ≡ newlen =
      omega (arith, length-take newlen (stripped msg), length-stripped msg) in
    let body : drop ml (take newlen (stripped msg)) ≡ rr_bytes rs ++ [] =
      ap (λ k. drop ml (take k (stripped msg))) kept
      ∙ drop-take ml l (stripped msg)
      ∙ ap (take l) (drop-stripped msg ml (omega arith) ∙ e)
      ∙ take-append (rr_bytes rs) rest l refl
      ∙ sym (append-nil (rr_bytes rs)) in
    (
      omega arith,
      record {
        fits = omega arith;
        size_max = omega arith;
        found =
            (len ∙ sym (records_count-stripped msg newlen (omega arith) (omega arith)), v, body);
      },
    )

rm_additional-is_good :
    (msg : Bytes) (n : ℕ)
    → 3 < length msg
    → dns_is_good (set_ra 1 (rm_additional msg n).1) ≡ dns_is_good msg
unfolding rm_additional
rm_additional-is_good msg n h =
    let walk =
      skip_record (get_answer_count msg + get_authority_count msg) (drop (msg_minlen n) msg) in
    let long : 3 < length (set_count 10 0 msg) =
      omega (arith, length-set (set msg 10 0) 11 0, length-set msg 10 0) in
    elim (Bool-cases (dns_is_good msg)) [
      | inr b ↦ rw b (is_good-set_ra 1 msg h ∙ b)
      | inl g ↦ elim (Bool-cases walk.result) [
        | inl r ↦ rw (g, r) (is_good-set_ra 1 (set_count 10 0 msg) long ∙ is_good-set_count msg ∙ g)
        | inr r ↦ rw (g, r) (is_good-set_ra 1 msg h ∙ g)
      ]
    ]

-- What an accepted reply `msg'` with `newlen` is, for the message `msg` that came in.
abbrev pub IsKept : Bytes → Bytes → ℕ → ℕ → Type 0
IsKept msg msg' n newlen =
    (newlen ≤ length msg)
    × (length msg' ≡ length msg)
    × (drop header_size msg' ≡ drop header_size msg)
    × HasQuestion msg n
    × ((rs : List Rr) × IsReply (take newlen msg') n rs)

rm_additional-IsKept :
    (msg : Bytes) (n : ℕ)
    → HasQuestion msg n
    → dns_is_good msg ≡ true
    → (rm_additional msg n).0 ≢ 0
    → IsKept msg (set_ra 1 (rm_additional msg n).1) n (rm_additional msg n).0
rm_additional-IsKept msg n q g nz =
    let walk =
      skip_record (get_answer_count msg + get_authority_count msg) (drop (msg_minlen n) msg) in
    let (r, e) = rm_additional-good msg n g nz in
    let (rs, found) =
      skip_record_sound (get_answer_count msg + get_authority_count msg) (drop (msg_minlen n) msg)
        r in
    let (le, reply) = stripped-IsReply msg n walk.rest rs q.fits q.size_max found in
    let small : (length msg - length walk.rest) % 65536 ≡ length msg - length walk.rest =
      omega (arith, q.size_max) in
    rw (e, small)
      (le, length-stripped msg, drop-stripped msg header_size (omega arith), q, (rs, reply))

-- A reply that `dns_check_reply` accepts with a good rcode and without tc is, cut to the new
-- length, a header, one question and exactly the well-formed records that its counts announce; the
-- bytes behind the header are those that came in.
pub dns_check_reply-IsKept :
    (msg : Bytes) (want_name : Bool) {msg' : Bytes} {name : Option Bytes} {n newlen : ℕ}
    → dns_check_reply msg want_name ≡ CheckedReply.good msg' name n newlen
    → dns_is_good msg' ≡ true
    → IsKept msg msg' n newlen
unfolding dns_check_reply
dns_check_reply-IsKept msg want_name {msg'} {name} {n} {newlen} h g =
    elim (Checked-cases (check_msg false msg want_name)) [
      | inl (m, e) ↦ absurd (bad_ne (rw (dns_check_reply, e) at h))
      | inr (m, name0, n0, e) ↦
          let (same, question, _, _) = check_msg_sound false want_name msg e in
          let same' : m ≡ msg = same in
          let (nz, em, _, en, el) =
            finish_reply_sound name0 n0 (rm_additional m n0) (rw (dns_check_reply, e) at h) in
          let good : dns_is_good m ≡ true =
            sym (rm_additional-is_good m n0 (omega (arith, question.fits)))
            ∙ ap dns_is_good (sym em)
            ∙ g in
          subst (λ o. IsKept o msg' n newlen) same'
            (rw (em, en, el) (rm_additional-IsKept m n0 question good nz))
    ]
