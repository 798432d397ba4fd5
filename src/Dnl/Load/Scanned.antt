-- ===== src/Dnl/Load/Scanned.antt =====
-- The loop of `check_name` in src/dnl.c on a name of valid labels: its last label, and the labels in
-- front of it, the nearest one first.
use chinadns_ng.Prelude.{
  ℕ, suc, ◌+◌, ◌≤◌, ◌<◌, ◌≡◌, ◌≢◌, inl, inr, refl, sym, ap, ◌∙◌, subst, some, List, [], ◌∷◌, ◌++◌,
  arith, ltb, length, drop, All, append_assoc, length-append, Bool-cases, ==_ne, le→ltb,
}
use chinadns_ng.Prelude.Words.{Bytes, byte-middle}
use chinadns_ng.Dns.Header.{label_maxlen}
use chinadns_ng.Dns.Name.Labels.{IsLabel, HasNoDot}
use chinadns_ng.Dnl.{max_name_level, check_loop}

-- The labels in front, each with its dot.
abbrev pub fronts : List Bytes → Bytes
fronts [] = []
fronts (l ∷ ls) = fronts ls ++ (l ++ b'.' ∷ [])

-- One byte of a label.
check_loop-char :
    (before tail : Bytes) (c label_len level : ℕ)
    → c ≢ b'.'
    → label_len + 1 ≤ label_maxlen
    → check_loop (before ++ c ∷ tail) (suc (length before)) label_len level
      ≡ check_loop (before ++ c ∷ tail) (length before) (label_len + 1) level
unfolding check_loop
check_loop-char before tail c label_len level ne room =
    rw (byte-middle before tail c, ==_ne c b'.' ne, le→ltb label_maxlen (label_len + 1) room) refl

-- A label is scanned from its end.
pub check_loop-label :
    (before l tail : Bytes) (label_len level : ℕ)
    → HasNoDot l
    → label_len + length l ≤ label_maxlen
    → check_loop (before ++ (l ++ tail)) (length before + length l) label_len level
      ≡ check_loop (before ++ (l ++ tail)) (length before) (label_len + length l) level
check_loop-label before [] tail label_len level v room =
    let same : length before + 0 ≡ length before = omega arith in
    let none_more : label_len ≡ label_len + 0 = omega arith in
    ap (λ i. check_loop (before ++ tail) i label_len level) same
    ∙ ap (λ n. check_loop (before ++ tail) (length before) n level) none_more
check_loop-label before (c ∷ l) tail label_len level v room =
    let name : Bytes = before ++ c ∷ (l ++ tail) in
    let one : Bytes = before ++ c ∷ [] in
    let split : one ++ (l ++ tail) ≡ name = append_assoc before (c ∷ []) (l ++ tail) in
    let size : length one ≡ suc (length before) = omega (arith, length-append before (c ∷ [])) in
    let from : length before + suc (length l) ≡ length one + length l = omega (arith, size) in
    let total : label_len + length l + 1 ≡ label_len + suc (length l) = omega arith in
    ap (λ i. check_loop name i label_len level) from
    ∙ subst
        (λ t.
          check_loop t (length one + length l) label_len level
          ≡ check_loop t (length one) (label_len + length l) level)
        split (check_loop-label one l tail label_len level v.1 (omega (arith, room)))
    ∙ ap (λ i. check_loop name i (label_len + length l) level) size
    ∙ check_loop-char before (l ++ tail) c (label_len + length l) level v.0 (omega (arith, room))
    ∙ ap (λ n. check_loop name (length before) n level) total

-- A dot behind a label that is not empty.
check_loop-dot :
    (before tail : Bytes) (label_len level : ℕ)
    → 1 ≤ label_len
    → level < max_name_level
    → check_loop (before ++ b'.' ∷ tail) (suc (length before)) label_len level
      ≡ check_loop (before ++ b'.' ∷ tail) (length before) 0 (level + 1)
unfolding check_loop
check_loop-dot before tail label_len level some_len few =
    rw
      (
        byte-middle before tail b'.',
        le→ltb label_len 1 some_len,
        le→ltb max_name_level (level + 1) (omega (arith, few)),
      )
      refl

check_loop-deep :
    (before tail : Bytes) (label_len : ℕ)
    → 1 ≤ label_len
    → check_loop (before ++ b'.' ∷ tail) (suc (length before)) label_len max_name_level
      ≡ some (drop (suc (length before)) (before ++ b'.' ∷ tail), max_name_level)
unfolding check_loop
check_loop-deep before tail label_len some_len =
    rw (byte-middle before tail b'.', le→ltb label_len 1 some_len) refl

-- The loop accepts behind a label that is not empty, whatever is in front.
abbrev pub IsFound : Bytes → ℕ → ℕ → ℕ → Type 0
IsFound name i label_len level =
    (kept : Bytes) × (level' : ℕ) × (check_loop name i label_len level ≡ some (kept, level'))

pub IsFound-fronts :
    (ls : List Bytes) (tail : Bytes) (label_len level : ℕ)
    → All IsLabel ls
    → All HasNoDot ls
    → 1 ≤ label_len
    → level ≤ max_name_level
    → IsFound (fronts ls ++ tail) (length (fronts ls)) label_len level
unfolding check_loop
IsFound-fronts [] tail label_len level v nd some_len few = (tail, level, refl)
IsFound-fronts (l ∷ ls) tail label_len level v nd some_len few =
    let before : Bytes = fronts ls ++ l in
    let name : Bytes = fronts ls ++ (l ++ b'.' ∷ tail) in
    let split : fronts (l ∷ ls) ++ tail ≡ before ++ b'.' ∷ tail =
      append_assoc (fronts ls) (l ++ b'.' ∷ []) tail
      ∙ ap (λ t. fronts ls ++ t) (append_assoc l (b'.' ∷ []) tail)
      ∙ sym (append_assoc (fronts ls) l (b'.' ∷ tail)) in
    let size : length (fronts (l ∷ ls)) ≡ suc (length before) = omega (
      arith,
      length-append (fronts ls) (l ++ b'.' ∷ []),
      length-append l (b'.' ∷ []),
      length-append (fronts ls) l,
    ) in
    let start =
      ap (λ t. check_loop t (length (fronts (l ∷ ls))) label_len level) split
      ∙ ap (λ i. check_loop (before ++ b'.' ∷ tail) i label_len level) size in
    elim (Bool-cases (ltb level max_name_level)) [
      | inr deep ↦
          let full : level ≡ max_name_level = ground arith in
          (
            drop (suc (length before)) (before ++ b'.' ∷ tail),
            max_name_level,
            start
                ∙ ap (check_loop (before ++ b'.' ∷ tail) (suc (length before)) label_len) full
                ∙ check_loop-deep before tail label_len some_len,
          )
      | inl room ↦
          let some_room : level < max_name_level = ground arith in
          let (kept, level', found) =
            IsFound-fronts ls (l ++ b'.' ∷ tail) (0 + length l) (level + 1) v.1 nd.1
              (omega (arith, v.0.0)) (omega (arith, some_room)) in
          (
            kept,
            level',
            start
                ∙ check_loop-dot before tail label_len level some_len some_room
                ∙ ap (λ t. check_loop t (length before) 0 (level + 1))
                    (append_assoc (fronts ls) l (b'.' ∷ tail))
                ∙ ap (λ i. check_loop name i 0 (level + 1)) (length-append (fronts ls) l)
                ∙ check_loop-label (fronts ls) l (b'.' ∷ tail) 0 (level + 1) nd.0
                    (omega (arith, v.0.1))
                ∙ found,
          )
    ]
