-- ===== src/Dnl/Accepted.antt =====
-- `check_name` of src/dnl.c against the labels of a name.
use mathlib.Core.Option.{some-injective}
use chinadns_ng.Prelude.{
  ℕ, zero, suc, ◌+◌, ◌≤◌, ◌<◌, ◌≡◌, ◌≢◌, ◌⊎◌, inl, inr, refl, sym, ap, ◌∙◌, subst, false, none,
  some, List, [], ◌∷◌, ◌++◌, arith, ltb, ◌==◌, length, take, drop, All, take-append-drop,
  Bool-cases, Option-cases, ==_iff, none_ne, ltb→le, ltb→lt,
}
use chinadns_ng.Prelude.Words.{Bytes, byte, drop-byte}
use chinadns_ng.Dns.Header.{label_maxlen}
use chinadns_ng.Dns.Name.Labels.{IsLabel, HasNoDot, dot_labels, dotted}
use chinadns_ng.Dnl.{max_name_level, Levels, check_loop, is_refused, note_level, check_name}

-- `rest` is a label under way, of `label_len` bytes, and whole labels behind it; `level` counts all.
abbrev IsScanned : Bytes → ℕ → ℕ → Type 0
IsScanned rest label_len level =
    (l : Bytes) × (ls : List Bytes) × (rest ≡ l ++ dot_labels ls)
    × (length l ≡ label_len)
    × (label_len ≤ label_maxlen)
    × HasNoDot l
    × All IsLabel ls
    × All HasNoDot ls
    × (level ≡ length (l ∷ ls))

-- Nothing is cut off, or whole labels with their dot, which leaves eight.
abbrev pub IsCut : Bytes → ℕ → Type 0
IsCut front level =
    (front ≡ []) ⊎ ((before : Bytes) × (front ≡ before ++ b'.' ∷ []) × (level ≡ max_name_level))

-- A name of labels of 1 to 63 bytes without dots, at most eight: the name that was read, or its last
-- eight labels behind a dot.
abbrev pub IsAccepted : Bytes → Bytes → ℕ → Type 0
IsAccepted name kept level =
    (ls : List Bytes) × (kept ≡ dotted ls)
    × All IsLabel ls
    × All HasNoDot ls
    × (level ≡ length ls)
    × (1 ≤ level)
    × (level ≤ max_name_level)
    × ((front : Bytes) × (name ≡ front ++ kept) × IsCut front level)

IsScanned-IsAccepted :
    (name : Bytes) (i label_len level : ℕ)
    → IsScanned (drop i name) label_len level
    → 1 ≤ label_len
    → level ≤ max_name_level
    → IsCut (take i name) level
    → IsAccepted name (drop i name) level
IsScanned-IsAccepted name i label_len level (l, ls, e, len, le, nd, v, nds, count) some_len few
      cut =
    (
      l ∷ ls,
      e,
      ((omega (arith, len), omega (arith, len)), v),
      (nd, nds),
      count,
      omega (arith, count),
      few,
      (take i name, sym (take-append-drop i name), cut),
    )

-- One more byte of the label under way.
IsScanned-char :
    (name : Bytes) (i label_len level : ℕ)
    → i < length name
    → byte name i ≢ b'.'
    → label_len + 1 ≤ label_maxlen
    → IsScanned (drop (suc i) name) label_len level
    → IsScanned (drop i name) (label_len + 1) level
IsScanned-char name i label_len level lt ne room (l, ls, e, len, le, nd, v, nds, count) = (
  byte name i ∷ l,
  ls,
  drop-byte name i lt ∙ ap (λ t. byte name i ∷ t) e,
  omega (arith, len),
  room,
  (ne, nd),
  v,
  nds,
  count,
)

-- A dot ends the label.
IsScanned-dot :
    (name : Bytes) (i label_len level : ℕ)
    → i < length name
    → byte name i ≡ b'.'
    → 1 ≤ label_len
    → IsScanned (drop (suc i) name) label_len level
    → IsScanned (drop i name) 0 (level + 1)
IsScanned-dot name i label_len level lt dot some_len (l, ls, e, len, le, nd, v, nds, count) = (
  [],
  l ∷ ls,
  drop-byte name i lt ∙ ap (λ c. c ∷ drop (suc i) name) dot ∙ ap (λ t. b'.' ∷ t) e,
  refl,
  omega arith,
  tt,
  ((omega (arith, len), omega (arith, len)), v),
  (nd, nds),
  omega (arith, count),
)

take-suc :
    (name : Bytes) (i : ℕ) → i < length name → take (suc i) name ≡ take i name ++ byte name i ∷ []
take-suc [] i lt = absurd (omega arith)
take-suc (c ∷ name) zero lt = refl
take-suc (c ∷ name) (suc i) lt = ap (λ t. c ∷ t) (take-suc name i (omega arith))

check_loop_sound :
    (name : Bytes) (i label_len level : ℕ) (p : Bytes × ℕ)
    → i ≤ length name
    → (i ≡ 0 → 1 ≤ label_len)
    → byte name 0 ≢ b'.'
    → level ≤ max_name_level
    → IsScanned (drop i name) label_len level
    → check_loop name i label_len level ≡ some p
    → IsAccepted name p.0 p.1
unfolding check_loop
check_loop_sound name zero label_len level p le first ne few scanned h =
    subst (λ q. IsAccepted name q.0 q.1) (some-injective (name, level) p h)
      (IsScanned-IsAccepted name 0 label_len level scanned (first refl) few (inl refl))
check_loop_sound name (suc i) label_len level p le first ne few scanned h =
    let some_scanned : 1 ≤ label_len
        → level ≤ max_name_level
        → IsCut (take (suc i) name) level
        → IsAccepted name (drop (suc i) name) level =
      IsScanned-IsAccepted name (suc i) label_len level scanned in
    elim (Bool-cases (byte name i == b'.')) [
      | inl e ↦
          let dot : byte name i ≡ b'.' = (==_iff (byte name i) b'.').0 e in
          elim (Bool-cases (ltb label_len 1)) [
            | inl empty ↦ absurd (none_ne (rw (e, empty) at h))
            | inr full ↦
                let some_len : 1 ≤ label_len = ltb→le label_len 1 full in
                elim (Bool-cases (ltb max_name_level (level + 1))) [
                  | inl deep ↦
                      subst (λ q. IsAccepted name q.0 q.1)
                        (some-injective (drop (suc i) name, level) p (rw (e, full, deep) at h))
                        (some_scanned some_len few (
                          inr (
                            take i name,
                            take-suc name i (omega arith) ∙ ap (λ c. take i name ++ c ∷ []) dot,
                            omega (arith, few, ltb→lt max_name_level (level + 1) deep),
                          )))
                  | inr more ↦
                      check_loop_sound name i 0 (level + 1) p (omega arith)
                        (λ z. absurd (ne (ap (byte name) (sym z) ∙ dot))) ne
                        (ltb→le max_name_level (level + 1) more)
                        (IsScanned-dot name i label_len level (omega arith) dot some_len scanned)
                        (rw (e, full, more) at h)
                ]
          ]
      | inr e ↦ elim (Bool-cases (ltb label_maxlen (label_len + 1))) [
        | inl long ↦ absurd (none_ne (rw (e, long) at h))
        | inr room ↦
            let other : byte name i ≢ b'.' = ground arith in
            check_loop_sound name i (label_len + 1) level p (omega arith) (λ z. omega arith) ne few
              (IsScanned-char name i label_len level (omega arith) other
                (ltb→le label_maxlen (label_len + 1) room) scanned)
              (rw (e, room) at h)
      ]
    ]

drop-length : (name : Bytes) → drop (length name) name ≡ []
drop-length [] = refl
drop-length (c ∷ name) = drop-length name

is_refused-false :
    (name : Bytes) → is_refused name ≡ false → (1 ≤ length name) × (byte name 0 ≢ b'.')
unfolding is_refused
is_refused-false name h = ground arith

IsScanned-end : (name : Bytes) → IsScanned (drop (length name) name) 0 1
IsScanned-end name = ([], [], drop-length name, refl, omega arith, tt, tt, tt, refl)

-- `check_name` either refuses the name and changes no level, or gives labels of 1 to 63 bytes that are
-- the whole name or its last eight labels, and notes their number.
pub check_name-IsAccepted :
    (levels : Levels) (name : Bytes)
    → let (result, levels') = check_name levels name in
      ((result ≡ none) × (levels' ≡ levels))
      ⊎ ((kept : Bytes) × (level : ℕ) × (result ≡ some kept)
          × (levels' ≡ note_level levels level)
          × IsAccepted name kept level)
unfolding check_name
check_name-IsAccepted levels name = elim (Bool-cases (is_refused name)) [
  | inl refused ↦ rw (check_name, refused) (inl (refl, refl))
  | inr passed ↦ elim (Option-cases (check_loop name (length name) 0 1)) [
    | inl stop ↦ rw (check_name, passed, stop) (inl (refl, refl))
    | inr (p, found) ↦
        let (some_char, no_dot) = is_refused-false name passed in
        rw (check_name, passed, found)
          (inr (
            p.0,
            p.1,
            refl,
            refl,
            check_loop_sound name (length name) 0 1 p (omega arith)
                (λ e. omega (arith, some_char, e)) no_dot (omega arith) (IsScanned-end name) found,
          ))
  ]
]
