-- ===== src/Dnl/Load/Checked.antt =====
-- `check_name` of src/dnl.c: which names it accepts, and the set of levels behind it.
use chinadns_ng.Prelude.{
  ℕ, suc, ◌+◌, ◌-◌, ◌≤◌, ◌<◌, ◌≡◌, ◌≢◌, ◌⊎◌, inl, inr, refl, sym, ap, ◌∙◌, subst, true, none, some,
  List, [], ◌∷◌, ◌++◌, arith, ◌==◌, if◌then◌else◌, length, All, max, append_assoc, length-append,
  ==_ne, none_ne, le→ltb, append-nil,
}
use chinadns_ng.Prelude.Words.{Bytes, byte}
use chinadns_ng.Dns.Name.Labels.{IsLabel, HasNoDot}
use chinadns_ng.Dnl.{Levels, check_loop, is_refused, note_level, check_name}
use chinadns_ng.Dnl.Accepted.{IsAccepted, check_name-IsAccepted}
use chinadns_ng.Dnl.Suffix.{has_interest}
use chinadns_ng.Dnl.Load.Noted.{bit_or-bit, has_interest-note_level}
use chinadns_ng.Dnl.Load.Scanned.{fronts, check_loop-label, IsFound-fronts}

-- A name that is not a comment: valid labels without dots, one at least.
abbrev pub IsDomain : Bytes → Type 0
IsDomain name =
    (l : Bytes) × (ls : List Bytes) × (name ≡ fronts ls ++ l)
    × All IsLabel (l ∷ ls)
    × All HasNoDot (l ∷ ls)
    × (byte name 0 ≢ b'#')

byte-fronts :
    (ls : List Bytes) (tail : Bytes)
    → All IsLabel ls
    → All HasNoDot ls
    → byte tail 0 ≢ b'.'
    → byte (fronts ls ++ tail) 0 ≢ b'.'
byte-fronts [] tail v nd ne = ne
byte-fronts ([] ∷ ls) tail v nd ne = absurd (omega (arith, v.0.0))
byte-fronts ((c ∷ l) ∷ ls) tail v nd ne =
    let split = append_assoc (fronts ls) ((c ∷ l) ++ b'.' ∷ []) tail in
    subst (λ t. byte t 0 ≢ b'.') (sym split)
      (byte-fronts ls (((c ∷ l) ++ b'.' ∷ []) ++ tail) v.1 nd.1 nd.0.0)

byte-last : (l : Bytes) → HasNoDot l → 1 ≤ length l → byte l (length l - 1) ≢ b'.'
byte-last [] nd some_char = absurd (omega arith)
byte-last (c ∷ []) nd some_char = nd.0
byte-last (c ∷ d ∷ l) nd some_char =
    let same : suc (suc (length l)) - 1 ≡ suc (suc (length l) - 1) = omega arith in
    subst (λ i. byte (c ∷ d ∷ l) i ≢ b'.') (sym same) (byte-last (d ∷ l) nd.1 (omega arith))

byte-last_append :
    (before l : Bytes)
    → HasNoDot l
    → 1 ≤ length l
    → byte (before ++ l) (length (before ++ l) - 1) ≢ b'.'
byte-last_append [] l nd some_char = byte-last l nd some_char
byte-last_append (c ∷ before) l nd some_char =
    let size : 1 ≤ length (before ++ l) = omega (arith, length-append before l, some_char) in
    let same : suc (length (before ++ l)) - 1 ≡ suc (length (before ++ l) - 1) =
      omega (arith, size) in
    subst (λ i. byte (c ∷ before ++ l) i ≢ b'.') (sym same) (byte-last_append before l nd some_char)

-- `check_name` accepts such a name.
check_name-IsDomain :
    (levels : Levels) (name : Bytes)
    → IsDomain name
    → (kept : Bytes) × ((check_name levels name).0 ≡ some kept)
unfolding check_name is_refused
check_name-IsDomain levels name (l, ls, e, v, nd, no_comment) =
    let some_char : 1 ≤ length l = v.0.0 in
    let before : Bytes = fronts ls in
    let size : length name ≡ length before + length l = ap length e ∙ length-append before l in
    let first : byte name 0 ≢ b'.' =
      subst (λ t. byte t 0 ≢ b'.') (sym e)
        (byte-fronts ls l v.1 nd.1 (byte-first l nd.0 some_char)) in
    let last : byte name (length name - 1) ≢ b'.' =
      subst (λ t. byte t (length t - 1) ≢ b'.') (sym e)
        (byte-last_append before l nd.0 some_char) in
    let whole : l ++ [] ≡ l = append-nil l in
    let (kept, level, found) =
      IsFound-fronts ls l (0 + length l) 1 v.1 nd.1 (omega (arith, some_char)) (omega arith) in
    let scanned : check_loop name (length name) 0 1 ≡ some (kept, level) =
      ap (λ i. check_loop name i 0 1) size
      ∙ ap (λ t. check_loop t (length before + length l) 0 1)
          (e ∙ ap (λ t. before ++ t) (sym whole))
      ∙ check_loop-label before l [] 0 1 nd.0 (omega (arith, v.0.1))
      ∙ ap (λ t. check_loop (before ++ t) (length before) (0 + length l) 1) whole
      ∙ found in
    (
      kept,
      rw
          (
            check_name,
            le→ltb (length name) 1 (omega (arith, size, some_char)),
            ==_ne (byte name 0) b'.' first,
            ==_ne (byte name 0) b'#' no_comment,
            ==_ne (byte name (length name - 1)) b'.' last,
            scanned,
          )
          refl,
    )
  where
    byte-first : (l : Bytes) → HasNoDot l → 1 ≤ length l → byte l 0 ≢ b'.'
    byte-first [] nd some_char = absurd (omega arith)
    byte-first (c ∷ l) nd some_char = nd.0

-- The levels in use are those of before and the new one.
abbrev pub IsNoting : Levels → ℕ → Levels → Type 0
IsNoting levels level levels' =
    ((other : ℕ)
      → has_interest levels' (suc other)
        ≡ (if level == suc other then true else has_interest levels (suc other)))
    × (levels'.level_interest < 256)
    × (levels'.level_max ≡ max levels.level_max level)

same_level : (level other : ℕ) → 1 ≤ level → (level - 1 == suc other - 1) ≡ (level == suc other)
same_level level other some_level = ground arith

note_level-IsNoting :
    (levels : Levels) (level : ℕ)
    → levels.level_interest < 256
    → 1 ≤ level
    → level ≤ 8
    → IsNoting levels level (note_level levels level)
unfolding note_level
note_level-IsNoting levels level is_byte some_level few = (
  (λ other.
      has_interest-note_level levels level (suc other) is_byte few
      ∙ ap (λ b. if b then true else has_interest levels (suc other))
          (same_level level other some_level)),
  (bit_or-bit levels.level_interest (level - 1) 0 is_byte (omega arith) (omega arith)).0,
  ground arith,
)

-- `check_name` refuses a name and changes no level, and then the name is a comment or not made of
-- valid labels; or it gives labels of 1 to 63 bytes that are the whole name or its last eight
-- labels, and the levels in use, bits of a u8, are those of before and the number of these labels.
pub check_name-IsNoting :
    (levels : Levels) (name : Bytes)
    → levels.level_interest < 256
    → let (result, levels') = check_name levels name in
      ((result ≡ none) × (levels' ≡ levels) × (¬ IsDomain name))
      ⊎ ((kept : Bytes) × (level : ℕ) × (result ≡ some kept)
          × IsAccepted name kept level
          × IsNoting levels level levels')
check_name-IsNoting levels name is_byte = elim (check_name-IsAccepted levels name) [
  | inl (refused, same) ↦ inl (
    refused,
    same,
    (λ domain.
        let (kept, accepted) = check_name-IsDomain levels name domain in
        none_ne (sym refused ∙ accepted)),
  )
  | inr (kept, level, accepted, noted, is_accepted) ↦
      let (ls, e, v, nd, count, some_level, few, cut) = is_accepted in
      inr (
        kept,
        level,
        accepted,
        is_accepted,
        subst (IsNoting levels level) (sym noted)
            (note_level-IsNoting levels level is_byte some_level few),
      )
]
