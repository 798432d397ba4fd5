-- ===== src/Dnl/Load/Noted.antt =====
-- The levels that `check_name` of src/dnl.c notes, as the set of them.
use Prim.Native.Nat.{bit_or}
use native.Mathlib.Nat.{div-eq_of_lt, pow-le-pow_right}
use chinadns_ng.Prelude.{
  ℕ, ◌-◌, ◌/◌, ◌%◌, ◌^◌, ◌≤◌, ◌<◌, ◌≡◌, refl, ◌∙◌, Bool, true, false, ◌&&◌, arith, ltb, ◌==◌,
  if◌then◌else◌, inl, inr, Bool-cases, ltb→lt, ltb→le, ==_ne, ==_refl, both_true, is_true_below,
  is_true_below_sound, agree, agree_sound,
}
use chinadns_ng.Dnl.{Levels, note_level}
use chinadns_ng.Dnl.Suffix.{has_interest}
use chinadns_ng.Dnl.Suffix.Labels.{AreBounded}

abbrev pub bit : ℕ → ℕ → Bool
bit x i = x / 2 ^ i % 2 == 1

abbrev bits_agree : ℕ → ℕ → ℕ → Bool
bits_agree x i j =
    let noted = bit_or x (2 ^ i) in
    ltb noted 256 && agree (bit noted j) (if i == j then true else bit x j)

bits_table :
    is_true_below 256 (λ x. is_true_below 8 (λ i. is_true_below 8 (λ j. bits_agree x i j))) ≡ true
bits_table = refl

bits_agree-table : (x i j : ℕ) → x < 256 → i < 8 → j < 8 → bits_agree x i j ≡ true
bits_agree-table x i j lx li lj =
    is_true_below_sound 8 (λ j. bits_agree x i j) j
      (is_true_below_sound 8 (λ i. is_true_below 8 (λ j. bits_agree x i j)) i
        (is_true_below_sound 256
          (λ x. is_true_below 8 (λ i. is_true_below 8 (λ j. bits_agree x i j))) x bits_table lx)
        li)
      lj

-- The levels are those of a u8, and none above the greatest one is in use.
pub record AreNoted (levels : Levels) : Type 0 where
  pub is_byte : levels.level_interest < 256
  pub bounded : AreBounded levels

no_high_bit : (x i : ℕ) → x < 256 → 8 ≤ i → bit x i ≡ false
no_high_bit x i lx le =
    let le_pow : 256 ≤ 2 ^ i = pow-le-pow_right {n = 2} (omega arith) le in
    rw (div-eq_of_lt {n = x} {m = 2 ^ i} (omega arith)) refl

pub bit_or-bit :
    (x i j : ℕ)
    → x < 256
    → i < 8
    → j < 8
    → (bit_or x (2 ^ i) < 256) × (bit (bit_or x (2 ^ i)) j ≡ (if i == j then true else bit x j))
bit_or-bit x i j lx li lj =
    let noted : ℕ = bit_or x (2 ^ i) in
    let (is_byte, same) =
      both_true (ltb noted 256) (agree (bit noted j) (if i == j then true else bit x j))
        (bits_agree-table x i j lx li lj) in
    (ltb→lt noted 256 is_byte, agree_sound (bit noted j) (if i == j then true else bit x j) same)

-- A level is in use behind the note if it is the one noted or was in use before.
pub has_interest-note_level :
    (levels : Levels) (level other : ℕ)
    → levels.level_interest < 256
    → level ≤ 8
    → has_interest (note_level levels level) other
      ≡ (if level - 1 == other - 1 then true else has_interest levels other)
unfolding note_level
has_interest-note_level levels level other is_byte few = elim (Bool-cases (ltb (other - 1) 8)) [
  | inl low ↦
      (bit_or-bit levels.level_interest (level - 1) (other - 1) is_byte (omega arith)
        (ltb→lt (other - 1) 8 low)).1
  | inr high ↦
      let le : 8 ≤ other - 1 = ltb→le (other - 1) 8 high in
      let noted : ℕ = bit_or levels.level_interest (2 ^ (level - 1)) in
      let noted_byte : noted < 256 =
        (bit_or-bit levels.level_interest (level - 1) 0 is_byte (omega arith) (omega arith)).0 in
      rw
        (
          no_high_bit noted (other - 1) noted_byte le,
          no_high_bit levels.level_interest (other - 1) is_byte le,
          ==_ne (level - 1) (other - 1) (omega (arith, le, few)),
        )
        refl
]

-- Noting a level keeps the levels of a u8, with none in use above the greatest one.
pub note_level-AreNoted :
    (levels : Levels) (level : ℕ)
    → AreNoted levels
    → 1 ≤ level
    → level ≤ 8
    → AreNoted (note_level levels level)
unfolding note_level
note_level-AreNoted levels level w some_level few = record {
  is_byte =
      (bit_or-bit levels.level_interest (level - 1) 0 w.is_byte (omega arith) (omega arith)).0;
  bounded = λ other past.
      let above : (levels.level_max < other) × (level < other) = ground arith in
      has_interest-note_level levels level other w.is_byte few
      ∙ rw (==_ne (level - 1) (other - 1) (omega (arith, above.1, some_level)))
          (w.bounded other above.0);
}

-- A level in use stays so.
pub has_interest-kept :
    (levels : Levels) (level other : ℕ)
    → levels.level_interest < 256
    → level ≤ 8
    → has_interest levels other ≡ true
    → has_interest (note_level levels level) other ≡ true
has_interest-kept levels level other is_byte few h =
    has_interest-note_level levels level other is_byte few
    ∙ (elim (Bool-cases (level - 1 == other - 1)) [
      | inl same ↦ rw same refl
      | inr apart ↦ rw apart h
    ])

-- The level that is noted is in use.
pub has_interest-noted :
    (levels : Levels) (level : ℕ)
    → levels.level_interest < 256
    → level ≤ 8
    → has_interest (note_level levels level) level ≡ true
has_interest-noted levels level is_byte few =
    has_interest-note_level levels level level is_byte few ∙ rw (==_refl (level - 1)) refl
