-- ===== src/Dns/Domains/Masks.antt =====
-- `interest_levels` of src/dns.c as a set of levels: its bits, from the one for level 1 on.
use native.Mathlib.Nat.{zero-div, div-div-eq-div-mul}
use chinadns_ng.Prelude.{
  ℕ, zero, suc, ◌+◌, ◌*◌, ◌/◌, ◌%◌, ◌^◌, ◌≤◌, ◌<◌, ◌≡◌, ◌≢◌, refl, sym, ap, ◌∙◌, Bool, true, false,
  List, [], ◌∷◌, arith, ◌==◌, if◌then◌else◌, length,
}
use chinadns_ng.Dns.Domains.{ctz}

abbrev pub mask_of : List Bool → ℕ
mask_of [] = 0
mask_of (flag ∷ flags) = (if flag then 1 else 0) + mask_of flags * 2

abbrev pub flag_at : List Bool → ℕ → Bool
flag_at [] i = false
flag_at (flag ∷ flags) zero = flag
flag_at (flag ∷ flags) (suc i) = flag_at flags i

-- Whether a level, 1 or more, is in the set.
abbrev pub is_in : List Bool → ℕ → Bool
is_in flags zero = false
is_in flags (suc i) = flag_at flags i

-- The first flag, if there is one.
abbrev pub first_flag : List Bool → ℕ
first_flag [] = 0
first_flag (flag ∷ flags) = let rest = first_flag flags in if flag then 0 else 1 + rest

half : (flag : Bool) (m : ℕ) → ((if flag then 1 else 0) + m * 2) / 2 ≡ m
half true m = omega arith
half false m = omega arith

low_bit : (flag : Bool) (m : ℕ) → (((if flag then 1 else 0) + m * 2) % 2 == 1) ≡ flag
low_bit true m = let e : (1 + m * 2) % 2 ≡ 1 = omega arith in rw e refl
low_bit false m = let e : (0 + m * 2) % 2 ≡ 0 = omega arith in rw e refl

pub mask_of-flag_at :
    (flags : List Bool) (i : ℕ) → (mask_of flags / 2 ^ i % 2 == 1) ≡ flag_at flags i
mask_of-flag_at [] i = rw (zero-div (2 ^ i)) refl
mask_of-flag_at (flag ∷ flags) zero =
    let whole : mask_of (flag ∷ flags) / 2 ^ 0 ≡ mask_of (flag ∷ flags) = omega arith in
    ap (λ n. n % 2 == 1) whole ∙ low_bit flag (mask_of flags)
mask_of-flag_at (flag ∷ flags) (suc i) =
    let m : ℕ = mask_of (flag ∷ flags) in
    let pow : 2 ^ suc i ≡ 2 * 2 ^ i = omega arith in
    let next : m / 2 ^ suc i ≡ mask_of flags / 2 ^ i =
      ap (λ k. m / k) pow
      ∙ sym (div-div-eq-div-mul m 2 (2 ^ i))
      ∙ ap (λ n. n / 2 ^ i) (half flag (mask_of flags)) in
    ap (λ n. n % 2 == 1) next ∙ mask_of-flag_at flags i

pub ctz-first_flag : (flags : List Bool) → ctz (length flags) (mask_of flags) ≡ first_flag flags
unfolding ctz
ctz-first_flag [] = refl
ctz-first_flag (flag ∷ flags) =
    rw (low_bit flag (mask_of flags), half flag (mask_of flags), ctz-first_flag flags) refl

pub flag_at-before : (flags : List Bool) (i : ℕ) → i < first_flag flags → flag_at flags i ≡ false
flag_at-before [] i lt = refl
flag_at-before (true ∷ flags) i lt = absurd (omega arith)
flag_at-before (false ∷ flags) zero lt = refl
flag_at-before (false ∷ flags) (suc i) lt = flag_at-before flags i (omega arith)

pub flag_at-first :
    (flags : List Bool) → first_flag flags < length flags → flag_at flags (first_flag flags) ≡ true
flag_at-first [] lt = absurd (omega arith)
flag_at-first (true ∷ flags) lt = refl
flag_at-first (false ∷ flags) lt =
    let next : 1 + first_flag flags ≡ suc (first_flag flags) = omega arith in
    ap (flag_at (false ∷ flags)) next ∙ flag_at-first flags (omega arith)

pub first_flag-mask_of : (flags : List Bool) → mask_of flags ≢ 0 → first_flag flags < length flags
first_flag-mask_of [] some_flag = absurd (some_flag refl)
first_flag-mask_of (true ∷ flags) some_flag = omega arith
first_flag-mask_of (false ∷ flags) some_flag =
    omega (arith, first_flag-mask_of flags (λ e. some_flag (omega (arith, e))))

pub flag_at-past : (flags : List Bool) (i : ℕ) → length flags ≤ i → flag_at flags i ≡ false
flag_at-past [] i le = refl
flag_at-past (flag ∷ flags) zero le = absurd (omega arith)
flag_at-past (flag ∷ flags) (suc i) le = flag_at-past flags i (omega arith)
