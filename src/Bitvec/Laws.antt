-- ===== src/Bitvec/Laws.antt =====
-- The bit vectors of src/misc.h as arrays of Booleans.
use Prim.Native.Nat.{bit_and, bit_or}
use native.Mathlib.Nat.{mod-lt}
use chinadns_ng.Prelude.{
  ℕ, zero, suc, ◌-◌, ◌/◌, ◌%◌, ◌^◌, ◌*◌, ◌≤◌, ◌<◌, ◌≡◌, ◌≢◌, refl, sym, ap, ◌∙◌, Bool, true, false,
  not, ◌&&◌, arith, ltb, ◌==◌, if◌then◌else◌, length, set, replicate, Bool-cases, inl, inr,
  both_true, is_true_below, is_true_below_sound, agree, agree_sound, ltb→lt, get_or-set_self,
  get_or-set_ne, length-set, ==_ne, ==_iff, [], ◌∷◌,
}
use chinadns_ng.Prelude.Words.{Bytes, byte, AreBytes}
use chinadns_ng.Bitvec.{bitvec_n, mask, bitvec_get, bitvec_set1, bitvec_set0, no_bits}

-- One bit of a byte.
abbrev get_bit : ℕ → ℕ → Bool
get_bit x k = not (bit_and x (mask k) == 0)

abbrev set_agrees : ℕ → ℕ → ℕ → Bool
set_agrees x k m =
    let set1 = bit_or x (mask k) in
    ltb set1 256 && agree (get_bit set1 m) (if k == m then true else get_bit x m)

abbrev clear_agrees : ℕ → ℕ → ℕ → Bool
clear_agrees x k m =
    let set0 = bit_and x (2 ^ 32 - 1 - mask k) in
    ltb set0 256 && agree (get_bit set0 m) (if k == m then false else get_bit x m)

abbrev holds_for_bytes : (ℕ → ℕ → ℕ → Bool) → Bool
holds_for_bytes p = is_true_below 256 (λ x. is_true_below 8 (λ k. is_true_below 8 (λ m. p x k m)))

holds_for_bytes_sound :
    (p : ℕ → ℕ → ℕ → Bool) (x k m : ℕ)
    → holds_for_bytes p ≡ true
    → x < 256
    → k < 8
    → m < 8
    → p x k m ≡ true
holds_for_bytes_sound p x k m table lx lk lm =
    is_true_below_sound 8 (λ m. p x k m) m
      (is_true_below_sound 8 (λ k. is_true_below 8 (λ m. p x k m)) k
        (is_true_below_sound 256 (λ x. is_true_below 8 (λ k. is_true_below 8 (λ m. p x k m))) x
          table lx)
        lk)
      lm

set_table : holds_for_bytes set_agrees ≡ true
set_table = refl

clear_table : holds_for_bytes clear_agrees ≡ true
clear_table = refl

-- A byte with one bit changed to `b`.
abbrev IsChanged : ℕ → ℕ → Bool → ℕ → Type 0
IsChanged x k b changed =
    (changed < 256) × ((m : ℕ) → m < 8 → get_bit changed m ≡ (if k == m then b else get_bit x m))

set-IsChanged : (x k : ℕ) → x < 256 → k < 8 → IsChanged x k true (bit_or x (mask k))
set-IsChanged x k lx lk = (
  ltb→lt (bit_or x (mask k)) 256
      (both_true _ _ (holds_for_bytes_sound set_agrees x k 0 set_table lx lk (omega arith))).0,
  (λ m lm.
      agree_sound _ _
        (both_true _ _ (holds_for_bytes_sound set_agrees x k m set_table lx lk lm)).1),
)

clear-IsChanged :
    (x k : ℕ) → x < 256 → k < 8 → IsChanged x k false (bit_and x (2 ^ 32 - 1 - mask k))
clear-IsChanged x k lx lk = (
  ltb→lt (bit_and x (2 ^ 32 - 1 - mask k)) 256
      (both_true _ _ (holds_for_bytes_sound clear_agrees x k 0 clear_table lx lk (omega arith))).0,
  (λ m lm.
      agree_sound _ _
        (both_true _ _ (holds_for_bytes_sound clear_agrees x k m clear_table lx lk lm)).1),
)

All-set : (vec : Bytes) (i v : ℕ) → AreBytes vec → v < 256 → AreBytes (set vec i v)
All-set [] i v w lt = tt
All-set (x ∷ vec) zero v w lt = (lt, w.1)
All-set (x ∷ vec) (suc i) v w lt = (w.0, All-set vec i v w.1 lt)

byte-lt : (vec : Bytes) (i : ℕ) → AreBytes vec → byte vec i < 256
byte-lt [] i w = omega arith
byte-lt (x ∷ vec) zero w = w.0
byte-lt (x ∷ vec) (suc i) w = byte-lt vec i w.1

-- The vector with the bit `i` changed to `b`, and no other.
abbrev pub IsUpdated : Bytes → ℕ → Bool → Bytes → Type 0
IsUpdated vec i b vec' =
    AreBytes vec'
    × (length vec' ≡ length vec)
    × ((j : ℕ) → bitvec_get vec' j ≡ (if i == j then b else bitvec_get vec j))

byte-zeros : (n i : ℕ) → byte (replicate n 0) i ≡ 0
byte-zeros zero i = refl
byte-zeros (suc n) zero = refl
byte-zeros (suc n) (suc i) = byte-zeros n i

zeros-AreBytes : (n : ℕ) → AreBytes (replicate n 0)
zeros-AreBytes zero = tt
zeros-AreBytes (suc n) = (omega arith, zeros-AreBytes n)

length-zeros : (n : ℕ) → length {A = ℕ} (replicate n 0) ≡ n
length-zeros zero = refl
length-zeros (suc n) = ap suc (length-zeros n)

zero_table : is_true_below 8 (λ k. agree (get_bit 0 k) false) ≡ true
zero_table = refl

zero_bit : (k : ℕ) → k < 8 → get_bit 0 k ≡ false
zero_bit k lt =
    agree_sound (get_bit 0 k) false
      (is_true_below_sound 8 (λ k. agree (get_bit 0 k) false) k zero_table lt)

same_index : (i j : ℕ) → i / 8 ≡ j / 8 → (i % 8 == j % 8) ≡ (i == j)
same_index i j h = ground arith

set-IsUpdated :
    (vec : Bytes) (i changed : ℕ) (b : Bool)
    → AreBytes vec
    → i < 8 * length vec
    → IsChanged (byte vec (i / 8)) (i % 8) b changed
    → IsUpdated vec i b (set vec (i / 8) changed)
unfolding bitvec_get
set-IsUpdated vec i changed b w lt (is_byte, bits) = (
  All-set vec (i / 8) changed w is_byte,
  length-set vec (i / 8) changed,
  (λ j. elim (Bool-cases (i / 8 == j / 8)) [
    | inl same ↦
        let e : i / 8 ≡ j / 8 = (==_iff (i / 8) (j / 8)).0 same in
        ap (λ x. get_bit x (j % 8))
          (ap (byte (set vec (i / 8) changed)) (sym e)
            ∙ get_or-set_self vec (i / 8) changed 0 (omega (arith, lt)))
        ∙ bits (j % 8) (mod-lt j (omega arith))
        ∙ ap (λ n. if i % 8 == j % 8 then b else get_bit (byte vec n) (j % 8)) e
        ∙ ap (λ t. if t then b else bitvec_get vec j) (same_index i j e)
    | inr apart ↦
        let ne : i / 8 ≢ j / 8 = ground arith in
        let differ : i ≢ j = (λ e. ne (ap (λ n. n / 8) e)) in
        ap (λ x. get_bit x (j % 8)) (get_or-set_ne vec (i / 8) (j / 8) changed 0 ne)
        ∙ ap (λ t. if t then b else bitvec_get vec j) (sym (==_ne i j differ))
  ]),
)

-- A new vector has room for as many bits as were asked for, all of them clear.
pub no_bits_lem :
    (nbits j : ℕ)
    → (nbits ≤ 8 * length (no_bits nbits))
      × AreBytes (no_bits nbits)
      × (bitvec_get (no_bits nbits) j ≡ false)
unfolding bitvec_get
no_bits_lem nbits j = (
  omega (arith, length-zeros (bitvec_n nbits)),
  zeros-AreBytes (bitvec_n nbits),
  ap (λ x. get_bit x (j % 8)) (byte-zeros (bitvec_n nbits) (j / 8))
      ∙ zero_bit (j % 8) (mod-lt j (omega arith)),
)

-- Setting or clearing a bit within the vector changes that bit and no other one, and leaves a vector
-- of as many bytes.
pub bitvec_set-IsUpdated :
    (vec : Bytes) (i : ℕ)
    → AreBytes vec
    → i < 8 * length vec
    → IsUpdated vec i true (bitvec_set1 vec i) × IsUpdated vec i false (bitvec_set0 vec i)
unfolding bitvec_set1 bitvec_set0
bitvec_set-IsUpdated vec i w lt =
    let x : ℕ = byte vec (i / 8) in
    let is_byte : x < 256 = byte-lt vec (i / 8) w in
    let is_bit : i % 8 < 8 = mod-lt i (omega arith) in
    (
      set-IsUpdated vec i (bit_or x (mask (i % 8))) true w lt
          (set-IsChanged x (i % 8) is_byte is_bit),
      set-IsUpdated vec i (bit_and x (2 ^ 32 - 1 - mask (i % 8))) false w lt
          (clear-IsChanged x (i % 8) is_byte is_bit),
    )
