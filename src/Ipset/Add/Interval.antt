-- ===== src/Ipset/Add/Interval.antt =====
-- The end of an interval of nftables in src/ipset.c: the address after the one added.
use native.Mathlib.Nat.{pow-suc}
use chinadns_ng.Prelude.{
  ℕ, zero, suc, ◌+◌, ◌*◌, ◌%◌, ◌^◌, ◌≤◌, ◌<◌, ◌≡◌, ◌⊎◌, inl, inr, refl, ◌∙◌, [], ◌∷◌, arith, tests,
  ltb, length, set, Bool-cases, length-set, get_or-set_self, get_or-set_ne,
}
use chinadns_ng.Prelude.Words.{Bytes, byte, IsByte, AreBytes}
use chinadns_ng.Ipset.Batch.{increment}

-- The first `n` bytes as a number, the first byte being the most significant.
unfoldable pub value : ℕ → Bytes → ℕ
value zero p = 0
value (suc i) p = value i p * 256 + byte p i

AreBytes-byte : (p : Bytes) (i : ℕ) → AreBytes p → byte p i < 256
AreBytes-byte [] i v = omega arith
AreBytes-byte (x ∷ p) zero v = v.0
AreBytes-byte (x ∷ p) (suc i) v = AreBytes-byte p i v.1

value-set : (n i : ℕ) (p : Bytes) (v : ℕ) → n ≤ i → value n (set p i v) ≡ value n p
unfolding value
value-set zero i p v le = refl
value-set (suc n) i p v le =
    let e = value-set n i p v (omega arith) in
    let b : byte (set p i v) n ≡ byte p n =
      get_or-set_ne p i n v 0 (λ h. absurd (omega (arith, h, le))) in
    omega (arith, e, b)

-- The bytes behind the first `n` stay.
byte-increment : (n i : ℕ) (p : Bytes) → n ≤ i → byte (increment n p) i ≡ byte p i
unfolding increment
byte-increment zero i p le = refl
byte-increment (suc n) i p le =
    let v : ℕ = (byte p n + 1) % 256 in
    let same : byte (set p n v) i ≡ byte p i =
      get_or-set_ne p n i v 0 (λ h. absurd (omega (arith, h, le))) in
    elim (Bool-cases (ltb (byte p n) v)) [
      | inl stop ↦ rw stop same
      | inr carry ↦ rw carry (byte-increment n i (set p n v) (omega arith) ∙ same)
    ]

pow_suc256 : (i : ℕ) → 256 ^ suc i ≡ 256 ^ i * 256
pow_suc256 i = pow-suc 256 i

value-lt : (n : ℕ) (p : Bytes) → AreBytes p → value n p < 256 ^ n
unfolding value
value-lt zero p v = omega arith
value-lt (suc n) p v = omega (arith, value-lt n p v, AreBytes-byte p n v, pow_suc256 n)

AreBytes-set : (p : Bytes) (i v : ℕ) → AreBytes p → IsByte v → AreBytes (set p i v)
AreBytes-set [] i v h b = tt
AreBytes-set (x ∷ p) zero v h b = (b, h.1)
AreBytes-set (x ∷ p) (suc i) v h b = (h.0, AreBytes-set p i v h.1 b)

-- Where there are `n` bytes, `increment` on the first `n` of them, read as a number, makes the next
-- number, and 0 of the greatest one.
value-increment :
    (n : ℕ) (p : Bytes)
    → n ≤ length p
    → AreBytes p
    → ((value n p + 1 < 256 ^ n) × (value n (increment n p) ≡ value n p + 1))
      ⊎ ((value n p + 1 ≡ 256 ^ n) × (value n (increment n p) ≡ 0))
unfolding value increment
value-increment zero p le v = inr (refl, refl)
value-increment (suc n) p le v =
    let old : ℕ = byte p n in
    let up : ℕ = (old + 1) % 256 in
    let p' : Bytes = set p n up in
    let is_byte : old < 256 = AreBytes-byte p n v in
    let here : byte p' n ≡ up = get_or-set_self p n up 0 (omega arith) in
    let before : value n p' ≡ value n p = value-set n n p up (omega arith) in
    let below : value n p < 256 ^ n = value-lt n p v in
    elim (Bool-cases (ltb old up)) [
      | inl stop ↦
          let next : up ≡ old + 1 = omega (tests, stop, is_byte) in
          rw stop (
            inl (
              omega (arith, next, is_byte, below, pow_suc256 n),
              omega (arith, here, before, next),
            ))
      | inr carry ↦
          let last : old ≡ 255 = omega (tests, carry, is_byte) in
          let kept : byte (increment n p') n ≡ byte p' n = byte-increment n n p' (omega arith) in
          let rest =
            value-increment n p' (omega (arith, le, length-set p n up))
              (AreBytes-set p n up v (omega arith)) in
          rw carry (elim rest [
            | inl (few, e) ↦ inl (
              omega (arith, few, last, before, pow_suc256 n),
              omega (arith, e, kept, here, last, before),
            )
            | inr (all, e) ↦
                inr (
                  omega (arith, all, last, before, pow_suc256 n),
                  omega (arith, e, kept, here, last),
                )
          ])
    ]
