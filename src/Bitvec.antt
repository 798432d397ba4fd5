-- ===== src/Bitvec.antt =====
-- src/misc.h: bit vectors. A vector is its bytes.
pub mod Laws
use Prim.Native.Nat.{bit_and, bit_or}
use chinadns_ng.Prelude.{ℕ, ◌+◌, ◌-◌, ◌/◌, ◌%◌, ◌^◌, Bool, not, ◌==◌, set, replicate}
use chinadns_ng.Prelude.Words.{Bytes, byte}

abbrev pub ceilu : ℕ → ℕ → ℕ
ceilu a b = (a + b - 1) / b

abbrev pub bitvec_n : ℕ → ℕ
bitvec_n nbits = ceilu nbits 8

abbrev pub mask : ℕ → ℕ
mask k = 2 ^ k

unfoldable pub bitvec_get : Bytes → ℕ → Bool
bitvec_get vec i = not (bit_and (byte vec (i / 8)) (mask (i % 8)) == 0)

unfoldable pub bitvec_set1 : Bytes → ℕ → Bytes
bitvec_set1 vec i = set vec (i / 8) (bit_or (byte vec (i / 8)) (mask (i % 8)))

-- The complement of the mask is a 32-bit one.
unfoldable pub bitvec_set0 : Bytes → ℕ → Bytes
bitvec_set0 vec i = set vec (i / 8) (bit_and (byte vec (i / 8)) (2 ^ 32 - 1 - mask (i % 8)))

-- `bitvec_t vec[bitvec_n(nbits)] = {0}`
abbrev pub no_bits : ℕ → Bytes
no_bits nbits = replicate (bitvec_n nbits) 0
