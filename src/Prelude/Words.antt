-- ===== src/Prelude/Words.antt =====
-- Bytes and big-endian words (ntohs, ntohl, htons, htonl of <arpa/inet.h> as the code uses them on
-- bytes), and 32-bit signed values kept as their bit patterns.
use Prim.Native.Nat.{ℕ, zero, suc, ◌+◌, ◌*◌, ◌/◌, ◌%◌, ◌^◌, ◌<◌}
use mathlib.Core.Path.{◌≡◌, refl}
use mathlib.Core.List.{List, [], ◌∷◌, ◌++◌}
use native.Mathlib.Omega.{arith}
use chinadns_ng.Prelude.Tests.{◌==◌, if◌then◌else◌}
use chinadns_ng.Prelude.Lists.{get_or, All, length, drop}

abbrev pub Bytes : Type 0
Bytes = List ℕ

abbrev pub IsByte : ℕ → Type 0
IsByte b = b < 256

abbrev pub AreBytes : Bytes → Type 0
AreBytes = All IsByte

abbrev pub byte : Bytes → ℕ → ℕ
byte xs i = get_or xs i 0

-- `ntohs` of the two bytes at offset `i`.
abbrev pub be16 : Bytes → ℕ → ℕ
be16 xs i = byte xs i * 256 + byte xs (i + 1)

-- `ntohl` of the four bytes at offset `i`.
abbrev pub be32 : Bytes → ℕ → ℕ
be32 xs i = byte xs i * 16777216 + byte xs (i + 1) * 65536 + byte xs (i + 2) * 256 + byte xs (i + 3)

pub drop-byte :
    (name : Bytes) (i : ℕ) → i < length name → drop i name ≡ byte name i ∷ drop (suc i) name
drop-byte [] i h = absurd (omega arith)
drop-byte (x ∷ xs) zero h = refl
drop-byte (x ∷ xs) (suc i) h = drop-byte xs i (omega arith)

pub byte-middle : (before tail : Bytes) (c : ℕ) → byte (before ++ c ∷ tail) (length before) ≡ c
byte-middle [] tail c = refl
byte-middle (x ∷ before) tail c = byte-middle before tail c

pub drop-suc :
    (before tail : Bytes) (c : ℕ) → drop (suc (length before)) (before ++ c ∷ tail) ≡ tail
drop-suc [] tail c = refl
drop-suc (x ∷ before) tail c = drop-suc before tail c

-- The bytes of a buffer up to the null byte, as `strlen` sees them.
unfoldable pub c_string : Bytes → Bytes
c_string [] = []
c_string (c ∷ buf) = let rest = c_string buf in if c == 0 then [] else c ∷ rest

-- The four bytes of `htonl(v)`.
abbrev pub be32_bytes : ℕ → Bytes
be32_bytes v = v / 16777216 % 256 ∷ v / 65536 % 256 ∷ v / 256 % 256 ∷ v % 256 ∷ []

pub be32-be32_bytes : (v : ℕ) → v < 2 ^ 32 → be32 (be32_bytes v) 0 ≡ v
be32-be32_bytes v h = omega arith
