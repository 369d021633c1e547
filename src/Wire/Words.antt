-- ===== src/Wire/Words.antt =====
-- Little-endian machine words, as `to_le_bytes` and `from_le_bytes` of the Rust standard library
-- write and read them, and two's complement for the signed ones.
use gylo.Prelude.{
  ℕ, zero, suc, ◌+◌, ◌-◌, ◌*◌, ◌/◌, ◌%◌, ◌^◌, ◌<◌, ◌≡◌, refl, ap, List, [], ◌∷◌, arith, ltb,
  if◌then◌else◌, length, All,
}
use gylo.Prelude.Int.{ℤ, pos, negsuc}
use native.Mathlib.Nat.{pow-suc}

abbrev pub Bytes : Type 0
Bytes = List ℕ

abbrev pub IsByte : ℕ → Type 0
IsByte b = b < 256

-- The `k` bytes of a word, the lowest first.
unfoldable pub to_le : ℕ → ℕ → Bytes
to_le zero v = []
to_le (suc k) v = (v % 256) ∷ to_le k (v / 256)

unfoldable pub from_le : Bytes → ℕ
from_le [] = 0
from_le (b ∷ bs) = b + 256 * from_le bs

pub length-to_le : (k v : ℕ) → length (to_le k v) ≡ k
unfolding to_le
length-to_le zero v = refl
length-to_le (suc k) v = ap suc (length-to_le k (v / 256))

pub to_le-IsByte : (k v : ℕ) → All IsByte (to_le k v)
unfolding to_le
to_le-IsByte zero v = tt
to_le-IsByte (suc k) v = (omega arith, to_le-IsByte k (v / 256))

pub from_le-to_le : (k v : ℕ) → v < 256 ^ k → from_le (to_le k v) ≡ v
unfolding to_le from_le
from_le-to_le zero v h = omega arith
from_le-to_le (suc k) v h = omega (arith, from_le-to_le k (v / 256) (omega (arith, pow-suc 256 k)))

-- An `i64` or `i16` as its two's-complement pattern of `w` bits, and back.
unfoldable pub to_word : ℕ → ℤ → ℕ
to_word w (pos n) = n
to_word w (negsuc n) = 2 ^ w - 1 - n

unfoldable pub from_word : ℕ → ℕ → ℤ
from_word w v = if ltb v (2 ^ (w - 1)) then pos v else negsuc (2 ^ w - 1 - v)

abbrev pub FitsSigned : ℕ → ℤ → Type 0
FitsSigned w (pos n) = n < 2 ^ (w - 1)
FitsSigned w (negsuc n) = n < 2 ^ (w - 1)

abbrev pub IsI64 : ℤ → Type 0
IsI64 z = FitsSigned 64 z

abbrev pub IsI16 : ℤ → Type 0
IsI16 z = FitsSigned 16 z

-- `v.to_le_bytes()` and `i64::from_le_bytes`, `i16::from_le_bytes`.
unfoldable pub i64_bytes : ℤ → Bytes
i64_bytes z = to_le 8 (to_word 64 z)

unfoldable pub i64_from : Bytes → ℤ
i64_from bs = from_word 64 (from_le bs)

unfoldable pub i16_bytes : ℤ → Bytes
i16_bytes z = to_le 2 (to_word 16 z)

unfoldable pub i16_from : Bytes → ℤ
i16_from bs = from_word 16 (from_le bs)

to_word-64 : (z : ℤ) → IsI64 z → (to_word 64 z < 256 ^ 8) × (from_word 64 (to_word 64 z) ≡ z)
unfolding to_word from_word
to_word-64 (pos n) h = ground arith
to_word-64 (negsuc n) h = ground arith

to_word-16 : (z : ℤ) → IsI16 z → (to_word 16 z < 256 ^ 2) × (from_word 16 (to_word 16 z) ≡ z)
unfolding to_word from_word
to_word-16 (pos n) h = ground arith
to_word-16 (negsuc n) h = ground arith

pub i64_from-bytes : (z : ℤ) → IsI64 z → i64_from (i64_bytes z) ≡ z
unfolding i64_from i64_bytes
i64_from-bytes z h =
    let (small, back) = to_word-64 z h in rw (from_le-to_le 8 (to_word 64 z) small) back

pub i16_from-bytes : (z : ℤ) → IsI16 z → i16_from (i16_bytes z) ≡ z
unfolding i16_from i16_bytes
i16_from-bytes z h =
    let (small, back) = to_word-16 z h in rw (from_le-to_le 2 (to_word 16 z) small) back
