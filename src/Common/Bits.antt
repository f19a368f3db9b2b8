-- ===== src/Common/Bits.antt =====
-- Shifts and masks of numbers as arithmetic, and those of an `int64` on its two's complement word.
use Prim.Native.Nat.{ℕ, zero, suc, ◌+◌, ◌-◌, ◌*◌, ◌/◌, ◌%◌, ◌^◌, ◌≤◌, ◌<◌, min, max}
use Prim.Native.Nat.{bit_and, bit_or, digits, bit_and-bitwise, bit_or-bitwise}
use mathlib.Core.Path.{◌≡◌, refl, ap}
use native.Mathlib.Nat.{pow-suc, one-le-pow}
use native.Mathlib.Omega.{arith}
use ticket_hub.Common.Int.{ℤ, bits64, signed64}

-- The recursion that the native operations stand for needs no more fuel than its first number.
module _ (rest : ℕ → ℕ) (digit : ℕ → ℕ → ℕ) where
  digits_stable : (a n m b : ℕ) → a ≤ n → a ≤ m → digits rest digit n a b ≡ digits rest digit m a b
  digits_stable a zero zero b p q = refl
  digits_stable zero zero (suc m) b p q = refl
  digits_stable (suc a) zero (suc m) b p q = absurd (omega arith)
  digits_stable zero (suc n) zero b p q = refl
  digits_stable (suc a) (suc n) zero b p q = absurd (omega arith)
  digits_stable zero (suc n) (suc m) b p q = refl
  digits_stable (suc a) (suc n) (suc m) b p q =
      rw (digits_stable (suc a / 2) n m (b / 2) (omega arith) (omega arith))

bit_or_halves : (a b : ℕ) → bit_or a b ≡ bit_or (a / 2) (b / 2) * 2 + max (a % 2) (b % 2)
bit_or_halves zero b = simp bit_or-bitwise (omega arith)
bit_or_halves (suc a) b = simp bit_or-bitwise (
    omega (
      arith,
      digits_stable (λ y. y) max (suc a / 2) a (suc a / 2) (b / 2) (omega arith) (omega arith),
    ))

bit_and_halves : (a b : ℕ) → bit_and a b ≡ bit_and (a / 2) (b / 2) * 2 + min (a % 2) (b % 2)
bit_and_halves zero b = simp bit_and-bitwise (omega arith)
bit_and_halves (suc a) b = simp bit_and-bitwise (
    omega (
      arith,
      digits_stable (λ y. 0) min (suc a / 2) a (suc a / 2) (b / 2) (omega arith) (omega arith),
    ))

-- `n` bounds the number, for the induction.
bit_or-zero_below : (n a : ℕ) → a ≤ n → bit_or a 0 ≡ a
bit_or-zero_below n zero h = refl
bit_or-zero_below zero (suc a) h = absurd (omega arith)
bit_or-zero_below (suc n) (suc a) h =
    omega (arith, bit_or_halves (suc a) 0, bit_or-zero_below n (suc a / 2) (omega arith))

bit_and-zero_below : (n a : ℕ) → a ≤ n → bit_and a 0 ≡ 0
bit_and-zero_below n zero h = refl
bit_and-zero_below zero (suc a) h = absurd (omega arith)
bit_and-zero_below (suc n) (suc a) h =
    omega (arith, bit_and_halves (suc a) 0, bit_and-zero_below n (suc a / 2) (omega arith))

double : (q k : ℕ) → q * 2 ^ suc k ≡ 2 * (q * 2 ^ k)
double q k = omega (arith, ap (λ (t : ℕ). q * t) (pow-suc 2 k))

-- Fields that do not overlap: `(q << k) | r` is a sum.
pub bit_or_disjoint : (k q r : ℕ) → r < 2 ^ k → bit_or (q * 2 ^ k) r ≡ q * 2 ^ k + r
bit_or_disjoint zero q r h = ground (arith, bit_or-zero_below q q)
bit_or_disjoint (suc k) q r h =
    ground (
      arith,
      bit_or_halves (q * 2 ^ suc k) r,
      double q k,
      bit_or_disjoint k q (r / 2) (omega arith),
    )

bit_and_low_field : (k q r : ℕ) → r < 2 ^ k → bit_and (q * 2 ^ k + r) (2 ^ k - 1) ≡ r
bit_and_low_field zero q r h =
    omega (arith, bit_and-zero_below (q * 2 ^ 0 + r) (q * 2 ^ 0 + r) (omega arith))
bit_and_low_field (suc k) q r h = ground (
  arith,
  bit_and_halves (q * 2 ^ suc k + r) (2 ^ suc k - 1),
  double q k,
  pow-suc 2 k,
  bit_and_low_field k q (r / 2) (omega arith),
)

-- A mask of the `k` low bits is the remainder by `2 ^ k`.
pub bit_and_low : (k a : ℕ) → bit_and a (2 ^ k - 1) ≡ a % 2 ^ k
bit_and_low k a = ground (arith, one-le-pow k 2, bit_and_low_field k (a / 2 ^ k) (a % 2 ^ k))

-- `a << k`, `a | b` and `a & b` on `int64`.
unfoldable pub shl64 : ℤ → ℕ → ℤ
shl64 a k = signed64 ((bits64 a * 2 ^ k) % 2 ^ 64)

unfoldable pub or64 : ℤ → ℤ → ℤ
or64 a b = signed64 (bit_or (bits64 a) (bits64 b))

unfoldable pub and64 : ℤ → ℤ → ℤ
and64 a b = signed64 (bit_and (bits64 a) (bits64 b))
