-- ===== src/Idgen/Fields.antt =====
-- The shifts and masks of pkg/idgen on numbers that fit their fields.
use native.Mathlib.Nat.{one-le-pow}
use ticket_hub.Common.{ℕ, ◌+◌, ◌-◌, ◌*◌, ◌%◌, ◌^◌, ◌<◌, ℤ, pos, ◌≡◌, arith, bits64}
use ticket_hub.Common.Bits.{shl64, or64, and64, bit_or_disjoint, bit_and_low}

pub shl64-pos : (n k : ℕ) → n < 2 ^ 64 → n * 2 ^ k < 2 ^ 63 → shl64 (pos n) k ≡ pos (n * 2 ^ k)
unfolding shl64
shl64-pos n k small fits = ground arith

-- `(q << k) | r`
pub or64_field :
    (k q r : ℕ)
    → r < 2 ^ k
    → q * 2 ^ k + r < 2 ^ 63
    → or64 (pos (q * 2 ^ k)) (pos r) ≡ pos (q * 2 ^ k + r)
unfolding or64
or64_field k q r low fits = ground (arith, bit_or_disjoint k q r low)

-- `a & (2^k - 1)`, for every sign of `a`.
pub and64_low :
    (k : ℕ) (a : ℤ) → 2 ^ k < 2 ^ 63 → and64 a (pos (2 ^ k - 1)) ≡ pos (bits64 a % 2 ^ k)
unfolding and64
and64_low k a fits = ground (arith, bit_and_low k (bits64 a), one-le-pow k 2)
