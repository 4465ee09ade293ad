-- ===== src/Base/Bits.antt =====
-- `&`, `|` and `^` at variables: the law of the lowest digit, and how they act on a number that is
-- split at bit `k`.
mod Digits
use Digits.{ByDigits}
pub use Digits.{differ_digits, bit_and_step, bit_or_step, bit_xor_step}
use Prim.Native.Nat.{bit_and-bitwise, bit_or-bitwise, bit_xor-bitwise}
use Prim.Native.Nat.{
  ℕ, zero, suc, ◌+◌, ◌-◌, ◌*◌, ◌/◌, ◌%◌, ◌^◌, ◌≤◌, ◌<◌, bit_and, bit_or, bit_xor, min, max,
}
use mathlib.Core.Path.{◌≡◌, refl, ap, ◌∙◌}
use mathlib.Core.Bool.{Bool, true, false, ◌&&◌}
use native.Mathlib.Nat.{pow-suc, one-le-pow}
use native.Mathlib.Decide.{ℕ_discrete}
use native.Mathlib.Omega.{arith}

-- An operation on binary digits, given by its lowest digit.
module _ (op f : ℕ → ℕ → ℕ) (step : ByDigits op f) where
  split_at :
      op 0 0 ≡ 0
      → (k p q r s : ℕ) → r < 2 ^ k
      → s < 2 ^ k
      → op (p * 2 ^ k + r) (q * 2 ^ k + s) ≡ op p q * 2 ^ k + op r s
  split_at o zero p q r s hr hs = ground (arith, o)
  split_at o (suc k) p q r s hr hs = ground (
    arith,
    pow-suc 2 k,
    ap (λ (t : ℕ). p * t) (pow-suc 2 k),
    ap (λ (t : ℕ). q * t) (pow-suc 2 k),
    ap (λ (t : ℕ). op p q * t) (pow-suc 2 k),
    step (p * 2 ^ suc k + r) (q * 2 ^ suc k + s),
    step r s,
    split_at o k p q (r / 2) (s / 2) (omega (arith, pow-suc 2 k)) (omega (arith, pow-suc 2 k)),
  )

pub bit_and_split :
    (k p q r s : ℕ)
    → r < 2 ^ k
    → s < 2 ^ k
    → bit_and (p * 2 ^ k + r) (q * 2 ^ k + s) ≡ bit_and p q * 2 ^ k + bit_and r s
bit_and_split = split_at bit_and min bit_and_step refl

pub bit_or_split :
    (k p q r s : ℕ)
    → r < 2 ^ k
    → s < 2 ^ k
    → bit_or (p * 2 ^ k + r) (q * 2 ^ k + s) ≡ bit_or p q * 2 ^ k + bit_or r s
bit_or_split = split_at bit_or max bit_or_step refl

pub bit_xor_split :
    (k p q r s : ℕ)
    → r < 2 ^ k
    → s < 2 ^ k
    → bit_xor (p * 2 ^ k + r) (q * 2 ^ k + s) ≡ bit_xor p q * 2 ^ k + bit_xor r s
bit_xor_split = split_at bit_xor differ_digits bit_xor_step refl

pub zero-bit_and : (b : ℕ) → bit_and 0 b ≡ 0
zero-bit_and b = bit_and-bitwise 0 b

pub zero-bit_or : (b : ℕ) → bit_or 0 b ≡ b
zero-bit_or b = bit_or-bitwise 0 b

pub zero-bit_xor : (b : ℕ) → bit_xor 0 b ≡ b
zero-bit_xor b = bit_xor-bitwise 0 b

-- A result of `&` is at most its second operand. `fuel` bounds the first.
bit_and-le_within : (fuel a b : ℕ) → a < fuel → bit_and a b ≤ b
bit_and-le_within zero a b small = absurd (omega arith)
bit_and-le_within (suc fuel) a b small = elim (ℕ_discrete a 0) [
  | yes none ↦ rw (none, zero-bit_and) (omega arith)
  | no some ↦ omega (arith, bit_and_step a b, bit_and-le_within fuel (a / 2) (b / 2) (omega arith))
]

pub bit_and-le : (a b : ℕ) → bit_and a b ≤ b
bit_and-le a b = bit_and-le_within (a + 1) a b (omega arith)

pub bit_and-zero : (a : ℕ) → bit_and a 0 ≡ 0
bit_and-zero a = omega (arith, bit_and-le a 0)

-- `|` and `&` commute; `fuel` bounds both operands.
bit_or_comm_within : (fuel a b : ℕ) → a + b < fuel → bit_or a b ≡ bit_or b a
bit_or_comm_within zero a b small = absurd (omega arith)
bit_or_comm_within (suc fuel) a b small = elim (ℕ_discrete (a + b) 0) [
  | yes none ↦ let e : a ≡ b = omega arith in rw e
  | no some ↦ omega (
    arith,
    bit_or_step a b,
    bit_or_step b a,
    bit_or_comm_within fuel (a / 2) (b / 2) (omega arith),
  )
]

pub bit_or_comm : (a b : ℕ) → bit_or a b ≡ bit_or b a
bit_or_comm a b = bit_or_comm_within (a + b + 1) a b (omega arith)

pub bit_or-zero : (a : ℕ) → bit_or a 0 ≡ a
bit_or-zero a = bit_or_comm a 0 ∙ zero-bit_or a

bit_and_ones : (k r : ℕ) → r < 2 ^ k → bit_and r (2 ^ k - 1) ≡ r
bit_and_ones zero r h = ground (arith, bit_and-zero r)
bit_and_ones (suc k) r h = ground (
  arith,
  pow-suc 2 k,
  one-le-pow k 2,
  bit_and_step r (2 ^ suc k - 1),
  bit_and_ones k (r / 2) (omega (arith, pow-suc 2 k)),
)

-- A mask of `k` low ones is the remainder by `2 ^ k`.
pub bit_and_mask : (k a : ℕ) → bit_and a (2 ^ k - 1) ≡ a % 2 ^ k
bit_and_mask k a = ground (
  arith,
  one-le-pow k 2,
  bit_and_split k (a / 2 ^ k) 0 (a % 2 ^ k) (2 ^ k - 1),
  bit_and-zero (a / 2 ^ k),
  bit_and_ones k (a % 2 ^ k),
)

-- A mask that is shifted left reads the digits from bit `k` on.
pub bit_and_shifted : (k m a : ℕ) → bit_and a (m * 2 ^ k) ≡ bit_and (a / 2 ^ k) m * 2 ^ k
bit_and_shifted k m a =
    ground
      (arith, one-le-pow k 2, bit_and_split k (a / 2 ^ k) m (a % 2 ^ k) 0, bit_and-zero (a % 2 ^ k))

-- Disjoint fields: `(q << k) | r` and `r | (q << k)` are the sum.
pub bit_or_fields : (k q r : ℕ) → r < 2 ^ k → bit_or (q * 2 ^ k) r ≡ q * 2 ^ k + r
bit_or_fields k q r h = ground (arith, bit_or_split k q 0 0 r, bit_or-zero q, zero-bit_or r)

pub bit_or_fields_low : (k q r : ℕ) → r < 2 ^ k → bit_or r (q * 2 ^ k) ≡ q * 2 ^ k + r
bit_or_fields_low k q r h = ground (arith, bit_or_split k 0 q r 0, bit_or-zero r, zero-bit_or q)
