-- ===== src/Base/Bits/Digits.antt =====
-- The native bit operations are a recursion on digits with the first number as fuel; here the fuel
-- is dropped.
use Prim.Native.Nat.{
  ℕ, zero, suc, ◌+◌, ◌*◌, ◌/◌, ◌%◌, ◌≤◌, bit_and, bit_or, bit_xor, min, max, digits, bitwise,
}
use Prim.Native.Nat.{bit_and-bitwise, bit_or-bitwise, bit_xor-bitwise, differ}
use mathlib.Core.Path.{◌≡◌, refl, sym, ◌∙◌, ap}
use native.Mathlib.Decide.{ℕ_discrete}
use native.Mathlib.Omega.{arith}

abbrev pub differ_digits : ℕ → ℕ → ℕ
differ_digits = differ

-- Where the fuel is at least the first number, one round more or less makes no difference.
module _ (none_left : ℕ → ℕ) (op : ℕ → ℕ → ℕ) where
  spare_round :
      (fuel a b : ℕ) → a ≤ fuel → digits none_left op (suc fuel) a b ≡ digits none_left op fuel a b
  spare_round zero zero b enough = refl
  spare_round zero (suc a) b enough = absurd (omega arith)
  spare_round (suc fuel) zero b enough = refl
  spare_round (suc fuel) (suc a) b enough =
      ap (λ high. high * 2 + op (suc a % 2) (b % 2))
        (spare_round fuel (suc a / 2) (b / 2) (omega arith))

  spare_rounds : (fuel a b : ℕ) → a ≤ fuel → digits none_left op fuel a b ≡ bitwise none_left op a b
  spare_rounds zero a b enough = ap (λ n. digits none_left op n a b) {x = 0} {y = a} (omega arith)
  spare_rounds (suc fuel) a b enough = elim (ℕ_discrete a (suc fuel)) [
    | yes exact ↦ ap (λ n. digits none_left op n a b) (sym exact)
    | no less ↦ spare_round fuel a b (omega arith) ∙ spare_rounds fuel a b (omega arith)
  ]

  lowest_digit :
      (a b : ℕ)
      → bitwise none_left op (suc a) b
        ≡ bitwise none_left op (suc a / 2) (b / 2) * 2 + op (suc a % 2) (b % 2)
  lowest_digit a b =
      ap (λ high. high * 2 + op (suc a % 2) (b % 2))
        (spare_rounds a (suc a / 2) (b / 2) (omega arith))

-- An operation on numbers is given by its lowest digit and itself on the other digits.
abbrev pub ByDigits : (ℕ → ℕ → ℕ) → (ℕ → ℕ → ℕ) → Type 0
ByDigits op low = (a b : ℕ) → op a b ≡ op (a / 2) (b / 2) * 2 + low (a % 2) (b % 2)

by_digits :
    {op : ℕ → ℕ → ℕ} (low : ℕ → ℕ → ℕ) (none_left : ℕ → ℕ)
    → ((a b : ℕ) → op a b ≡ bitwise none_left low a b)
    → ((b : ℕ) → none_left b ≡ none_left (b / 2) * 2 + low 0 (b % 2))
    → ByDigits op low
by_digits low none_left means empty zero b = rw (means 0 b, means 0 (b / 2)) (empty b)
by_digits low none_left means empty (suc a) b =
    rw (means (suc a) b, means (suc a / 2) (b / 2)) (lowest_digit none_left low a b)

pub bit_xor_step : ByDigits bit_xor differ_digits
bit_xor_step = by_digits differ (λ b. b) bit_xor-bitwise (λ b. omega arith)

pub bit_or_step : ByDigits bit_or max
bit_or_step = by_digits max (λ b. b) bit_or-bitwise (λ b. omega arith)

pub bit_and_step : ByDigits bit_and min
bit_and_step = by_digits min (λ b. 0) bit_and-bitwise (λ b. omega arith)
