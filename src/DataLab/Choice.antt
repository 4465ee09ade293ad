-- ===== src/DataLab/Choice.antt =====
-- The puzzles on conditions, against their references in tests.c.
use orga_del_computador.Base.{
  ℕ, zero, suc, ◌+◌, ◌-◌, ◌/◌, ◌^◌, ◌<◌, ◌≡◌, refl, arith, ◌==◌, if◌then◌else◌, Bool, true, ◌&&◌,
  ==_iff, ne→==,
}
use orga_del_computador.Base.{bit_and as word_and, bit_or as word_or}
use orga_del_computador.Base.Bits.{zero-bit_and, zero-bit_or, bit_or-zero, bit_and_mask}
use native.Mathlib.Decide.{ℕ_discrete}
use orga_del_computador.DataLab.Ints.{inv, sar, lnot, add}
use orga_del_computador.DataLab.Functions.{
  is_non_zero, logical_neg, conditional, is_ascii_digit, bit_mask,
}
use orga_del_computador.DataLab.References.{
  test_is_non_zero, test_logical_neg, test_conditional, test_is_ascii_digit, test_bit_mask,
}
use orga_del_computador.DataLab.TopBit.{
  word_or_int, word_or-negative, sign_bit-word_and, word_and_ones, or_one,
}

-- The sign bit, shifted down and masked.
sign_of : (w : ℕ) → w < 2 ^ 32 → word_and (sar w 31) 1 ≡ w / 2 ^ 31
sign_of w h =
    ground (arith, bit_and_mask 1 (w / 2 ^ 31), bit_and_mask 1 (w / 2 ^ 31 + (2 ^ 32 - 2)))

-- `x | -x` is negative just if `x` is not 0.
or_minus : (x : ℕ) → x < 2 ^ 32 → word_or x (add (inv x) 1) / 2 ^ 31 ≡ (if x == 0 then 0 else 1)
or_minus x h = elim (ℕ_discrete x 0) [
  | yes none ↦ rw none refl
  | no some ↦ ground (
    arith,
    word_or_int x (add (inv x) 1) h (omega arith),
    word_or-negative x (add (inv x) 1) h (omega arith) (omega arith),
  )
]

truth_of_sign : (v : ℕ) → v < 2 ^ 32 → lnot (lnot (word_and (2 ^ 31) v)) ≡ v / 2 ^ 31
truth_of_sign v h = ground (arith, sign_bit-word_and v h)

module _ (x : ℕ) (x_int : x < 2 ^ 32) where
  -- On every 32-bit pattern `isNonZero` is its reference `x != 0`.
  pub is_non_zero-test_is_non_zero : is_non_zero x ≡ test_is_non_zero x
  unfolding is_non_zero test_is_non_zero
  is_non_zero-test_is_non_zero = ground (
    arith,
    sign_of (word_or x (add (inv x) 1)) (word_or_int x (add (inv x) 1) x_int (omega arith)),
    or_minus x x_int,
  )

  -- On every 32-bit pattern `logicalNeg` is its reference `!x`.
  pub logical_neg-test_logical_neg : logical_neg x ≡ test_logical_neg x
  unfolding logical_neg test_logical_neg
  logical_neg-test_logical_neg = ground (
    arith,
    word_or_int x (add (inv x) 1) x_int (omega arith),
    sign_of (inv (word_or x (add (inv x) 1))) (omega arith),
    or_minus x x_int,
  )

  -- On every 32-bit pattern `isAsciiDigit`, which looks at the signs of two sums that may wrap, is
  -- the signed comparison 0x30 <= x <= 0x39 of its reference.
  pub is_ascii_digit-test_is_ascii_digit : is_ascii_digit x ≡ test_is_ascii_digit x
  unfolding is_ascii_digit test_is_ascii_digit
  is_ascii_digit-test_is_ascii_digit =
      let upper = add 2147483590 x in
      let lower = add 4294967248 x in
      ground (
        arith,
        truth_of_sign upper (omega arith),
        truth_of_sign lower (omega arith),
        zero-bit_or (upper / 2 ^ 31),
        or_one (upper / 2 ^ 31) (omega arith),
      )

  -- On 32-bit patterns `conditional` is its reference `x ? y : z`.
  pub conditional-test_conditional :
      (y z : ℕ) → y < 2 ^ 32 → z < 2 ^ 32 → conditional x y z ≡ test_conditional x y z
  unfolding conditional test_conditional
  conditional-test_conditional y z y_int z_int = elim (ℕ_discrete x 0) [
    | yes none ↦ rw none (ground (arith, zero-bit_and y, zero-bit_or z, word_and_ones z z_int))
    | no some ↦
        rw (ne→== x 0 some) (ground (arith, zero-bit_and z, bit_or-zero y, word_and_ones y y_int))
  ]

-- A test that holds for all numbers below a bound.
abbrev all_below : ℕ → (ℕ → Bool) → Bool
all_below zero p = true
all_below (suc n) p = p n && all_below n p

all_below_lem : (n : ℕ) (p : ℕ → Bool) → all_below n p ≡ true → (i : ℕ) → i < n → p i ≡ true
all_below_lem zero p all i h = absurd (omega arith)
all_below_lem (suc n) p all i h = elim (ℕ_discrete i n) [
  | yes last ↦ rw last (ground arith)
  | no other ↦ all_below_lem n p (ground arith) i (omega arith)
]

masks_agree : all_below 32 (λ h. all_below 32 (λ l. bit_mask h l == test_bit_mask h l)) ≡ true
unfolding bit_mask test_bit_mask
masks_agree = refl

-- For all bit positions below 32 `bitMask` is what the loop of its reference collects, 0 included
-- when the lower bit is above the higher one.
pub bit_mask-test_bit_mask :
    (highbit lowbit : ℕ)
    → highbit < 32
    → lowbit < 32
    → bit_mask highbit lowbit ≡ test_bit_mask highbit lowbit
bit_mask-test_bit_mask highbit lowbit h l = (==_iff _ _).0 (
    all_below_lem 32 (λ l. bit_mask highbit l == test_bit_mask highbit l)
      (all_below_lem 32 (λ h. all_below 32 (λ l. bit_mask h l == test_bit_mask h l)) masks_agree
        highbit h)
      lowbit l)
