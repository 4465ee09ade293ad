-- ===== src/DataLab/TopBit.antt =====
-- The sign bit of a 32-bit pattern under `&` and `|`, and `&` with all ones.
use orga_del_computador.Base.{
  ℕ, zero, suc, ◌+◌, ◌-◌, ◌*◌, ◌/◌, ◌%◌, ◌^◌, ◌≤◌, ◌<◌, ◌≡◌, ◌⊎◌, refl, arith,
}
use orga_del_computador.Base.{bit_and as word_and, bit_or as word_or}
use orga_del_computador.Base.Bits.{
  bit_and_step, bit_and_split, bit_or_split, zero-bit_and, zero-bit_or, bit_or-zero, bit_and_mask,
}
use native.Mathlib.Decide.{ℕ_discrete}
use orga_del_computador.DataLab.Logic.{or_of_complements}

-- `&` commutes; `fuel` bounds both operands.
word_and_comm_within : (fuel a b : ℕ) → a + b < fuel → word_and a b ≡ word_and b a
word_and_comm_within zero a b small = absurd (omega arith)
word_and_comm_within (suc fuel) a b small = elim (ℕ_discrete (a + b) 0) [
  | yes none ↦ let e : a ≡ b = omega arith in rw e refl
  | no some ↦ omega (
    arith,
    bit_and_step a b,
    bit_and_step b a,
    word_and_comm_within fuel (a / 2) (b / 2) (omega arith),
  )
]

pub word_and_comm : (a b : ℕ) → word_and a b ≡ word_and b a
word_and_comm a b = word_and_comm_within (a + b + 1) a b (omega arith)

pub word_and_ones : (y : ℕ) → y < 2 ^ 32 → word_and (2 ^ 32 - 1) y ≡ y
word_and_ones y h = omega (arith, word_and_comm (2 ^ 32 - 1) y, bit_and_mask 32 y)

or_below : (k x y : ℕ) → x < 2 ^ k → y < 2 ^ k → word_or x y < 2 ^ k
or_below k x y hx hy =
    let back_x : 2 ^ k - 1 - (2 ^ k - 1 - x) ≡ x = omega arith in
    let back_y : 2 ^ k - 1 - (2 ^ k - 1 - y) ≡ y = omega arith in
    ground (arith, or_of_complements k (2 ^ k - 1 - x) (2 ^ k - 1 - y) (omega arith) (omega arith))

-- A bit with 1.
and_one : (q : ℕ) → q < 2 → word_and 1 q ≡ q
and_one zero h = refl
and_one (suc zero) h = refl
and_one (suc (suc q)) h = absurd (omega arith)

pub or_one : (q : ℕ) → q < 2 → word_or 1 q ≡ 1
or_one zero h = refl
or_one (suc zero) h = refl
or_one (suc (suc q)) h = absurd (omega arith)

pub sign_bit-word_and : (v : ℕ) → v < 2 ^ 32 → word_and (2 ^ 31) v ≡ v / 2 ^ 31 * 2 ^ 31
sign_bit-word_and v h = ground (
  arith,
  bit_and_split 31 1 (v / 2 ^ 31) 0 (v % 2 ^ 31),
  zero-bit_and (v % 2 ^ 31),
  and_one (v / 2 ^ 31) (omega arith),
)

-- `x | y` has the sign bit just if one of the two has it.
module _ (x y : ℕ) (x_int : x < 2 ^ 32) (y_int : y < 2 ^ 32) where
  pub word_or_int : word_or x y < 2 ^ 32
  word_or_int = or_below 32 x y x_int y_int

  split :
      word_or x y ≡ word_or (x / 2 ^ 31) (y / 2 ^ 31) * 2 ^ 31 + word_or (x % 2 ^ 31) (y % 2 ^ 31)
  split = ground (arith, bit_or_split 31 (x / 2 ^ 31) (y / 2 ^ 31) (x % 2 ^ 31) (y % 2 ^ 31))

  low : word_or (x % 2 ^ 31) (y % 2 ^ 31) < 2 ^ 31
  low = or_below 31 (x % 2 ^ 31) (y % 2 ^ 31) (omega arith) (omega arith)

  pub word_or-positive : x < 2 ^ 31 → y < 2 ^ 31 → word_or x y < 2 ^ 31
  word_or-positive hx hy = or_below 31 x y hx hy

  pub word_or-negative : (2 ^ 31 ≤ x) ⊎ (2 ^ 31 ≤ y) → 2 ^ 31 ≤ word_or x y
  word_or-negative h = ground (
    arith,
    split,
    low,
    or_one (y / 2 ^ 31) (omega arith),
    bit_or-zero (x / 2 ^ 31),
    zero-bit_or (y / 2 ^ 31),
  )
