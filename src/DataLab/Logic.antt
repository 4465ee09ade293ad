-- ===== src/DataLab/Logic.antt =====
-- The puzzles on `~`, `&`, `|` and `^`, by the laws of the lowest digit.
use orga_del_computador.Base.{ℕ, zero, suc, ◌+◌, ◌-◌, ◌/◌, ◌%◌, ◌^◌, ◌<◌, ◌≡◌, refl, arith}
use orga_del_computador.Base.{bit_and as word_and, bit_or as word_or, bit_xor as word_xor}
use orga_del_computador.Base.Bits.{
  bit_and_step, bit_or_step, bit_xor_step, bit_and-le, differ_digits,
}
use native.Mathlib.Nat.{pow-suc, one-le-pow}
use orga_del_computador.DataLab.Ints.{inv}
use orga_del_computador.DataLab.Functions.{bit_and, bit_xor, negate}
use orga_del_computador.DataLab.References.{test_bit_and, test_bit_xor, test_negate}

-- De Morgan's law on `k` bits.
pub or_of_complements :
    (k x y : ℕ)
    → x < 2 ^ k
    → y < 2 ^ k
    → word_or (2 ^ k - 1 - x) (2 ^ k - 1 - y) + word_and x y ≡ 2 ^ k - 1
or_of_complements zero x y hx hy =
    let (p, q) : (x ≡ 0) × (y ≡ 0) = (omega arith, omega arith) in rw (p, q) refl
or_of_complements (suc k) x y hx hy = ground (
  arith,
  pow-suc 2 k,
  one-le-pow k 2,
  bit_or_step (2 ^ suc k - 1 - x) (2 ^ suc k - 1 - y),
  bit_and_step x y,
  or_of_complements k (x / 2) (y / 2) (omega (arith, pow-suc 2 k)) (omega (arith, pow-suc 2 k)),
)

differ_digits_lem : (a b : ℕ) → a < 2 → b < 2 → differ_digits a b ≡ (a + b) % 2
differ_digits_lem zero zero ha hb = refl
differ_digits_lem zero (suc b) ha hb = ground arith
differ_digits_lem (suc a) zero ha hb = ground arith
differ_digits_lem (suc a) (suc b) ha hb = ground arith

-- `~(x & y)` takes from `x | y` the bits that both have.
xor_of_and_or :
    (k x y : ℕ)
    → x < 2 ^ k
    → y < 2 ^ k
    → word_and (word_or x y) (2 ^ k - 1 - word_and x y) ≡ word_xor x y
xor_of_and_or zero x y hx hy =
    let (p, q) : (x ≡ 0) × (y ≡ 0) = (omega arith, omega arith) in rw (p, q) refl
xor_of_and_or (suc k) x y hx hy = ground (
  arith,
  pow-suc 2 k,
  one-le-pow k 2,
  bit_or_step x y,
  bit_and_step x y,
  bit_xor_step x y,
  differ_digits_lem (x % 2) (y % 2) (omega arith) (omega arith),
  bit_and_step (word_or x y) (2 ^ suc k - 1 - word_and x y),
  and_below k (x / 2) (y / 2) (omega (arith, pow-suc 2 k)),
  xor_of_and_or k (x / 2) (y / 2) (omega (arith, pow-suc 2 k)) (omega (arith, pow-suc 2 k)),
)
  where
    and_below : (k x y : ℕ) → y < 2 ^ k → word_and x y < 2 ^ k
    and_below k x y h = omega (arith, bit_and-le x y)

module _ (x y : ℕ) (x_int : x < 2 ^ 32) (y_int : y < 2 ^ 32) where
  -- On 32-bit patterns `bitAnd`, by De Morgan's law, is `x & y`.
  pub bit_and-test_bit_and : bit_and x y ≡ test_bit_and x y
  unfolding bit_and test_bit_and
  bit_and-test_bit_and = omega (arith, or_of_complements 32 x y x_int y_int)

  -- On 32-bit patterns `bitXor`, built from complement and `&`, is `x ^ y`.
  pub bit_xor-test_bit_xor : bit_xor x y ≡ test_bit_xor x y
  unfolding bit_xor test_bit_xor
  bit_xor-test_bit_xor =
      let back_x : inv (inv x) ≡ x = omega arith in
      let back_y : inv (inv y) ≡ y = omega arith in
      let both : word_or (inv (inv x)) (inv (inv y)) + word_and (inv x) (inv y) ≡ 2 ^ 32 - 1 =
        or_of_complements 32 (inv x) (inv y) (omega arith) (omega arith) in
      let either : inv (word_and (inv x) (inv y)) ≡ word_or x y =
        ground (arith, both, back_x, back_y) in
      rw either (xor_of_and_or 32 x y x_int y_int)

-- `negate` is the minus.
pub negate-test_negate : (x : ℕ) → x < 2 ^ 32 → negate x ≡ test_negate x
unfolding negate test_negate
negate-test_negate x x_int = omega arith
