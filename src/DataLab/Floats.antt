-- ===== src/DataLab/Floats.antt =====
-- The puzzles on the patterns of single-precision floats: sign, eight bits of exponent, fraction.
use orga_del_computador.Base.{
  ℕ, zero, suc, ◌+◌, ◌-◌, ◌*◌, ◌^◌, ◌<◌, ◌≡◌, refl, arith, ltb, ◌==◌, if◌then◌else◌, ◌&&◌, not,
}
use orga_del_computador.Base.{bit_and as word_and, bit_xor as word_xor}
use orga_del_computador.Base.Bits.{
  zero-bit_and, bit_and_mask, bit_and_split, bit_xor_split, zero-bit_xor,
}
use orga_del_computador.DataLab.Functions.{float_negate, float_abs_val, float_power2}
use orga_del_computador.DataLab.TopBit.{word_and_comm}

-- The pattern with the sign bit `s`, the exponent field `e` and the fraction `f`.
abbrev pub pattern_of : ℕ → ℕ → ℕ → ℕ
pattern_of s e f = s * 2 ^ 31 + e * 2 ^ 23 + f

xor_one : (s : ℕ) → s < 2 → word_xor 1 s ≡ 1 - s
xor_one zero h = refl
xor_one (suc zero) h = refl
xor_one (suc (suc s)) h = absurd (omega arith)

module _ (s e f : ℕ) (s_bit : s < 2) (e_field : e < 256) (f_field : f < 2 ^ 23) where
  exponent : word_and 2139095040 (pattern_of s e f) ≡ e * 2 ^ 23
  exponent = ground (
    arith,
    bit_and_split 23 255 (s * 256 + e) 0 f,
    zero-bit_and f,
    word_and_comm 255 (s * 256 + e),
    bit_and_mask 8 (s * 256 + e),
  )

  flipped : word_xor 2147483648 (pattern_of s e f) ≡ pattern_of (1 - s) e f
  flipped = ground (
    arith,
    bit_xor_split 31 1 s 0 (e * 2 ^ 23 + f),
    zero-bit_xor (e * 2 ^ 23 + f),
    xor_one s s_bit,
  )

  -- `floatNegate` returns a NaN (exponent field 255, fraction not 0) as it is and flips the sign
  -- of every other pattern, exponent and fraction kept.
  pub float_negate_lem :
      float_negate (pattern_of s e f)
      ≡ (if (e == 255) && not (f == 0) then pattern_of s e f else pattern_of (1 - s) e f)
  unfolding float_negate
  float_negate_lem = ground (arith, exponent, flipped, bit_and_mask 23 (pattern_of s e f))

  -- `floatAbsVal` returns a NaN as it is and clears the sign of every other pattern, exponent and
  -- fraction kept.
  pub float_abs_val_lem :
      float_abs_val (pattern_of s e f)
      ≡ (if (e == 255) && not (f == 0) then pattern_of s e f else pattern_of 0 e f)
  unfolding float_abs_val
  float_abs_val_lem = ground (arith, bit_and_mask 31 (pattern_of s e f))

-- `floatPower2` of a number n that is not negative is the normal pattern with exponent field 127 +
-- n up to 127 and infinity above; of -(n + 1) it is the normal pattern with exponent field 126 - n
-- down to the exponent -126 and 0 below, also for the exponents from -127 to -149.
pub float_power2_lem :
    (n : ℕ)
    → n < 2 ^ 31
    → (float_power2 n ≡ (if ltb 127 n then pattern_of 0 255 0 else pattern_of 0 (127 + n) 0))
      × (float_power2 (2 ^ 32 - (n + 1)) ≡ (if ltb 125 n then 0 else pattern_of 0 (126 - n) 0))
unfolding float_power2
float_power2_lem n bound = (ground arith, ground arith)
