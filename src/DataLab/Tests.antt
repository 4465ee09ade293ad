-- ===== src/DataLab/Tests.antt =====
-- Examples for the theorems on the bit puzzles, and the examples of the comments of bits.c.
use orga_del_computador.Base.{◌-◌, ◌*◌, ◌^◌, ◌≡◌, refl, arith}
use orga_del_computador.DataLab.Functions.{
  bit_and, bit_xor, negate, byte_swap, all_odd_bits, conditional, is_non_zero, logical_neg,
  float_negate, float_abs_val, float_power2,
}
use orga_del_computador.DataLab.References.{
  test_bit_and, test_bit_xor, test_negate, test_conditional, test_is_non_zero, test_logical_neg,
  test_byte_swap, test_all_odd_bits, test_all_odd_bits_loop,
}
use orga_del_computador.DataLab.Logic.{
  bit_and-test_bit_and, bit_xor-test_bit_xor, negate-test_negate,
}
use orga_del_computador.DataLab.Choice.{
  is_non_zero-test_is_non_zero, logical_neg-test_logical_neg, conditional-test_conditional,
}
use orga_del_computador.DataLab.Swap.{byte_swap-test_byte_swap}
use orga_del_computador.DataLab.Floats.{float_negate_lem, float_abs_val_lem, float_power2_lem}

bit_and-test_bit_and_example : bit_and 6 5 ≡ 4
unfolding test_bit_and
bit_and-test_bit_and_example = bit_and-test_bit_and 6 5 (omega arith) (omega arith)

bit_xor-test_bit_xor_example : bit_xor 4 5 ≡ 1
unfolding test_bit_xor
bit_xor-test_bit_xor_example = bit_xor-test_bit_xor 4 5 (omega arith) (omega arith)

negate-test_negate_example : negate 1 ≡ 2 ^ 32 - 1
unfolding test_negate
negate-test_negate_example = negate-test_negate 1 (omega arith)

is_non_zero-test_is_non_zero_example : is_non_zero (2 ^ 31) ≡ 1
unfolding test_is_non_zero
is_non_zero-test_is_non_zero_example = is_non_zero-test_is_non_zero (2 ^ 31) (omega arith)

logical_neg-test_logical_neg_example : logical_neg 0 ≡ 1
unfolding test_logical_neg
logical_neg-test_logical_neg_example = logical_neg-test_logical_neg 0 (omega arith)

conditional-test_conditional_example : conditional 2 4 5 ≡ 4
unfolding test_conditional
conditional-test_conditional_example =
    conditional-test_conditional 2 (omega arith) 4 5 (omega arith) (omega arith)

float_negate_lem_example : float_negate 0x3F800000 ≡ 0xBF800000
float_negate_lem_example = float_negate_lem 0 127 0 (omega arith) (omega arith) (omega arith)

float_abs_val_lem_example : float_abs_val 0xBF800000 ≡ 0x3F800000
float_abs_val_lem_example = float_abs_val_lem 1 127 0 (omega arith) (omega arith) (omega arith)

float_power2_lem_example :
    (float_power2 3 ≡ 130 * 2 ^ 23) × (float_power2 (2 ^ 32 - 4) ≡ 123 * 2 ^ 23)
float_power2_lem_example = float_power2_lem 3 (omega arith)

byte_swap_test : byte_swap 0x12345678 1 3 ≡ 0x56341278
unfolding byte_swap
byte_swap_test = refl

byte_swap_other_test : byte_swap 0xDEADBEEF 0 2 ≡ 0xDEEFBEAD
unfolding byte_swap
byte_swap_other_test = refl

all_odd_bits_test : all_odd_bits 0xFFFFFFFD ≡ 0
unfolding all_odd_bits
all_odd_bits_test = refl

all_odd_bits_other_test : all_odd_bits 0xAAAAAAAA ≡ 1
unfolding all_odd_bits
all_odd_bits_other_test = refl

test_all_odd_bits_test : test_all_odd_bits 0xFFFFFFFD ≡ 0
unfolding test_all_odd_bits test_all_odd_bits_loop
test_all_odd_bits_test = refl

test_all_odd_bits_other_test : test_all_odd_bits 0xAAAAAAAA ≡ 1
unfolding test_all_odd_bits test_all_odd_bits_loop
test_all_odd_bits_other_test = refl

byte_swap-test_byte_swap_example : byte_swap 0xDEADBEEF 0 3 ≡ test_byte_swap 0xDEADBEEF 0 3
byte_swap-test_byte_swap_example =
    byte_swap-test_byte_swap 0xDEADBEEF 0 3 (omega arith) (omega arith) (omega arith)
