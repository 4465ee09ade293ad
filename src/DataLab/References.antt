-- ===== src/DataLab/References.antt =====
-- The functions of tests.c that say what those of bits.c are to compute.
use orga_del_computador.Base.{
  ℕ, zero, suc, ◌+◌, ◌-◌, ◌*◌, ◌/◌, ◌^◌, ◌&&◌, not, ◌==◌, u32, if◌then◌else◌,
}
use orga_del_computador.Base.{bit_and as word_and, bit_or as word_or, bit_xor as word_xor}
use orga_del_computador.DataLab.Ints.{sar, shl, slt}

unfoldable pub test_bit_and : ℕ → ℕ → ℕ
test_bit_and x y = word_and x y

unfoldable pub test_bit_xor : ℕ → ℕ → ℕ
test_bit_xor x y = word_xor x y

unfoldable pub test_negate : ℕ → ℕ
test_negate x = u32 (2 ^ 32 - x)

-- The loop of `test_bitMask` from `i` on, with the rounds that are left.
unfoldable pub test_bit_mask_loop : ℕ → ℕ → ℕ → ℕ
test_bit_mask_loop zero i result = result
test_bit_mask_loop (suc k) i result = test_bit_mask_loop k (i + 1) (word_or result (shl 1 i))

-- From `lowbit` to `highbit`, both included.
unfoldable pub test_bit_mask : ℕ → ℕ → ℕ
unfolding test_bit_mask_loop
test_bit_mask highbit lowbit = test_bit_mask_loop (highbit + 1 - lowbit) lowbit 0

unfoldable pub test_conditional : ℕ → ℕ → ℕ → ℕ
test_conditional x y z = if x == 0 then z else y

unfoldable pub test_is_ascii_digit : ℕ → ℕ
test_is_ascii_digit x = if not (slt x 0x30) && not (slt 0x39 x) then 1 else 0

unfoldable pub test_is_non_zero : ℕ → ℕ
test_is_non_zero x = if not (x == 0) then 1 else 0

unfoldable pub test_logical_neg : ℕ → ℕ
test_logical_neg x = if x == 0 then 1 else 0

-- The `switch` of `test_byteSwap` on a byte's number: the byte, and the word without it.
unfoldable pub byte_of : ℕ → ℕ → ℕ
byte_of x zero = word_and x 0xFF
byte_of x (suc zero) = sar (word_and x 0xFF00) 8
byte_of x (suc (suc zero)) = sar (word_and x 0xFF0000) 16
byte_of x (suc (suc (suc n))) = word_and x 0xFF000000 / 2 ^ 24

unfoldable pub without_byte : ℕ → ℕ → ℕ
without_byte x zero = word_and x 0xFFFFFF00
without_byte x (suc zero) = word_and x 0xFFFF00FF
without_byte x (suc (suc zero)) = word_and x 0xFF00FFFF
without_byte x (suc (suc (suc n))) = word_and x 0x00FFFFFF

unfoldable pub test_byte_swap : ℕ → ℕ → ℕ → ℕ
test_byte_swap x n m =
    let nmask = byte_of x n in
    let x = without_byte x n in
    let mmask = byte_of x m in
    let x = without_byte x m in
    let nmask = shl nmask (8 * m) in
    let mmask = shl mmask (8 * n) in word_or (word_or x nmask) mmask

-- The loop of `test_allOddBits` from the bit `i` on, for `k` rounds.
unfoldable pub test_all_odd_bits_loop : ℕ → ℕ → ℕ → ℕ
test_all_odd_bits_loop zero i x = 1
test_all_odd_bits_loop (suc k) i x =
    let rest = test_all_odd_bits_loop k (i + 2) x in if word_and x (shl 1 i) == 0 then 0 else rest

unfoldable pub test_all_odd_bits : ℕ → ℕ
test_all_odd_bits x = test_all_odd_bits_loop 16 1 x
