-- ===== src/DataLab/Functions.antt =====
-- The functions of bits.c.
use orga_del_computador.Base.{ℕ, ◌-◌, ◌^◌, ◌&&◌, ltb, ◌==◌, is_true, if◌then◌else◌}
use orga_del_computador.Base.{bit_and as word_and, bit_or as word_or, bit_xor as word_xor}
use orga_del_computador.DataLab.Ints.{inv, lnot, add, shl, sar, slt}

unfoldable pub bit_and : ℕ → ℕ → ℕ
bit_and x y = inv (word_or (inv x) (inv y))

unfoldable pub bit_xor : ℕ → ℕ → ℕ
bit_xor x y = word_and (inv (word_and (inv x) (inv y))) (inv (word_and x y))

unfoldable pub negate : ℕ → ℕ
negate x = add (inv x) 1

unfoldable pub byte_swap : ℕ → ℕ → ℕ → ℕ
byte_swap x n m =
    let bits_m = shl m 3 in
    let bits_n = shl n 3 in
    let mask_m = sar (word_and x (shl 0xFF bits_m)) bits_m in
    let mask_m = shl (word_and 0xFF mask_m) bits_n in
    let mask_n = sar (word_and x (shl 0xFF bits_n)) bits_n in
    let mask_n = shl (word_and 0xFF mask_n) bits_m in
    let x = word_and x (inv (shl 0xFF bits_m)) in
    let x = word_and x (inv (shl 0xFF bits_n)) in word_or (word_or x mask_m) mask_n

unfoldable pub all_odd_bits : ℕ → ℕ
all_odd_bits x =
    let mask : ℕ = 0xAA in
    let mask = word_or mask (shl mask 8) in
    let mask = word_or mask (shl mask 16) in
    let x = word_and x mask in let x = word_xor x mask in lnot x

unfoldable pub bit_mask : ℕ → ℕ → ℕ
bit_mask highbit lowbit =
    let lower_mask = shl 0x1 31 in
    let upper_mask = shl 0x1 31 in
    let n_bits = add 31 (add (inv lowbit) 1) in
    let lower_mask = sar lower_mask n_bits in
    let n_bits = add 31 (add (inv highbit) 1) in
    let upper_mask = inv (shl (sar upper_mask n_bits) 1) in word_and upper_mask lower_mask

unfoldable pub conditional : ℕ → ℕ → ℕ → ℕ
conditional x y z =
    let value = lnot (lnot x) in
    let value = add (inv value) 1 in word_or (word_and value y) (word_and (inv value) z)

unfoldable pub is_ascii_digit : ℕ → ℕ
is_ascii_digit x =
    let sign_bit = shl 1 31 in
    let lower_rank = inv 0x30 in
    let upper_rank = inv (word_or sign_bit 0x39) in
    let upper_rank = lnot (lnot (word_and sign_bit (add upper_rank x))) in
    let lower_rank = lnot (lnot (word_and sign_bit (add (add lower_rank 1) x))) in
    lnot (word_or lower_rank upper_rank)

unfoldable pub is_non_zero : ℕ → ℕ
is_non_zero x = let x = word_or x (add (inv x) 1) in word_and (sar x 31) 1

unfoldable pub logical_neg : ℕ → ℕ
logical_neg x = let x = inv (word_or x (add (inv x) 1)) in word_and (sar x 31) 1

unfoldable pub float_negate : ℕ → ℕ
float_negate uf =
    let frac_mask = inv (shl 0x1FF 23) in
    let e_mask = shl 0xFF 23 in
    if (word_and e_mask uf == e_mask) && is_true (word_and uf frac_mask)
    then uf
    else word_xor (shl 0x1 31) uf

unfoldable pub float_abs_val : ℕ → ℕ
float_abs_val uf =
    let e_mask = shl 0xFF 23 in
    let sign_mask = inv (shl 0x1 31) in
    if ltb e_mask (word_and uf sign_mask) then uf else word_and uf sign_mask

unfoldable pub float_power2 : ℕ → ℕ
float_power2 x =
    if slt 127 x then shl 0xFF 23 else if slt x (2 ^ 32 - 126) then 0 else shl (add 127 x) 23
