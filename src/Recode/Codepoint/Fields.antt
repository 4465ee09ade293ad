-- ===== src/Recode/Codepoint/Fields.antt =====
-- The bit fields of a codepoint as sums: what the shifts and masks of the reads compute.
use orga_del_computador.Base.{ℕ, ◌+◌, ◌*◌, ◌/◌, ◌%◌, ◌^◌, ◌<◌, ◌≡◌, ap, arith, bit_or}
use orga_del_computador.Base.Bits.{
  zero-bit_or, bit_or-zero, bit_or_split, bit_and_mask, bit_or_fields, bit_or_fields_low,
}
use orga_del_computador.Recode.Codepoint.{
  read_four_be, read_four_le, read_two_be, read_two_le, read_surrogate_be, read_surrogate_le,
  read_utf8_two, read_utf8_three, read_utf8_four,
}

module _ (b0 b1 : ℕ) where
  pub read_two_be-eq : b1 < 256 → read_two_be b0 b1 ≡ b0 * 256 + b1
  unfolding read_two_be
  read_two_be-eq h1 = rw (zero-bit_or (b0 * 2 ^ 8)) (bit_or_fields 8 b0 b1 h1)

  pub read_two_le-eq : b0 < 256 → read_two_le b0 b1 ≡ b1 * 256 + b0
  unfolding read_two_le
  read_two_le-eq h0 = rw (zero-bit_or (b1 * 2 ^ 8)) (bit_or_fields 8 b1 b0 h0)

  pub read_utf8_two-eq : read_utf8_two b0 b1 ≡ b0 % 32 * 64 + b1 % 64
  unfolding read_utf8_two
  read_utf8_two-eq =
      rw (bit_and_mask 6 b1, bit_and_mask 5 b0, zero-bit_or (b1 % 2 ^ 6))
        (bit_or_fields_low 6 (b0 % 32) (b1 % 64) (omega arith))

module _ (b0 b1 b2 b3 : ℕ) where
  pub read_four_be-eq :
      b1 < 256
      → b2 < 256
      → b3 < 256
      → read_four_be b0 b1 b2 b3 ≡ b0 * 2 ^ 24 + b1 * 2 ^ 16 + b2 * 2 ^ 8 + b3
  unfolding read_four_be
  read_four_be-eq h1 h2 h3 = ground (
    arith,
    zero-bit_or (b0 * 2 ^ 24),
    bit_or_fields 24 b0 (b1 * 2 ^ 16),
    bit_or_fields 16 (b0 * 2 ^ 8 + b1) (b2 * 2 ^ 8),
    bit_or_fields 8 (b0 * 2 ^ 16 + b1 * 2 ^ 8 + b2) b3,
  )

  pub read_four_le-eq :
      b0 < 256
      → b1 < 256
      → b2 < 256
      → read_four_le b0 b1 b2 b3 ≡ b3 * 2 ^ 24 + b2 * 2 ^ 16 + b1 * 2 ^ 8 + b0
  unfolding read_four_le
  read_four_le-eq h0 h1 h2 = ground (
    arith,
    zero-bit_or b0,
    bit_or_fields_low 8 b1 b0,
    bit_or_fields_low 16 b2 (b1 * 2 ^ 8 + b0),
    bit_or_fields_low 24 b3 (b2 * 2 ^ 16 + b1 * 2 ^ 8 + b0),
  )

  pub read_utf8_three-eq : read_utf8_three b0 b1 b2 ≡ b0 % 16 * 2 ^ 12 + b1 % 64 * 64 + b2 % 64
  unfolding read_utf8_three
  read_utf8_three-eq = ground (
    arith,
    bit_and_mask 6 b2,
    bit_and_mask 6 b1,
    bit_and_mask 4 b0,
    zero-bit_or (b2 % 64),
    bit_or_fields_low 6 (b1 % 64) (b2 % 64),
    bit_or_fields_low 12 (b0 % 16) (b1 % 64 * 64 + b2 % 64),
  )

  pub read_utf8_four-eq :
      read_utf8_four b0 b1 b2 b3 ≡ b0 % 8 * 2 ^ 18 + b1 % 64 * 2 ^ 12 + b2 % 64 * 64 + b3 % 64
  unfolding read_utf8_four
  read_utf8_four-eq = ground (
    arith,
    bit_and_mask 6 b3,
    bit_and_mask 6 b2,
    bit_and_mask 6 b1,
    bit_and_mask 3 b0,
    zero-bit_or (b3 % 64),
    bit_or_fields_low 6 (b2 % 64) (b3 % 64),
    bit_or_fields_low 12 (b1 % 64) (b2 % 64 * 64 + b3 % 64),
    bit_or_fields_low 18 (b0 % 8) (b1 % 64 * 2 ^ 12 + b2 % 64 * 64 + b3 % 64),
  )

-- The bit that `cp = 0x10000` has set before the fields are joined to it.
or_bit_six : (b : ℕ) → bit_or 64 b ≡ b / 128 * 128 + 64 + b % 64
or_bit_six b = ground (
  arith,
  bit_or_split 7 0 (b / 128) 64 (b % 128),
  zero-bit_or (b / 128),
  bit_or_split 6 1 (b % 128 / 64) 0 (b % 64),
  zero-bit_or (b % 64),
  ap (bit_or 1) {x = b % 128 / 64} {y = 0},
  ap (bit_or 1) {x = b % 128 / 64} {y = 1},
)

small_rest : (b : ℕ) → b < 256 → b % 2 ^ 8 ≡ b
small_rest b h = omega arith

-- The four fields of a surrogate pair, joined to 0x10000; `x` and `y` have two bits.
module _ (y b1 x b3 : ℕ) where
  or_fields :
      y < 4
      → b1 < 256
      → x < 4
      → b3 < 256
      → bit_or (bit_or (bit_or (bit_or 0x10000 b3) (x * 2 ^ 8)) (b1 * 2 ^ 10)) (y * 2 ^ 18)
        ≡ y * 2 ^ 18 + (b1 / 128 * 128 + 64 + b1 % 64) * 2 ^ 10 + x * 2 ^ 8 + b3
  or_fields hy h1 hx h3 = ground (
    arith,
    bit_or_fields 16 1 b3,
    bit_or_split 8 256 x b3 0,
    bit_or-zero b3,
    bit_or_fields 8 1 x,
    bit_or_split 10 64 b1 (x * 2 ^ 8 + b3) 0,
    bit_or-zero (x * 2 ^ 8 + b3),
    or_bit_six b1,
    bit_or_fields_low 18 y ((b1 / 128 * 128 + 64 + b1 % 64) * 2 ^ 10 + x * 2 ^ 8 + b3),
  )

module _ (b0 b1 b2 b3 : ℕ) where
  pub read_surrogate_be-eq :
      b1 < 256
      → b3 < 256
      → read_surrogate_be b0 b1 b2 b3
        ≡ b0 % 4 * 2 ^ 18 + (b1 / 128 * 128 + 64 + b1 % 64) * 2 ^ 10 + b2 % 4 * 2 ^ 8 + b3
  unfolding read_surrogate_be
  read_surrogate_be-eq h1 h3 =
      rw (bit_and_mask 2 b2, bit_and_mask 8 b1, bit_and_mask 2 b0, small_rest b1 h1)
        (or_fields (b0 % 4) b1 (b2 % 4) b3 (omega arith) h1 (omega arith) h3)

  pub read_surrogate_le-eq :
      b0 < 256
      → b2 < 256
      → read_surrogate_le b0 b1 b2 b3
        ≡ b1 % 4 * 2 ^ 18 + (b0 / 128 * 128 + 64 + b0 % 64) * 2 ^ 10 + b3 % 4 * 2 ^ 8 + b2
  unfolding read_surrogate_le
  read_surrogate_le-eq h0 h2 =
      rw (bit_and_mask 2 b3, bit_and_mask 2 b1)
        (or_fields (b1 % 4) b0 (b3 % 4) b2 (omega arith) h0 (omega arith) h2)
