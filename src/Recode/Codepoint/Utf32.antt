-- ===== src/Recode/Codepoint/Utf32.antt =====
-- UTF-32: what `write_codepoint` writes, `read_codepoint` reads.
use orga_del_computador.Base.{ℕ, ◌/◌, ◌%◌, ◌^◌, ◌<◌, ◌≡◌, arith, bit_and, u8, some, List, ◌++◌}
use orga_del_computador.Base.Bits.{bit_and_mask, bit_and_shifted}
use orga_del_computador.Recode.Encoding.{utf32be, utf32le}
use orga_del_computador.Recode.Codepoint.{read_utf32, write_codepoint, read_four_be, read_four_le}
use orga_del_computador.Recode.Codepoint.Fields.{read_four_be-eq, read_four_le-eq}

module _ (cp : ℕ) where
  write_utf32-bytes :
      cp < 2 ^ 32
      → (u8 (bit_and cp 0xFF000000 / 2 ^ 24) ≡ cp / 2 ^ 24)
        × (u8 (bit_and cp 0xFF0000 / 2 ^ 16) ≡ cp / 2 ^ 16 % 256)
        × (u8 (bit_and cp 0xFF00 / 2 ^ 8) ≡ cp / 2 ^ 8 % 256)
        × (u8 (bit_and cp 0xFF) ≡ cp % 256)
  write_utf32-bytes small = (
    ground (arith, bit_and_shifted 24 255 cp, bit_and_mask 8 (cp / 2 ^ 24)),
    ground (arith, bit_and_shifted 16 255 cp, bit_and_mask 8 (cp / 2 ^ 16)),
    ground (arith, bit_and_shifted 8 255 cp, bit_and_mask 8 (cp / 2 ^ 8)),
    ground (arith, bit_and_mask 8 cp),
  )

module _ (cp : ℕ) (rest : List ℕ) where
  pub utf32be-round_trip :
      cp < 2 ^ 32 → read_utf32 read_four_be (write_codepoint utf32be cp ++ rest) ≡ some (4, cp)
  unfolding read_utf32 write_codepoint
  utf32be-round_trip small = ground (
    arith,
    write_utf32-bytes cp small,
    read_four_be-eq (cp / 2 ^ 24) (cp / 2 ^ 16 % 256) (cp / 2 ^ 8 % 256) (cp % 256),
  )

  pub utf32le-round_trip :
      cp < 2 ^ 32 → read_utf32 read_four_le (write_codepoint utf32le cp ++ rest) ≡ some (4, cp)
  unfolding read_utf32 write_codepoint
  utf32le-round_trip small = ground (
    arith,
    write_utf32-bytes cp small,
    read_four_le-eq (cp % 256) (cp / 2 ^ 8 % 256) (cp / 2 ^ 16 % 256) (cp / 2 ^ 24),
  )
