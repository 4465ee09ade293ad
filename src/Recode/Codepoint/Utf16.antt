-- ===== src/Recode/Codepoint/Utf16.antt =====
-- UTF-16: what `read_codepoint` makes of what `write_codepoint` writes.
use orga_del_computador.Base.{
  ℕ, ◌+◌, ◌-◌, ◌*◌, ◌/◌, ◌%◌, ◌^◌, ◌≤◌, ◌<◌, ◌≡◌, ◌⊎◌, inl, inr, sym, ◌∙◌, ap, ap₂, le_cases, arith,
  bit_and, bit_or, u8, some, List, [], ◌∷◌, ◌++◌, length,
}
use orga_del_computador.Base.Bits.{bit_and_mask, bit_and_shifted, bit_or_fields_low}
use orga_del_computador.Recode.Codepoint.{
  read_utf16, write_utf16be, write_utf16le, read_two_be, read_two_le, read_surrogate_be,
  read_surrogate_le,
}
use orga_del_computador.Recode.Codepoint.Fields.{
  read_two_be-eq, read_two_le-eq, read_surrogate_be-eq, read_surrogate_le-eq,
}

module _ (cp : ℕ) where
  single_bytes :
      cp ≤ 0xFFFF → (u8 (bit_and cp 0xFF00 / 2 ^ 8) ≡ cp / 256) × (u8 (bit_and cp 0xFF) ≡ cp % 256)
  single_bytes small = (
    ground (arith, bit_and_shifted 8 255 cp, bit_and_mask 8 (cp / 2 ^ 8)),
    ground (arith, bit_and_mask 8 cp),
  )

  -- The four bytes of a surrogate pair, `c` being the codepoint less 0x10000.
  pair_bytes :
      (c : ℕ)
      → c < 0x100000
      → (u8 (bit_or (bit_and (c / 2 ^ 24) 0x3) 0xD8) ≡ 0xD8)
        × (u8 (bit_and (c / 2 ^ 10) 0xFF) ≡ c / 2 ^ 10 % 256)
        × (u8 (bit_or (bit_and (c / 2 ^ 8) 0x3) 0xDC) ≡ 0xDC + c / 2 ^ 8 % 4)
        × (u8 (bit_and c 0xFF) ≡ c % 256)
  pair_bytes c small = (
    ground (arith, bit_and_mask 2 (c / 2 ^ 24), bit_or_fields_low 2 54 (c / 2 ^ 24 % 4)),
    ground (arith, bit_and_mask 8 (c / 2 ^ 10)),
    ground (arith, bit_and_mask 2 (c / 2 ^ 8), bit_or_fields_low 2 55 (c / 2 ^ 8 % 4)),
    ground (arith, bit_and_mask 8 c),
  )

  write_utf16be-single : cp ≤ 0xFFFF → write_utf16be cp ≡ (cp / 256 ∷ cp % 256 ∷ [])
  unfolding write_utf16be
  write_utf16be-single small = ground (arith, single_bytes small)

  write_utf16le-single : cp ≤ 0xFFFF → write_utf16le cp ≡ (cp % 256 ∷ cp / 256 ∷ [])
  unfolding write_utf16le
  write_utf16le-single small = ground (arith, single_bytes small)

  write_utf16be-pair :
      (c : ℕ)
      → c < 0x100000
      → cp ≡ c + 0x10000
      → write_utf16be cp ≡ (0xD8 ∷ c / 2 ^ 10 % 256 ∷ (0xDC + c / 2 ^ 8 % 4) ∷ c % 256 ∷ [])
  unfolding write_utf16be
  write_utf16be-pair c small e =
      let less : cp - 0x10000 ≡ c = omega arith in
      ground (arith, pair_bytes (cp - 0x10000) (omega arith))

  write_utf16le-pair :
      (c : ℕ)
      → c < 0x100000
      → cp ≡ c + 0x10000
      → write_utf16le cp ≡ (c / 2 ^ 10 % 256 ∷ 0xD8 ∷ c % 256 ∷ (0xDC + c / 2 ^ 8 % 4) ∷ [])
  unfolding write_utf16le
  write_utf16le-pair c small e =
      let less : cp - 0x10000 ≡ c = omega arith in
      ground (arith, pair_bytes (cp - 0x10000) (omega arith))

-- What is read back of a surrogate pair: the bits 18 and 19 are not kept, and bit 16 is always set.
abbrev pub pair_value : ℕ → ℕ
pair_value cp = (cp - 0x10000) / 2 ^ 17 % 2 * 2 ^ 17 + 2 ^ 16 + cp % 2 ^ 16

-- The codepoints that UTF-16 gives back.
abbrev pub Utf16Encodable : ℕ → Type 0
Utf16Encodable cp =
    (cp < 0xD800) ⊎ ((0xDFFF < cp) × (cp ≤ 0xFFFF)) ⊎ (cp / 0x10000 ≡ 1) ⊎ (cp / 0x10000 ≡ 3)

module _ (cp : ℕ) (rest : List ℕ) where
  utf16be-single :
      (cp < 0xD800) ⊎ ((0xDFFF < cp) × (cp ≤ 0xFFFF))
      → read_utf16 read_two_be read_surrogate_be (write_utf16be cp ++ rest) ≡ some (2, cp)
  unfolding read_utf16
  utf16be-single h =
      rw (write_utf16be-single cp (omega arith))
        (ground (arith, read_two_be-eq (cp / 256) (cp % 256) (omega arith)))

  utf16le-single :
      (cp < 0xD800) ⊎ ((0xDFFF < cp) × (cp ≤ 0xFFFF))
      → read_utf16 read_two_le read_surrogate_le (write_utf16le cp ++ rest) ≡ some (2, cp)
  unfolding read_utf16
  utf16le-single h =
      rw (write_utf16le-single cp (omega arith))
        (ground (arith, read_two_le-eq (cp % 256) (cp / 256) (omega arith)))

  pub utf16be-pair :
      0xFFFF < cp
      → cp ≤ 0x10FFFF
      → read_utf16 read_two_be read_surrogate_be (write_utf16be cp ++ rest)
        ≡ some (4, pair_value cp)
  unfolding read_utf16
  utf16be-pair low high =
      let c = cp - 0x10000 in
      rw (write_utf16be-pair cp c (omega arith) (omega arith)) (
        ground (
          arith,
          read_two_be-eq 0xD8 (c / 2 ^ 10 % 256),
          read_surrogate_be-eq 0xD8 (c / 2 ^ 10 % 256) (0xDC + c / 2 ^ 8 % 4) (c % 256),
        ))

  pub utf16le-pair :
      0xFFFF < cp
      → cp ≤ 0x10FFFF
      → read_utf16 read_two_le read_surrogate_le (write_utf16le cp ++ rest)
        ≡ some (4, pair_value cp)
  unfolding read_utf16
  utf16le-pair low high =
      let c = cp - 0x10000 in
      rw (write_utf16le-pair cp c (omega arith) (omega arith)) (
        ground (
          arith,
          read_two_le-eq (c / 2 ^ 10 % 256) 0xD8,
          read_surrogate_le-eq (c / 2 ^ 10 % 256) 0xD8 (c % 256) (0xDC + c / 2 ^ 8 % 4),
        ))

  pub utf16be-round_trip :
      Utf16Encodable cp
      → read_utf16 read_two_be read_surrogate_be (write_utf16be cp ++ rest)
        ≡ some (length (write_utf16be cp), cp)
  utf16be-round_trip h = elim (le_cases cp 0xFFFF) [
    | inl small ↦
        utf16be-single (omega arith)
        ∙ ap (λ l. some (length l, cp)) (sym (write_utf16be-single cp small))
    | inr large ↦
        utf16be-pair large (omega arith)
        ∙ ap₂ (λ l v. some (length l, v))
            (sym (write_utf16be-pair cp (cp - 0x10000) (omega arith) (omega arith))) (omega arith)
  ]

  pub utf16le-round_trip :
      Utf16Encodable cp
      → read_utf16 read_two_le read_surrogate_le (write_utf16le cp ++ rest)
        ≡ some (length (write_utf16le cp), cp)
  utf16le-round_trip h = elim (le_cases cp 0xFFFF) [
    | inl small ↦
        utf16le-single (omega arith)
        ∙ ap (λ l. some (length l, cp)) (sym (write_utf16le-single cp small))
    | inr large ↦
        utf16le-pair large (omega arith)
        ∙ ap₂ (λ l v. some (length l, v))
            (sym (write_utf16le-pair cp (cp - 0x10000) (omega arith) (omega arith))) (omega arith)
  ]
