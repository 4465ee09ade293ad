-- ===== src/Recode/Codepoint/Utf8.antt =====
-- UTF-8: what `write_codepoint` writes, `read_codepoint` reads.
use orga_del_computador.Base.{
  ℕ, ◌+◌, ◌/◌, ◌%◌, ◌^◌, ◌≤◌, ◌<◌, ◌≡◌, inl, inr, sym, ◌∙◌, ap, le_cases, arith, bit_and, bit_or,
  u8, some, List, [], ◌∷◌, ◌++◌, length,
}
use orga_del_computador.Base.Bits.{bit_and_mask, bit_or_fields_low}
use orga_del_computador.Recode.Codepoint.{read_utf8, write_utf8}
use orga_del_computador.Recode.Codepoint.Fields.{
  read_utf8_two-eq, read_utf8_three-eq, read_utf8_four-eq,
}

-- A byte with its tag in front, for each of the tags.
continuation : (x : ℕ) → u8 (bit_or (bit_and x 0x3F) 0x80) ≡ 128 + x % 64
continuation x = ground (arith, bit_and_mask 6 x, bit_or_fields_low 6 2 (x % 64))

module _ (cp : ℕ) where
  write_utf8-two : 0x7F < cp → cp ≤ 0x7FF → write_utf8 cp ≡ ((192 + cp / 64) ∷ (128 + cp % 64) ∷ [])
  unfolding write_utf8
  write_utf8-two low high =
      ground
        (arith, continuation cp, bit_and_mask 5 (cp / 64), bit_or_fields_low 6 3 (cp / 64 % 32))

  write_utf8-three :
      0x7FF < cp
      → cp ≤ 0xFFFF
      → write_utf8 cp ≡ ((224 + cp / 2 ^ 12) ∷ (128 + cp / 64 % 64) ∷ (128 + cp % 64) ∷ [])
  unfolding write_utf8
  write_utf8-three low high = ground (
    arith,
    continuation cp,
    continuation (cp / 64),
    bit_and_mask 4 (cp / 2 ^ 12),
    bit_or_fields_low 4 14 (cp / 2 ^ 12 % 16),
  )

  write_utf8-four :
      0xFFFF < cp
      → cp ≤ 0x10FFFF
      → write_utf8 cp ≡ (
          (240 + cp / 2 ^ 18)
          ∷ (128 + cp / 2 ^ 12 % 64)
          ∷ (128 + cp / 64 % 64)
          ∷ (128 + cp % 64)
          ∷ [])
  unfolding write_utf8
  write_utf8-four low high = ground (
    arith,
    continuation cp,
    continuation (cp / 64),
    continuation (cp / 2 ^ 12),
    bit_and_mask 3 (cp / 2 ^ 18),
    bit_or_fields_low 3 30 (cp / 2 ^ 18 % 8),
  )

module _ (cp : ℕ) (rest : List ℕ) where
  utf8-two : 0x7F < cp → cp ≤ 0x7FF → read_utf8 (write_utf8 cp ++ rest) ≡ some (2, cp)
  unfolding read_utf8
  utf8-two low high =
      rw (write_utf8-two cp low high)
        (ground (arith, read_utf8_two-eq (192 + cp / 64) (128 + cp % 64)))

  utf8-three : 0x7FF < cp → cp ≤ 0xFFFF → read_utf8 (write_utf8 cp ++ rest) ≡ some (3, cp)
  unfolding read_utf8
  utf8-three low high =
      rw (write_utf8-three cp low high) (
        ground (arith, read_utf8_three-eq (224 + cp / 2 ^ 12) (128 + cp / 64 % 64) (128 + cp % 64)))

  utf8-four : 0xFFFF < cp → cp ≤ 0x10FFFF → read_utf8 (write_utf8 cp ++ rest) ≡ some (4, cp)
  unfolding read_utf8
  utf8-four low high = rw (write_utf8-four cp low high) (
      ground (
        arith,
        read_utf8_four-eq (240 + cp / 2 ^ 18) (128 + cp / 2 ^ 12 % 64) (128 + cp / 64 % 64)
            (128 + cp % 64),
      ))

  one_long : cp ≤ 0x7F → 1 ≡ length (write_utf8 cp)
  unfolding write_utf8
  one_long high = ground arith

  utf8-one : cp ≤ 0x7F → read_utf8 (write_utf8 cp ++ rest) ≡ some (1, cp)
  unfolding read_utf8 write_utf8
  utf8-one high = ground arith

  -- What is written in UTF-8 is read back, with as many bytes as were written.
  pub utf8-round_trip :
      cp ≤ 0x10FFFF → read_utf8 (write_utf8 cp ++ rest) ≡ some (length (write_utf8 cp), cp)
  utf8-round_trip small = elim (le_cases cp 0x7F) [
    | inl one ↦ utf8-one one ∙ ap (λ n. some (n, cp)) (one_long one)
    | inr more ↦ elim (le_cases cp 0x7FF) [
      | inl two ↦
          utf8-two more two ∙ ap (λ l. some (length l, cp)) (sym (write_utf8-two cp more two))
      | inr more ↦ elim (le_cases cp 0xFFFF) [
        | inl three ↦
            utf8-three more three
            ∙ ap (λ l. some (length l, cp)) (sym (write_utf8-three cp more three))
        | inr more ↦
            utf8-four more small
            ∙ ap (λ l. some (length l, cp)) (sym (write_utf8-four cp more small))
      ]
    ]
  ]
