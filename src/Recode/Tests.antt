-- ===== src/Recode/Tests.antt =====
-- Examples for the theorems on the recoder, and tests of its functions.
use orga_del_computador.Base.{
  ℕ, ◌+◌, ◌/◌, ◌<◌, ◌≤◌, ◌≡◌, ◌⊎◌, ◌↔◌, refl, inl, arith, some, List, [], ◌∷◌, ◌++◌, length,
}
use mathlib.Core.List.{flatten}
use mathlib.Core.Option
use orga_del_computador.Recode.Encoding.{
  utf8, utf16be, utf16le, write_bom, bom_to_encoding, str_to_encoding,
}
use orga_del_computador.Recode.Codepoint.{
  read_codepoint, read_utf8, write_codepoint, write_utf8, write_utf16be, read_utf8_two,
}
use orga_del_computador.Recode.Codepoint.Reads.{read_codepoint-append}
use orga_del_computador.Recode.Codepoint.RoundTrip.{
  read_codepoint-write_codepoint, read_codepoint-surrogate,
}
use orga_del_computador.Recode.Stream.{orig_to_ucs4, ucs4_to_dest, main, main_loop, carried}
use orga_del_computador.Recode.Stream.Chunks.{main-orig_to_ucs4, orig_to_ucs4-total}
use orga_del_computador.Recode.Stream.RoundTrip.{
  AllEncodable, main-converts, orig_to_ucs4-ucs4_to_dest,
}

-- A, e with an accent, and a face.
abbrev text : List ℕ
text = 0x41 ∷ 0xE9 ∷ 0x1F600 ∷ []

text-AllEncodable : AllEncodable utf16be text
text-AllEncodable = (inl (omega arith), (inl (omega arith), (omega arith, record {})))

main-converts_example :
    main utf8 0xFE 0xFF 0 0x41 ((0 ∷ []) ∷ (0xE9 ∷ 0xD8 ∷ 0x3D ∷ []) ∷ (0xDE ∷ 0 ∷ []) ∷ [])
    ≡ some (0x41 ∷ 0xC3 ∷ 0xA9 ∷ 0xF0 ∷ 0x9F ∷ 0x98 ∷ 0x80 ∷ [])
unfolding bom_to_encoding write_bom ucs4_to_dest write_codepoint write_utf16be write_utf8 flatten
main-converts_example =
    main-converts utf16be utf8 text 0xFE 0xFF 0 0x41 (0 ∷ [])
      ((0xE9 ∷ 0xD8 ∷ 0x3D ∷ []) ∷ (0xDE ∷ 0 ∷ []) ∷ []) text-AllEncodable refl refl

read_codepoint-write_codepoint_example :
    read_codepoint utf8 (write_codepoint utf8 0xE9 ++ (0x41 ∷ [])) ≡ some (2, 0xE9)
unfolding write_codepoint write_utf8
read_codepoint-write_codepoint_example =
    read_codepoint-write_codepoint utf8 0xE9 (0x41 ∷ []) (omega arith)

main-orig_to_ucs4_example :
    main utf16le 0x41 0x42 0x43 0xC3 ((0xA9 ∷ []) ∷ [])
    ≡ Option.map
        (λ (cps, rest). write_bom utf16le ++ ucs4_to_dest utf16le cps)
        (orig_to_ucs4 utf8 (0x41 ∷ 0x42 ∷ 0x43 ∷ 0xC3 ∷ 0xA9 ∷ []))
unfolding bom_to_encoding carried flatten
main-orig_to_ucs4_example = main-orig_to_ucs4 utf16le 0x41 0x42 0x43 0xC3 (0xA9 ∷ []) []

orig_to_ucs4-total_example :
    (cps : List ℕ) × (rest : List ℕ) × (orig_to_ucs4 utf8 (0x41 ∷ 0xE2 ∷ 0x82 ∷ [])
      ≡ some (cps, rest))
    × (length rest < 4)
    × (length cps + length rest ≤ 3)
orig_to_ucs4-total_example = orig_to_ucs4-total utf8 (0x41 ∷ 0xE2 ∷ 0x82 ∷ [])

read_codepoint-surrogate_example :
    (read_codepoint utf16be (write_codepoint utf16be 0x2F800 ++ []) ≡ some (4, 0x1F800))
    × (read_codepoint utf16le (write_codepoint utf16le 0x2F800 ++ []) ≡ some (4, 0x1F800))
    × (◌≡◌ {A = ℕ} 0x1F800 0x2F800 ↔ ((0x2F800 / 0x10000 ≡ 1) ⊎ (0x2F800 / 0x10000 ≡ 3)))
read_codepoint-surrogate_example = read_codepoint-surrogate 0x2F800 [] (omega arith) (omega arith)

read_codepoint-append_example : read_codepoint utf8 (0xC3 ∷ 0xA9 ∷ 0x41 ∷ []) ≡ some (2, 0xE9)
unfolding read_codepoint read_utf8 read_utf8_two
read_codepoint-append_example =
    read_codepoint-append utf8 (0xC3 ∷ 0xA9 ∷ []) (0x41 ∷ []) (2, 0xE9) refl

orig_to_ucs4-ucs4_to_dest_example :
    orig_to_ucs4 utf16be (ucs4_to_dest utf16be text) ≡ some (text, [])
orig_to_ucs4-ucs4_to_dest_example = orig_to_ucs4-ucs4_to_dest utf16be text text-AllEncodable

-- An input of four bytes without a byte order mark gives an empty output.
short_input : main utf8 0x41 0x42 0x43 0x44 [] ≡ some []
unfolding main main_loop
short_input = refl

name_test : str_to_encoding "UTF-16LE" ≡ utf16le
unfolding str_to_encoding
name_test = refl
