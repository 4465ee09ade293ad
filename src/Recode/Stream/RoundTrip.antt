-- ===== src/Recode/Stream/RoundTrip.antt =====
-- The round trip of whole texts, and the conversion of `main` from one encoding to another.
use orga_del_computador.Base.{
  ℕ, ◌+◌, ◌<◌, ◌≡◌, ◌≢◌, refl, sym, ap, ◌∙◌, arith, none, some, List, [], ◌∷◌, ◌++◌, length,
  drop-append_length,
}
use mathlib.Core.Path.{subst}
use mathlib.Core.List.{flatten}
use mathlib.Core.Option
use orga_del_computador.Recode.Encoding.{
  Encoding, utf8, utf16be, utf16le, utf32be, utf32le, unknown, write_bom, bom_to_encoding,
}
use orga_del_computador.Recode.Codepoint.{
  read_codepoint, read_utf8, read_utf16, read_utf32, write_codepoint,
}
use orga_del_computador.Recode.Codepoint.RoundTrip.{Encodable, read_codepoint-write_codepoint}
use orga_del_computador.Recode.Stream.{orig_to_ucs4, ucs4_to_dest, main, carried}
use orga_del_computador.Recode.Stream.Decodes.{Decodes, orig_to_ucs4-Decodes}
use orga_del_computador.Recode.Stream.Chunks.{main-orig_to_ucs4}

-- A text whose codepoints the encoding can write.
abbrev pub AllEncodable : Encoding → List ℕ → Type 0
AllEncodable enc [] = Unit
AllEncodable enc (cp ∷ cps) = Encodable enc cp × AllEncodable enc cps

read_codepoint-empty : (enc : Encoding) → read_codepoint enc [] ≡ none
unfolding read_codepoint read_utf8 read_utf16 read_utf32
read_codepoint-empty utf8 = refl
read_codepoint-empty utf16be = refl
read_codepoint-empty utf16le = refl
read_codepoint-empty utf32be = refl
read_codepoint-empty utf32le = refl
read_codepoint-empty unknown = refl

Decodes-ucs4_to_dest :
    (enc : Encoding) (cps : List ℕ)
    → AllEncodable enc cps
    → Decodes enc (ucs4_to_dest enc cps) cps []
unfolding ucs4_to_dest
Decodes-ucs4_to_dest enc [] h = (read_codepoint-empty enc, refl)
Decodes-ucs4_to_dest enc (cp ∷ cps) (h, hs) = (
  length (write_codepoint enc cp),
  read_codepoint-write_codepoint enc cp (ucs4_to_dest enc cps) h,
  subst (λ b. Decodes enc b cps [])
      (sym (drop-append_length (write_codepoint enc cp) (ucs4_to_dest enc cps)))
      (Decodes-ucs4_to_dest enc cps hs),
)

-- Decoding the text that `ucs4_to_dest` wrote gives its codepoints back and leaves nothing, when
-- the encoding can write them.
pub orig_to_ucs4-ucs4_to_dest :
    (enc : Encoding) (cps : List ℕ)
    → AllEncodable enc cps
    → orig_to_ucs4 enc (ucs4_to_dest enc cps) ≡ some (cps, [])
orig_to_ucs4-ucs4_to_dest enc cps h =
    orig_to_ucs4-Decodes enc (ucs4_to_dest enc cps) cps [] (Decodes-ucs4_to_dest enc cps h)

bom_to_encoding-known : (b0 b1 b2 b3 : ℕ) → bom_to_encoding b0 b1 b2 b3 ≢ unknown
unfolding bom_to_encoding
bom_to_encoding-known b0 b1 b2 b3 e = ground arith

-- What `main` carries over from the first four bytes is what follows the byte order mark.
carried-payload :
    (enc : Encoding) (b0 b1 b2 b3 : ℕ) (payload more : List ℕ)
    → enc ≢ unknown
    → write_bom enc ++ payload ≡ (b0 ∷ b1 ∷ b2 ∷ b3 ∷ more)
    → carried enc b0 b1 b2 b3 ++ more ≡ payload
unfolding carried write_bom
carried-payload utf8 b0 b1 b2 b3 payload more known e = cc
carried-payload utf16be b0 b1 b2 b3 payload more known e = cc
carried-payload utf16le b0 b1 b2 b3 payload more known e = cc
carried-payload utf32be b0 b1 b2 b3 payload more known e = cc
carried-payload utf32le b0 b1 b2 b3 payload more known e = cc
carried-payload unknown b0 b1 b2 b3 payload more known e = absurd (known refl)

-- `bom_to_encoding` recognises the byte order mark that `write_bom` writes for the UTF-16 and
-- UTF-32 encodings, whatever text follows, if in UTF-16LE the next two bytes are not both zero.
pub bom_to_encoding-write_bom :
    (enc : Encoding) (b0 b1 b2 b3 : ℕ) (payload more : List ℕ)
    → enc ≢ utf8
    → enc ≢ unknown
    → (enc ≡ utf16le → 0 < b2 + b3)
    → write_bom enc ++ payload ≡ (b0 ∷ b1 ∷ b2 ∷ b3 ∷ more)
    → bom_to_encoding b0 b1 b2 b3 ≡ enc
unfolding bom_to_encoding write_bom
bom_to_encoding-write_bom utf8 b0 b1 b2 b3 payload more marked known nonzero e =
    absurd (marked refl)
bom_to_encoding-write_bom utf16be b0 b1 b2 b3 payload more marked known nonzero e = ground arith
bom_to_encoding-write_bom utf16le b0 b1 b2 b3 payload more marked known nonzero e =
    ground (arith, nonzero refl)
bom_to_encoding-write_bom utf32be b0 b1 b2 b3 payload more marked known nonzero e = ground arith
bom_to_encoding-write_bom utf32le b0 b1 b2 b3 payload more marked known nonzero e = ground arith
bom_to_encoding-write_bom unknown b0 b1 b2 b3 payload more marked known nonzero e =
    absurd (known refl)

-- When the input is the byte order mark and the text of some codepoints in an encoding that can
-- write them, it has more than four bytes and the mark is recognised, `main` writes the byte order
-- mark and the text of the same codepoints in the asked encoding, however the input is cut into
-- blocks.
pub main-converts :
    (orig dest : Encoding) (cps : List ℕ) (b0 b1 b2 b3 : ℕ) (block : List ℕ)
    (blocks : List (List ℕ))
    → AllEncodable orig cps
    → bom_to_encoding b0 b1 b2 b3 ≡ orig
    → write_bom orig ++ ucs4_to_dest orig cps ≡ (b0 ∷ b1 ∷ b2 ∷ b3 ∷ flatten (block ∷ blocks))
    → main dest b0 b1 b2 b3 (block ∷ blocks) ≡ some (write_bom dest ++ ucs4_to_dest dest cps)
main-converts orig dest cps b0 b1 b2 b3 block blocks h found e =
    main-orig_to_ucs4 dest b0 b1 b2 b3 block blocks
    ∙ subst
        (λ (enc : Encoding).
          Option.map (λ (cps, rest). write_bom dest ++ ucs4_to_dest dest cps)
            (orig_to_ucs4 enc (carried enc b0 b1 b2 b3 ++ flatten (block ∷ blocks)))
          ≡ some (write_bom dest ++ ucs4_to_dest dest cps))
        (sym found)
        (ap (Option.map (λ (cps, rest). write_bom dest ++ ucs4_to_dest dest cps)) (
          ap (orig_to_ucs4 orig) (
            carried-payload orig b0 b1 b2 b3 (ucs4_to_dest orig cps) (flatten (block ∷ blocks))
              known e)
          ∙ orig_to_ucs4-ucs4_to_dest orig cps h))
  where
    known : orig ≢ unknown
    known u = bom_to_encoding-known b0 b1 b2 b3 (found ∙ u)
