-- ===== src/Recode/Encoding.antt =====
-- The encodings and their byte order marks. A byte is a number below 256.
use orga_del_computador.Base.{ℕ, ◌&&◌, List, [], ◌∷◌, ◌==◌, if◌then◌else◌}
use Prim.Native.String.{String}
use text.Mathlib.Text.{◌==◌ as str_eq}

pub data Encoding : Type 0 where
  utf8 utf16be utf16le utf32be utf32le unknown : Encoding

-- The four bytes of the parameter `bom`.
unfoldable pub bom_to_encoding : ℕ → ℕ → ℕ → ℕ → Encoding
bom_to_encoding b0 b1 b2 b3 =
    if b0 == 0xFE && b1 == 0xFF
    then utf16be
    else if b0 == 0 && 0 == b1 && b2 == 0xFE && b3 == 0xFF
    then utf32be
    else if b0 == 0xFF && b1 == 0xFE && 0 == b2 && b3 == 0
    then utf32le
    else if b0 == 0xFF && b1 == 0xFE
    then utf16le
    else utf8

-- The bytes that are written; the function returns their number.
unfoldable pub write_bom : Encoding → List ℕ
write_bom utf16be = 0xFE ∷ 0xFF ∷ []
write_bom utf16le = 0xFF ∷ 0xFE ∷ []
write_bom utf32be = 0 ∷ 0 ∷ 0xFE ∷ 0xFF ∷ []
write_bom utf32le = 0xFF ∷ 0xFE ∷ 0 ∷ 0 ∷ []
write_bom utf8 = []
write_bom unknown = []

unfoldable pub str_to_encoding : String → Encoding
str_to_encoding enc =
    if str_eq enc "UTF-8"
    then utf8
    else if str_eq enc "UTF-16BE"
    then utf16be
    else if str_eq enc "UTF-16LE"
    then utf16le
    else if str_eq enc "UTF-32BE"
    then utf32be
    else if str_eq enc "UTF-32LE"
    then utf32le
    else unknown
