-- ===== src/Recode/Codepoint/RoundTrip.antt =====
-- The codepoints that a write and a read give back.
use orga_del_computador.Base.{ℕ, ◌/◌, ◌^◌, ◌≤◌, ◌<◌, ◌≡◌, ◌⊎◌, ◌↔◌, arith, some, List, ◌++◌, length}
use orga_del_computador.Recode.Encoding.{
  Encoding, utf8, utf16be, utf16le, utf32be, utf32le, unknown,
}
use orga_del_computador.Recode.Codepoint.{read_codepoint, write_codepoint}
use orga_del_computador.Recode.Codepoint.Utf8.{utf8-round_trip}
use orga_del_computador.Recode.Codepoint.Utf16.{
  pair_value, Utf16Encodable, utf16be-pair, utf16le-pair, utf16be-round_trip, utf16le-round_trip,
}
use orga_del_computador.Recode.Codepoint.Utf32.{utf32be-round_trip, utf32le-round_trip}

-- A codepoint that the encoding can write.
abbrev pub Encodable : Encoding → ℕ → Type 0
Encodable utf32be cp = cp < 2 ^ 32
Encodable utf32le cp = cp < 2 ^ 32
Encodable utf16be cp = Utf16Encodable cp
Encodable utf16le cp = Utf16Encodable cp
Encodable utf8 cp = cp ≤ 0x10FFFF
Encodable unknown cp = cp ≤ 0x10FFFF

-- Whatever bytes follow, reading back what `write_codepoint` wrote takes exactly the bytes that
-- were written and gives the codepoint: in UTF-32 for every 32-bit codepoint, in UTF-8 up to
-- 0x10FFFF, in UTF-16 for those up to 0xFFFF that are no surrogates and for the planes 1 and 3.
pub read_codepoint-write_codepoint :
    (enc : Encoding) (cp : ℕ) (rest : List ℕ)
    → Encodable enc cp
    → read_codepoint enc (write_codepoint enc cp ++ rest)
      ≡ some (length (write_codepoint enc cp), cp)
unfolding read_codepoint write_codepoint
read_codepoint-write_codepoint utf8 cp rest h = utf8-round_trip cp rest h
read_codepoint-write_codepoint unknown cp rest h = utf8-round_trip cp rest h
read_codepoint-write_codepoint utf32be cp rest h = utf32be-round_trip cp rest h
read_codepoint-write_codepoint utf32le cp rest h = utf32le-round_trip cp rest h
read_codepoint-write_codepoint utf16be cp rest h = utf16be-round_trip cp rest h
read_codepoint-write_codepoint utf16le cp rest h = utf16le-round_trip cp rest h

-- A codepoint from 0x10000 to 0x10FFFF that is written in either UTF-16 reads back as the value
-- with bit 16 set and the bits from 18 of its offset dropped, which is the codepoint just in the
-- planes 1 and 3.
pub read_codepoint-surrogate :
    (cp : ℕ) (rest : List ℕ)
    → 0xFFFF < cp
    → cp ≤ 0x10FFFF
    → (read_codepoint utf16be (write_codepoint utf16be cp ++ rest) ≡ some (4, pair_value cp))
      × (read_codepoint utf16le (write_codepoint utf16le cp ++ rest) ≡ some (4, pair_value cp))
      × ((pair_value cp ≡ cp) ↔ ((cp / 0x10000 ≡ 1) ⊎ (cp / 0x10000 ≡ 3)))
unfolding read_codepoint write_codepoint
read_codepoint-surrogate cp rest low high =
    (utf16be-pair cp rest low high, utf16le-pair cp rest low high, omega arith)
