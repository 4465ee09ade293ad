-- ===== src/Recode/Codepoint.antt =====
-- `read_codepoint` and `write_codepoint`. The input buffer is the list of its `n` bytes, and the
-- result is the number of bytes consumed with `*dest`; `none` is the result 0. At `n == 0` the C
-- looks at `buf[0]` before it returns 0, which has no effect.
pub mod Reads
pub mod Fields
mod Utf8
mod Utf16
mod Utf32
pub mod RoundTrip
use orga_del_computador.Base.{
  ℕ, ◌-◌, ◌*◌, ◌/◌, ◌^◌, bit_and, bit_or, ◌&&◌, ◌||◌, Bool, Option, none, some, List, [], ◌∷◌, ltb,
  leb, u8, if◌then◌else◌, length, get_or,
}
use orga_del_computador.Recode.Encoding.{
  Encoding, utf8, utf16be, utf16le, utf32be, utf32le, unknown,
}

infixl 68 ◌<<<◌ ◌>>>◌
abbrev pub ◌<<<◌ : ℕ → ℕ → ℕ
x <<< k = x * 2 ^ k

abbrev pub ◌>>>◌ : ℕ → ℕ → ℕ
x >>> k = x / 2 ^ k

-- The assignments `cp |= ...` of each branch, in their order; `cp` starts at 0 but for surrogates.
unfoldable pub read_four_be : ℕ → ℕ → ℕ → ℕ → ℕ
read_four_be b0 b1 b2 b3 = bit_or (bit_or (bit_or (bit_or 0 (b0 <<< 24)) (b1 <<< 16)) (b2 <<< 8)) b3

unfoldable pub read_four_le : ℕ → ℕ → ℕ → ℕ → ℕ
read_four_le b0 b1 b2 b3 = bit_or (bit_or (bit_or (bit_or 0 b0) (b1 <<< 8)) (b2 <<< 16)) (b3 <<< 24)

-- The two-byte value of each UTF-16 branch; the order of the assignments differs.
unfoldable pub read_two_be : ℕ → ℕ → ℕ
read_two_be b0 b1 = bit_or (bit_or 0 (b0 <<< 8)) b1

unfoldable pub read_two_le : ℕ → ℕ → ℕ
read_two_le b0 b1 = bit_or (bit_or 0 (b1 <<< 8)) b0

unfoldable pub read_surrogate_be : ℕ → ℕ → ℕ → ℕ → ℕ
read_surrogate_be b0 b1 b2 b3 =
    bit_or (bit_or (bit_or (bit_or 0x10000 b3) (bit_and b2 0x3 <<< 8)) (bit_and b1 0xFF <<< 10))
      (bit_and b0 0x3 <<< 18)

unfoldable pub read_surrogate_le : ℕ → ℕ → ℕ → ℕ → ℕ
read_surrogate_le b0 b1 b2 b3 =
    bit_or (bit_or (bit_or (bit_or 0x10000 b2) (bit_and b3 0x3 <<< 8)) (b0 <<< 10))
      (bit_and b1 0x3 <<< 18)

unfoldable pub read_utf8_two : ℕ → ℕ → ℕ
read_utf8_two b0 b1 = bit_or (bit_or 0 (bit_and b1 0x3F)) (bit_and b0 0x1F <<< 6)

unfoldable pub read_utf8_three : ℕ → ℕ → ℕ → ℕ
read_utf8_three b0 b1 b2 =
    bit_or (bit_or (bit_or 0 (bit_and b2 0x3F)) (bit_and b1 0x3F <<< 6)) (bit_and b0 0x0F <<< 12)

unfoldable pub read_utf8_four : ℕ → ℕ → ℕ → ℕ → ℕ
read_utf8_four b0 b1 b2 b3 =
    bit_or
      (bit_or (bit_or (bit_or 0 (bit_and b3 0x3F)) (bit_and b2 0x3F <<< 6))
        (bit_and b1 0x3F <<< 12))
      (bit_and b0 0x07 <<< 18)

-- `cp < 0xD800 || cp > 0xDFFF`
abbrev pub is_single : ℕ → Bool
is_single cp = ltb cp 0xD800 || ltb 0xDFFF cp

-- The branches by encoding, on the buffer and its length.
unfoldable pub read_utf32 : (ℕ → ℕ → ℕ → ℕ → ℕ) → List ℕ → Option (ℕ × ℕ)
read_utf32 read_four buf =
    if ltb (length buf) 4
    then none
    else some (4, read_four (get_or buf 0 0) (get_or buf 1 0) (get_or buf 2 0) (get_or buf 3 0))

unfoldable pub read_utf16 : (ℕ → ℕ → ℕ) → (ℕ → ℕ → ℕ → ℕ → ℕ) → List ℕ → Option (ℕ × ℕ)
read_utf16 read_two read_surrogate buf =
    if ltb (length buf) 2
    then none
    else if is_single (read_two (get_or buf 0 0) (get_or buf 1 0))
    then some (2, read_two (get_or buf 0 0) (get_or buf 1 0))
    else if ltb (length buf) 4
    then none
    else some
        (4, read_surrogate (get_or buf 0 0) (get_or buf 1 0) (get_or buf 2 0) (get_or buf 3 0))

unfoldable pub read_utf8 : List ℕ → Option (ℕ × ℕ)
read_utf8 buf =
    if ltb 0 (length buf) && leb (get_or buf 0 0) 0x7F
    then some (1, get_or buf 0 0)
    else if leb (get_or buf 0 0) 0xDF
    then (if ltb (length buf) 2
        then none
        else some (2, read_utf8_two (get_or buf 0 0) (get_or buf 1 0)))
    else if leb (get_or buf 0 0) 0xEF
    then (if ltb (length buf) 3
        then none
        else some (3, read_utf8_three (get_or buf 0 0) (get_or buf 1 0) (get_or buf 2 0)))
    else if ltb (length buf) 4
    then none
    else some
        (4, read_utf8_four (get_or buf 0 0) (get_or buf 1 0) (get_or buf 2 0) (get_or buf 3 0))

-- UNKNOWN takes the last branch, as UTF8 does.
unfoldable pub read_codepoint : Encoding → List ℕ → Option (ℕ × ℕ)
read_codepoint utf32be buf = read_utf32 read_four_be buf
read_codepoint utf32le buf = read_utf32 read_four_le buf
read_codepoint utf16be buf = read_utf16 read_two_be read_surrogate_be buf
read_codepoint utf16le buf = read_utf16 read_two_le read_surrogate_le buf
read_codepoint utf8 buf = read_utf8 buf
read_codepoint unknown buf = read_utf8 buf

-- The bytes that are written; the function returns their number.
unfoldable pub write_utf16be : ℕ → List ℕ
write_utf16be cp =
    if leb cp 0xFFFF
    then u8 (bit_and cp 0xFF00 >>> 8) ∷ u8 (bit_and cp 0xFF) ∷ []
    else if leb cp 0x10FFFF
    then (let cp = cp - 0x10000 in
        u8 (bit_or (bit_and (cp >>> 24) 0x3) 0xD8)
        ∷ u8 (bit_and (cp >>> 10) 0xFF)
        ∷ u8 (bit_or (bit_and (cp >>> 8) 0x3) 0xDC)
        ∷ u8 (bit_and cp 0xFF)
        ∷ [])
    else []

unfoldable pub write_utf16le : ℕ → List ℕ
write_utf16le cp =
    if leb cp 0xFFFF
    then u8 (bit_and cp 0xFF) ∷ u8 (bit_and cp 0xFF00 >>> 8) ∷ []
    else if leb cp 0x10FFFF
    then (let cp = cp - 0x10000 in
        u8 (bit_and (cp >>> 10) 0xFF)
        ∷ u8 (bit_or (bit_and (cp >>> 24) 0x3) 0xD8)
        ∷ u8 (bit_and cp 0xFF)
        ∷ u8 (bit_or (bit_and (cp >>> 8) 0x3) 0xDC)
        ∷ [])
    else []

unfoldable pub write_utf8 : ℕ → List ℕ
write_utf8 cp =
    if leb cp 0x7F
    then u8 cp ∷ []
    else if leb cp 0x7FF
    then u8 (bit_or (bit_and (cp >>> 6) 0x1F) 0xC0) ∷ u8 (bit_or (bit_and cp 0x3F) 0x80) ∷ []
    else if leb cp 0xFFFF
    then (u8 (bit_or (bit_and (cp >>> 12) 0x0F) 0xE0)
        ∷ u8 (bit_or (bit_and (cp >>> 6) 0x3F) 0x80)
        ∷ u8 (bit_or (bit_and cp 0x3F) 0x80)
        ∷ [])
    else if leb cp 0x10FFFF
    then (u8 (bit_or (bit_and (cp >>> 18) 0x07) 0xF0)
        ∷ u8 (bit_or (bit_and (cp >>> 12) 0x3F) 0x80)
        ∷ u8 (bit_or (bit_and (cp >>> 6) 0x3F) 0x80)
        ∷ u8 (bit_or (bit_and cp 0x3F) 0x80)
        ∷ [])
    else []

unfoldable pub write_codepoint : Encoding → ℕ → List ℕ
write_codepoint utf32be cp =
    u8 (bit_and cp 0xFF000000 >>> 24)
    ∷ u8 (bit_and cp 0xFF0000 >>> 16)
    ∷ u8 (bit_and cp 0xFF00 >>> 8)
    ∷ u8 (bit_and cp 0xFF)
    ∷ []
write_codepoint utf32le cp =
    u8 (bit_and cp 0xFF)
    ∷ u8 (bit_and cp 0xFF00 >>> 8)
    ∷ u8 (bit_and cp 0xFF0000 >>> 16)
    ∷ u8 (bit_and cp 0xFF000000 >>> 24)
    ∷ []
write_codepoint utf16be cp = write_utf16be cp
write_codepoint utf16le cp = write_utf16le cp
write_codepoint utf8 cp = write_utf8 cp
write_codepoint unknown cp = write_utf8 cp
