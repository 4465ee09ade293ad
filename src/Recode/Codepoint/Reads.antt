-- ===== src/Recode/Codepoint/Reads.antt =====
-- What `read_codepoint` consumes, and that it looks at no more.
use orga_del_computador.Base.{
  ℕ, ◌≤◌, ◌<◌, ◌≡◌, arith, Option, none, some, List, [], ◌∷◌, ◌++◌, length,
}
use orga_del_computador.Recode.Encoding.{
  Encoding, utf8, utf16be, utf16le, utf32be, utf32le, unknown,
}
use orga_del_computador.Recode.Codepoint.{read_codepoint, read_utf32, read_utf16, read_utf8}

-- A result of a read on `n` bytes that consumes at least one byte, at most four, and no more than
-- there are; without a result fewer than four are there.
abbrev pub Consumes : ℕ → Option (ℕ × ℕ) → Type 0
Consumes n none = n < 4
Consumes n (some (b, cp)) = (1 ≤ b) × (b ≤ 4) × (b ≤ n)

read_utf32-Consumes :
    (f : ℕ → ℕ → ℕ → ℕ → ℕ) (buf : List ℕ) → Consumes (length buf) (read_utf32 f buf)
unfolding read_utf32
read_utf32-Consumes f buf = ground arith

read_utf16-Consumes :
    (f : ℕ → ℕ → ℕ) (g : ℕ → ℕ → ℕ → ℕ → ℕ) (buf : List ℕ)
    → Consumes (length buf) (read_utf16 f g buf)
unfolding read_utf16
read_utf16-Consumes f g buf = ground arith

read_utf8-Consumes : (buf : List ℕ) → Consumes (length buf) (read_utf8 buf)
unfolding read_utf8
read_utf8-Consumes buf = ground arith

read_utf32-append :
    (f : ℕ → ℕ → ℕ → ℕ → ℕ) (buf more : List ℕ) (r : ℕ × ℕ)
    → read_utf32 f buf ≡ some r
    → read_utf32 f (buf ++ more) ≡ some r
unfolding read_utf32
read_utf32-append f [] more r e = ground arith
read_utf32-append f (a ∷ []) more r e = ground arith
read_utf32-append f (a ∷ b ∷ []) more r e = ground arith
read_utf32-append f (a ∷ b ∷ c ∷ []) more r e = ground arith
read_utf32-append f (a ∷ b ∷ c ∷ d ∷ rest) more r e = ground arith

read_utf16-append :
    (f : ℕ → ℕ → ℕ) (g : ℕ → ℕ → ℕ → ℕ → ℕ) (buf more : List ℕ) (r : ℕ × ℕ)
    → read_utf16 f g buf ≡ some r
    → read_utf16 f g (buf ++ more) ≡ some r
unfolding read_utf16
read_utf16-append f g [] more r e = ground arith
read_utf16-append f g (a ∷ []) more r e = ground arith
read_utf16-append f g (a ∷ b ∷ []) more r e = ground arith
read_utf16-append f g (a ∷ b ∷ c ∷ []) more r e = ground arith
read_utf16-append f g (a ∷ b ∷ c ∷ d ∷ rest) more r e = ground arith

read_utf8-append :
    (buf more : List ℕ) (r : ℕ × ℕ) → read_utf8 buf ≡ some r → read_utf8 (buf ++ more) ≡ some r
unfolding read_utf8
read_utf8-append [] more r e = ground arith
read_utf8-append (a ∷ []) more r e = ground arith
read_utf8-append (a ∷ b ∷ []) more r e = ground arith
read_utf8-append (a ∷ b ∷ c ∷ []) more r e = ground arith
read_utf8-append (a ∷ b ∷ c ∷ d ∷ rest) more r e = ground arith

pub read_codepoint-Consumes :
    (enc : Encoding) (buf : List ℕ) → Consumes (length buf) (read_codepoint enc buf)
unfolding read_codepoint
read_codepoint-Consumes utf32be buf = read_utf32-Consumes _ buf
read_codepoint-Consumes utf32le buf = read_utf32-Consumes _ buf
read_codepoint-Consumes utf16be buf = read_utf16-Consumes _ _ buf
read_codepoint-Consumes utf16le buf = read_utf16-Consumes _ _ buf
read_codepoint-Consumes utf8 buf = read_utf8-Consumes buf
read_codepoint-Consumes unknown buf = read_utf8-Consumes buf

-- A codepoint that is read from a buffer is read in the same way when more bytes follow.
pub read_codepoint-append :
    (enc : Encoding) (buf more : List ℕ) (r : ℕ × ℕ)
    → read_codepoint enc buf ≡ some r
    → read_codepoint enc (buf ++ more) ≡ some r
unfolding read_codepoint
read_codepoint-append utf32be buf more r e = read_utf32-append _ buf more r e
read_codepoint-append utf32le buf more r e = read_utf32-append _ buf more r e
read_codepoint-append utf16be buf more r e = read_utf16-append _ _ buf more r e
read_codepoint-append utf16le buf more r e = read_utf16-append _ _ buf more r e
read_codepoint-append utf8 buf more r e = read_utf8-append buf more r e
read_codepoint-append unknown buf more r e = read_utf8-append buf more r e
