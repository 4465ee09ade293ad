-- ===== src/Tools.antt =====
-- Lab2: the numbers that btest, ishow and fshow read from their arguments, and what ishow and fshow
-- show of them.
pub mod Ishow
pub mod Fshow
pub mod Scan
pub mod Range
pub mod Floats
pub mod Tests
use orga_del_computador.Base.{
  ℕ, ◌+◌, ◌-◌, ◌*◌, ◌/◌, ◌%◌, ◌^◌, ◌<◌, Bool, true, false, not, ◌&&◌, ◌||◌, Option, none, some,
  List, [], ◌∷◌, bit_and, u32, is_true, ltb, ◌==◌, if◌then◌else◌,
}

-- `ishex` and `isfloat` behind a character: x or X, e or E, or a point.
unfoldable pub scan_step : Bool × Bool → ℕ → Bool × Bool
scan_step (ishex, isfloat) c =
    if (c == 120) || (c == 88)
    then (true, isfloat)
    else if (c == 101) || (c == 69)
    then (ishex, not ishex || isfloat)
    else if c == 46
    then (ishex, true)
    else (ishex, isfloat)

-- The loop over the characters.
unfoldable pub scan : Bool × Bool → List ℕ → Bool × Bool
unfolding scan_step
scan flags [] = flags
scan flags (c ∷ cs) = scan (scan_step flags c) cs

-- Whether the text stands for a float.
unfoldable pub is_float : List ℕ → Bool
unfolding scan
is_float sval = (scan (false, false) sval).1

-- What the tools call: `strtof` gives the bits of the float and the text behind the number, and
-- `strtoll` with base 0 the pattern of a `long long`.
pub record Parsers : Type 0 where
  pub strtof : List ℕ → ℕ × List ℕ
  pub strtoll : List ℕ → ℕ

-- `llval >> 31` on the pattern of a `long long`, with copies of the sign.
unfoldable pub upper_bits : ℕ → ℕ
upper_bits llval = if ltb llval (2 ^ 63) then llval / 2 ^ 31 else 2 ^ 64 - 2 ^ 33 + llval / 2 ^ 31

-- `upperbits == 0 || upperbits == -1 || upperbits == 1`
unfoldable pub fits_unsigned : ℕ → Bool
unfolding upper_bits
fits_unsigned llval =
    (upper_bits llval == 0) || (upper_bits llval == 2 ^ 64 - 1) || (upper_bits llval == 1)

abbrev pub is_nil : List ℕ → Bool
is_nil [] = true
is_nil (c ∷ cs) = false

unfoldable pub float_val : ℕ × List ℕ → Option ℕ
float_val (fval, endp) = if is_nil endp then some fval else none

-- The value that is stored when 1 is returned; `valp` is not NULL.
unfoldable pub int_val : Parsers → List ℕ → Option ℕ
unfolding fits_unsigned
int_val p sval = if fits_unsigned (p.strtoll sval) then some (u32 (p.strtoll sval)) else none
