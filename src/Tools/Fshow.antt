-- ===== src/Tools/Fshow.antt =====
-- Lab2/fshow.c.
use orga_del_computador.Base.{
  ℕ, ◌+◌, ◌-◌, ◌^◌, ◌/◌, Bool, Option, none, some, List, [], ◌∷◌, bit_and, u32, is_true, ◌==◌,
  if◌then◌else◌,
}
use orga_del_computador.Tools.{Parsers, is_float, float_val, int_val}

-- FRAC_SIZE, BIAS, FRAC_MASK, EXP_MASK
abbrev pub frac_size : ℕ
frac_size = 23

abbrev pub bias : ℕ
bias = 2 ^ 7 - 1

abbrev pub frac_mask : ℕ
frac_mask = 2 ^ frac_size - 1

abbrev pub exp_mask : ℕ
exp_mask = 2 ^ 8 - 1

unfoldable pub get_exp : ℕ → ℕ
get_exp uf = bit_and (uf / 2 ^ frac_size) exp_mask

unfoldable pub get_frac : ℕ → ℕ
get_frac uf = bit_and uf frac_mask

unfoldable pub get_sign : ℕ → ℕ
get_sign uf = bit_and (uf / 2 ^ 31) 0x1

-- What is printed of a float: an infinity with its sign, or the kind (denormalized or not), the
-- sign, the mantissa in units of 2^-23 and the pattern of the exponent, an `int`.
pub data Shown : Type 0 where
  infinity : Bool → Shown
  not_a_number : Shown
  finite : Bool → Bool → ℕ → ℕ → Shown

unfoldable pub show_float : ℕ → Shown
unfolding get_exp get_frac get_sign
show_float uf =
    let exp = get_exp uf in
    let frac = get_frac uf in
    let sign = get_sign uf in
    if exp == exp_mask
    then (if frac == 0 then infinity (is_true sign) else not_a_number)
    else let denorm = exp == 0 in
      finite denorm (is_true sign) (if denorm then frac else frac + 2 ^ frac_size)
        (if denorm then u32 (1 + 2 ^ 32 - bias) else u32 (exp + 2 ^ 32 - bias))

unfoldable pub get_num_val : Parsers → List ℕ → Option ℕ
unfolding is_float float_val int_val
get_num_val p sval = if is_float sval then float_val (p.strtof sval) else int_val p sval

-- The lines of the output: the bits and what they stand for.
pub data Line : Type 0 where
  shown : ℕ → Shown → Line
  invalid : List ℕ → Line
  usage : Line

-- `usage` ends the program, so what follows a text that is no number is not read.
unfoldable pub line_of : List ℕ → Option ℕ → List Line → List Line
unfolding show_float
line_of sval none rest = invalid sval ∷ usage ∷ []
line_of sval (some uf) rest = shown uf (show_float uf) ∷ rest

unfoldable pub show_all : Parsers → List (List ℕ) → List Line
unfolding get_num_val line_of
show_all p [] = []
show_all p (sval ∷ svals) = let rest = show_all p svals in line_of sval (get_num_val p sval) rest

unfoldable pub main : Parsers → List (List ℕ) → List Line
unfolding show_all
main p [] = usage ∷ []
main p (sval ∷ svals) = show_all p (sval ∷ svals)
