-- ===== src/Tools/Range.antt =====
-- Which integers ishow and fshow take, and what is shown of them.
use orga_del_computador.Base.{
  ℕ, ◌-◌, ◌%◌, ◌^◌, ◌≤◌, ◌<◌, ◌≡◌, refl, ap, arith, Bool, true, false, ◌||◌, none, some, List, [],
  ◌∷◌, ltb, leb, if◌then◌else◌, ◌⊎◌,
}
use orga_del_computador.Tools.{Parsers, is_float, int_val, fits_unsigned, upper_bits}
use orga_del_computador.Tools.Ishow.{signed, shown, get_num_val, show_int, line_of, show_all, main}

-- A `long long` with its sign.
abbrev pub signed_long : ℕ → Bool × ℕ
signed_long n = if ltb n (2 ^ 63) then (false, n) else (true, 2 ^ 64 - n)

-- The numbers from -2^31 to 2^32 - 1.
abbrev pub in_range : ℕ → Bool
in_range n = ltb n (2 ^ 32) || leb (2 ^ 64 - 2 ^ 31) n

fits_unsigned-range : (n : ℕ) → n < 2 ^ 64 → fits_unsigned n ≡ in_range n
unfolding fits_unsigned upper_bits
fits_unsigned-range n h = ground arith

module _ (p : Parsers) (sval : List ℕ) (long : p.strtoll sval < 2 ^ 64) where
  -- Of the texts that do not look like floats the tools take exactly those whose number lies between
  -- -2^31 and 2^32 - 1, and keep it modulo 2^32.
  pub int_val-range :
      int_val p sval ≡ (if in_range (p.strtoll sval) then some (p.strtoll sval % 2 ^ 32) else none)
  unfolding int_val
  int_val-range = rw (fits_unsigned-range (p.strtoll sval) long) refl

  -- For a text that does not look like a float and stands for a number from -2^31 to 2^31 - 1,
  -- ishow prints one line, whose signed number is the number of the text.
  pub main-signed :
      is_float sval ≡ false
      → (p.strtoll sval < 2 ^ 31) ⊎ (2 ^ 64 - 2 ^ 31 ≤ p.strtoll sval)
      → (uf : ℕ) × (main p (sval ∷ []) ≡ shown uf (signed_long (p.strtoll sval)) uf ∷ [])
  unfolding main show_all get_num_val line_of show_int
  main-signed int small = (
    p.strtoll sval % 2 ^ 32,
    rw (int, int_val-range, kept)
        (ap (λ v. shown (p.strtoll sval % 2 ^ 32) v (p.strtoll sval % 2 ^ 32) ∷ []) same),
  )
    where
      kept : in_range (p.strtoll sval) ≡ true
      kept = ground (arith, small, long)

      same : signed (p.strtoll sval % 2 ^ 32) ≡ signed_long (p.strtoll sval)
      same = ground (arith, small, long)
