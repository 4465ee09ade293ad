-- ===== src/Tools/Floats.antt =====
-- What fshow shows of a float.
use orga_del_computador.Base.{
  ℕ, ◌+◌, ◌-◌, ◌*◌, ◌/◌, ◌^◌, ◌<◌, ◌≡◌, ◌≢◌, refl, ◌∙◌, ap₂, arith, Bool, true, false, is_true, ◌⊎◌,
  inl, inr, u32, ◌==◌, if◌then◌else◌, ==_iff,
}
use orga_del_computador.Base.Bits.{bit_and_mask}
use orga_del_computador.DataLab.Floats.{pattern_of}
use orga_del_computador.Tools.Fshow.{
  get_exp, get_frac, get_sign, show_float, Shown, infinity, not_a_number, finite,
}

-- The value of a finite float without its sign, in units of 2^-149.
abbrev pub units : ℕ → ℕ → ℕ
units e f = if e == 0 then f else (2 ^ 23 + f) * 2 ^ (e - 1)

-- A mantissa and the pattern of an exponent, in the same units.
abbrev pub product : ℕ → ℕ → ℕ
product mantissa uexp = mantissa * 2 ^ u32 (uexp + 126)

abbrev pub IsShown : ℕ → ℕ → ℕ → Shown → Type 0
IsShown s e f x =
    ((e ≡ 255) × (f ≡ 0) × (x ≡ infinity (is_true s)))
    ⊎ (((e ≡ 255) × (f ≢ 0) × (x ≡ not_a_number))
        ⊎ ((e ≢ 255)
            × (mantissa : ℕ) × (uexp : ℕ) × (x ≡ finite (e == 0) (is_true s) mantissa uexp)
            × (product mantissa uexp ≡ units e f)))

module _ (s e f : ℕ) (s_bit : s < 2) (e_field : e < 256) (f_field : f < 2 ^ 23) where
  exp_eq : get_exp (pattern_of s e f) ≡ e
  unfolding get_exp
  exp_eq = bit_and_mask 8 (pattern_of s e f / 2 ^ 23) ∙ omega arith

  frac_eq : get_frac (pattern_of s e f) ≡ f
  unfolding get_frac
  frac_eq = bit_and_mask 23 (pattern_of s e f) ∙ omega arith

  sign_eq : get_sign (pattern_of s e f) ≡ s
  unfolding get_sign
  sign_eq = bit_and_mask 1 (pattern_of s e f / 2 ^ 31) ∙ omega arith

  kinds-IsShown :
      (c d z : Bool)
      → (e == 255) ≡ c
      → (f == 0) ≡ z
      → (e == 0) ≡ d
      → IsShown s e f (
          if c
          then (if z then infinity (is_true s) else not_a_number)
          else finite d
              (is_true s)
              (if d then f else f + 2 ^ 23)
              (if d then u32 (1 + 2 ^ 32 - 127) else u32 (e + 2 ^ 32 - 127)))
  kinds-IsShown true d true h k g = inl ((==_iff e 255).0 h, (==_iff f 0).0 k, refl)
  kinds-IsShown true d false h k g = inr (inl ((==_iff e 255).0 h, (λ z. ground arith), refl))
  kinds-IsShown false true z h k g =
      inr (inr ((λ i. ground arith), f, u32 (1 + 2 ^ 32 - 127), rw g refl, rw g (omega arith)))
  kinds-IsShown false false z h k g =
      inr (inr ((λ i. ground arith), f + 2 ^ 23, u32 (e + 2 ^ 32 - 127), rw g refl, rw g value))
    where
      exponent : e ≢ 0
      exponent z = ground arith

      same : u32 (u32 (e + 2 ^ 32 - 127) + 126) ≡ e - 1
      same = ground (arith, exponent)

      value : (f + 2 ^ 23) * 2 ^ u32 (u32 (e + 2 ^ 32 - 127) + 126) ≡ (2 ^ 23 + f) * 2 ^ (e - 1)
      value = ap₂ (λ m x. m * 2 ^ x) (omega arith) same

  -- For every sign bit, exponent field and fraction, fshow shows an infinity, a NaN, or a mantissa
  -- and an exponent that make up the value of the float, with its sign.
  pub show_float-IsShown : IsShown s e f (show_float (pattern_of s e f))
  unfolding show_float
  show_float-IsShown =
      rw (exp_eq, frac_eq, sign_eq) (kinds-IsShown (e == 255) (e == 0) (f == 0) refl refl refl)
