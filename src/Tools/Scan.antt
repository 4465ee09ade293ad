-- ===== src/Tools/Scan.antt =====
-- Which texts the tools take for floats.
use orga_del_computador.Base.{
  ℕ, ◌≡◌, arith, Bool, true, false, not, ◌&&◌, ◌||◌, List, [], ◌∷◌, ◌==◌, if◌then◌else◌,
}
use orga_del_computador.Tools.{scan, scan_step, is_float}

abbrev pub is_x : ℕ → Bool
is_x c = (c == 120) || (c == 88)

abbrev pub is_e : ℕ → Bool
is_e c = (c == 101) || (c == 69)

abbrev pub any : (ℕ → Bool) → List ℕ → Bool
any test [] = false
any test (c ∷ cs) = test c || any test cs

-- The text in front of the first x.
unfoldable pub before_x : List ℕ → List ℕ
before_x [] = []
before_x (c ∷ cs) = if is_x c then [] else c ∷ before_x cs

scan_eq :
    (ishex isfloat : Bool) (cs : List ℕ)
    → (scan (ishex, isfloat) cs).1
      ≡ isfloat || any (λ c. c == 46) cs || (not ishex && any is_e (before_x cs))
unfolding scan scan_step before_x
scan_eq ishex isfloat [] = ground arith
scan_eq ishex isfloat (c ∷ cs) = ground (
  arith,
  scan_eq true isfloat cs,
  scan_eq ishex (not ishex || isfloat) cs,
  scan_eq ishex true cs,
  scan_eq ishex isfloat cs,
)

-- A text is taken for a float exactly when it has a point, or an e or E with no x or X before it.
pub is_float-any : (cs : List ℕ) → is_float cs ≡ any (λ c. c == 46) cs || any is_e (before_x cs)
unfolding is_float
is_float-any cs = scan_eq false false cs
