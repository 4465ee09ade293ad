-- ===== src/Tools/Ishow.antt =====
-- Lab2/ishow.c.
use orga_del_computador.Base.{
  ℕ, ◌^◌, ◌-◌, Bool, true, false, Option, none, some, List, [], ◌∷◌, ltb, if◌then◌else◌,
}
use orga_del_computador.Tools.{Parsers, is_float, int_val}

unfoldable pub get_num_val : Parsers → List ℕ → Option ℕ
unfolding is_float int_val
get_num_val p sval = if is_float sval then none else int_val p sval

-- An `int` as it is printed: whether it has a minus sign, and its digits.
abbrev pub signed : ℕ → Bool × ℕ
signed uf = if ltb uf (2 ^ 31) then (false, uf) else (true, 2 ^ 32 - uf)

-- The lines of the output.
pub data Line : Type 0 where
  shown : ℕ → Bool × ℕ → ℕ → Line
  cannot_convert : List ℕ → Line
  usage : Line

unfoldable pub show_int : ℕ → Line
show_int uf = shown uf (signed uf) uf

unfoldable pub line_of : List ℕ → Option ℕ → Line
unfolding show_int
line_of sval none = cannot_convert sval
line_of sval (some uf) = show_int uf

unfoldable pub show_all : Parsers → List (List ℕ) → List Line
unfolding get_num_val line_of
show_all p [] = []
show_all p (sval ∷ svals) = line_of sval (get_num_val p sval) ∷ show_all p svals

-- The arguments behind the name of the program; `usage` ends it.
unfoldable pub main : Parsers → List (List ℕ) → List Line
unfolding show_all
main p [] = usage ∷ []
main p (sval ∷ svals) = show_all p (sval ∷ svals)
