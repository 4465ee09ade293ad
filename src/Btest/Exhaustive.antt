-- ===== src/Btest/Exhaustive.antt =====
-- Puzzles with two arguments of few values, which are all tested.
use orga_del_computador.Base.{
  ℕ, zero, suc, ◌+◌, ◌-◌, ◌^◌, ◌≤◌, ◌<◌, ◌≡◌, refl, ap, arith, true, false, ◌&&◌, none, inl, inr,
  Bool-cases, List, [], ◌∷◌, length, ◌==◌, ==_iff, u32,
}
use mathlib.Core.Path.{subst}
use orga_del_computador.DataLab.Ints.{slt}
use orga_del_computador.Btest.{
  max_test_vals, place_of, count_up, gen_vals, first_error, two_args, TestRec, Settings,
  arg_test_vals, row, test_2_arg, test_puzzle, test_function,
}
use orga_del_computador.Btest.Values.{All, IsBetween, row-short}

-- A value of an exhaustive loop.
All-count_up :
    (P : ℕ → Type 0) (rounds i v : ℕ)
    → i < 2 ^ 32
    → v < 2 ^ 32
    → place_of i ≤ place_of v
    → place_of v < place_of i + rounds
    → All P (count_up rounds i)
    → P v
unfolding count_up
All-count_up P zero i v small int above below a = absurd (omega arith)
All-count_up P (suc rounds) i v small int above below (p, a) = elim (Bool-cases (i == v)) [
  | inl same ↦ subst P ((==_iff i v).0 same) p
  | inr other ↦
      All-count_up P rounds (u32 (i + 1)) v (omega arith) int (ground (arith, other))
        (ground (arith, other)) a
]

first_error-zero :
    (test : ℕ → ℕ) (vals : List ℕ) → first_error test vals ≡ 0 → All (λ v. test v ≡ 0) vals
unfolding first_error
first_error-zero test [] none_found = tt
first_error-zero test (v ∷ vals) none_found = elim (Bool-cases (test v == 0)) [
  | inl right ↦ ((==_iff (test v) 0).0 right, first_error-zero test vals (rw right at none_found))
  | inr wrong ↦ let e : (test v == 0) ≡ true = (==_iff (test v) 0).1 (rw wrong at none_found) in cc
]

pub length-count_up : (rounds i : ℕ) → length (count_up rounds i) ≡ rounds
unfolding count_up
length-count_up zero i = refl
length-count_up (suc rounds) i = ap suc (length-count_up rounds (u32 (i + 1)))

-- An argument without a flag that has no more than MAX_TEST_VALS values, which are all tested.
pub record IsNarrow (s : Settings) (t : TestRec) (i : ℕ) : Type 0 where
  pub free : s.fixed i ≡ none
  pub integer : (t.low i == 1) && (t.high i == 1) ≡ false
  pub low_int : t.low i < 2 ^ 32
  pub few : slt (t.low i) (u32 (t.high i + 2 ^ 32 - max_test_vals)) ≡ false
  pub room : place_of (t.high i) + 1 - place_of (t.low i) ≤ max_test_vals

module _ (s : Settings) (t : TestRec) where
  value :
      (P : ℕ → Type 0) (range i v : ℕ)
      → IsNarrow s t i
      → IsBetween (t.low i) (t.high i) v
      → All P (arg_test_vals s t range i)
      → P v
  unfolding arg_test_vals gen_vals
  value P range i v x (int, above, below) a =
      All-count_up P (place_of (t.high i) + 1 - place_of (t.low i)) (t.low i) v x.low_int int above
        (omega arith) (rw (x.free, x.integer, x.few) at a)

  -- The row of such an argument has room for its values.
  row-narrow :
      (range i : ℕ) (next : List ℕ)
      → IsNarrow s t i
      → row (arg_test_vals s t range i) next ≡ arg_test_vals s t range i
  unfolding arg_test_vals gen_vals
  row-narrow range i next x = row-short (arg_test_vals s t range i) next (
      rw (x.free, x.integer, x.few)
        (omega (
          arith,
          x.room,
          length-count_up (place_of (t.high i) + 1 - place_of (t.low i)) (t.low i),
        )))

  -- When no flag fixes an argument of a puzzle with two arguments on integers, both have no more
  -- than MAX_TEST_VALS values, so that these are all tested, and `test_function` counts no error,
  -- the function is its reference at all arguments between the bounds.
  pub test_function-two_args :
      (f ft : ℕ → ℕ → ℕ) (a b : ℕ)
      → t.puzzle ≡ two_args f ft
      → IsNarrow s t 0
      → IsNarrow s t 1
      → test_function s t ≡ 0
      → IsBetween (t.low 0) (t.high 0) a
      → IsBetween (t.low 1) (t.high 1) b
      → f a b ≡ ft a b
  unfolding test_function test_puzzle test_2_arg
  test_function-two_args f ft a b shape first second passed p q =
      let run : test_puzzle s t (two_args f ft) ≡ 0 =
        subst (λ p. test_puzzle s t p ≡ 0) shape passed in
      let stored = row-narrow s.square_root 0 (arg_test_vals s t s.square_root 1) first in
      let row : first_error (test_2_arg f ft a) (arg_test_vals s t s.square_root 1) ≡ 0 =
        value (λ x. first_error (test_2_arg f ft x) (arg_test_vals s t s.square_root 1) ≡ 0)
          s.square_root 0 a first p
          (first_error-zero
            (λ x. first_error (test_2_arg f ft x) (arg_test_vals s t s.square_root 1))
            (arg_test_vals s t s.square_root 0) (rw stored at run)) in
      let cell : test_2_arg f ft a b ≡ 0 =
        value (λ y. test_2_arg f ft a y ≡ 0) s.square_root 1 b second q
          (first_error-zero (test_2_arg f ft a) (arg_test_vals s t s.square_root 1) row) in
      ground (arith, cell)
