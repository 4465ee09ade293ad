-- ===== src/Btest/Errors.antt =====
-- The errors that `test_function` counts.
use orga_del_computador.Base.{
  ℕ, ◌^◌, ◌≤◌, ◌<◌, ◌≡◌, refl, arith, false, ◌&&◌, none, List, [], ◌∷◌, length, ◌==◌, ==_iff,
}
use orga_del_computador.Btest.{
  max_test_vals, test_range, place_of, first_error, Puzzle, zero_args, one_arg, two_args,
  three_args, TestRec, Settings, at_least_one, arg_test_vals, test_1_arg, test_2_arg, test_3_arg,
  test_puzzle, test_function,
}
use orga_del_computador.Btest.Values.{All, IsBetween, gen_vals-IsBetween, row-short}

first_error-All :
    (P : ℕ → Type 0) (test : ℕ → ℕ) (vals : List ℕ)
    → All P vals
    → ((v : ℕ) → P v → test v ≡ 0)
    → first_error test vals ≡ 0
unfolding first_error
first_error-All P test [] a right = refl
first_error-All P test (v ∷ vals) (p, a) right =
    rw (right v p) (first_error-All P test vals a right)

at_least_one_le : (range : ℕ) → range ≤ max_test_vals → at_least_one range ≤ max_test_vals
unfolding at_least_one
at_least_one_le range small = ground arith

-- An argument of an integer puzzle: no flag gives it, its bounds are `int`s in order with room for
-- the subtraction of MAX_TEST_VALS, and the random values lie between them.
pub record IsSampled (s : Settings) (t : TestRec) (i : ℕ) : Type 0 where
  pub free : s.fixed i ≡ none
  pub low_int : t.low i < 2 ^ 32
  pub high_int : t.high i < 2 ^ 32
  pub integer : (t.low i == 1) && (t.high i == 1) ≡ false
  pub order : place_of (t.low i) ≤ place_of (t.high i)
  pub room : max_test_vals ≤ place_of (t.high i)
  pub drawn : (j : ℕ) → IsBetween (t.low i) (t.high i) (s.random i j)

-- The function is its reference between the bounds.
abbrev pub Agrees : TestRec → Puzzle → Type 0
Agrees t (zero_args r rt) = r ≡ rt
Agrees t (one_arg f ft) = (a : ℕ) → IsBetween (t.low 0) (t.high 0) a → f a ≡ ft a
Agrees t (two_args f ft) =
    (a b : ℕ) → IsBetween (t.low 0) (t.high 0) a → IsBetween (t.low 1) (t.high 1) b → f a b ≡ ft a b
Agrees t (three_args f ft) =
    (a b c : ℕ)
    → IsBetween (t.low 0) (t.high 0) a
    → IsBetween (t.low 1) (t.high 1) b
    → IsBetween (t.low 2) (t.high 2) c
    → f a b c ≡ ft a b c

module _ (s : Settings) (t : TestRec) (sampled : (i : ℕ) → IsSampled s t i) where
  values :
      (range i : ℕ)
      → range ≤ max_test_vals
      → All (IsBetween (t.low i) (t.high i)) (arg_test_vals s t range i)
  unfolding arg_test_vals
  values range i small =
      let x = sampled i in
      rw x.free (
        gen_vals-IsBetween (t.low i) (t.high i) x.low_int x.high_int (s.random i)
          (at_least_one range) x.drawn x.integer x.order x.room (at_least_one_le range small))

  test_puzzle-Agrees :
      (p : Puzzle)
      → s.square_root ≤ max_test_vals
      → s.cube_root ≤ max_test_vals
      → length (arg_test_vals s t s.square_root 0) ≤ max_test_vals
      → length (arg_test_vals s t s.cube_root 0) ≤ max_test_vals
      → length (arg_test_vals s t s.cube_root 1) ≤ max_test_vals
      → Agrees t p
      → test_puzzle s t p ≡ 0
  unfolding test_puzzle
  test_puzzle-Agrees (zero_args r rt) two three fit0 fit1 fit2 same =
      rw (same, (==_iff rt rt).1 refl) refl
  test_puzzle-Agrees (one_arg f ft) two three fit0 fit1 fit2 same =
      first_error-All (IsBetween (t.low 0) (t.high 0)) (test_1_arg f ft)
        (arg_test_vals s t test_range 0) (values test_range 0 (omega arith))
        (λ a p. rw (same a p, (==_iff (ft a) (ft a)).1 refl) refl)
  test_puzzle-Agrees (two_args f ft) two three fit0 fit1 fit2 same =
      rw (row-short (arg_test_vals s t s.square_root 0) (arg_test_vals s t s.square_root 1) fit0) (
        first_error-All (IsBetween (t.low 0) (t.high 0))
          (λ a. first_error (test_2_arg f ft a) (arg_test_vals s t s.square_root 1))
          (arg_test_vals s t s.square_root 0) (values s.square_root 0 two)
          (λ a p.
            first_error-All (IsBetween (t.low 1) (t.high 1)) (test_2_arg f ft a)
              (arg_test_vals s t s.square_root 1) (values s.square_root 1 two)
              (λ b q. rw (same a b p q, (==_iff (ft a b) (ft a b)).1 refl) refl)))
  test_puzzle-Agrees (three_args f ft) two three fit0 fit1 fit2 same =
      rw
        (
          row-short (arg_test_vals s t s.cube_root 0) (arg_test_vals s t s.cube_root 1) fit1,
          row-short (arg_test_vals s t s.cube_root 1) (arg_test_vals s t s.cube_root 2) fit2,
        )
        (first_error-All (IsBetween (t.low 0) (t.high 0))
          (λ a.
            first_error (λ b. first_error (test_3_arg f ft a b) (arg_test_vals s t s.cube_root 2))
              (arg_test_vals s t s.cube_root 1))
          (arg_test_vals s t s.cube_root 0) (values s.cube_root 0 three)
          (λ a p.
            first_error-All (IsBetween (t.low 1) (t.high 1))
              (λ b. first_error (test_3_arg f ft a b) (arg_test_vals s t s.cube_root 2))
              (arg_test_vals s t s.cube_root 1) (values s.cube_root 1 three)
              (λ b q.
                first_error-All (IsBetween (t.low 2) (t.high 2)) (test_3_arg f ft a b)
                  (arg_test_vals s t s.cube_root 2) (values s.cube_root 2 three)
                  (λ c r. rw (same a b c p q r, (==_iff (ft a b c) (ft a b c)).1 refl) refl))))

  -- `test_function` counts no error for a function that is its reference at all arguments between
  -- the bounds, whatever its number of arguments, when no flag fixes an argument, it is no puzzle
  -- on floats, the bounds are in order with room for the subtraction of MAX_TEST_VALS, the
  -- random values lie between them, and the values of an argument with another one behind it fit
  -- in its row: no other value is ever tested.
  pub test_function-Agrees :
      s.square_root ≤ max_test_vals
      → s.cube_root ≤ max_test_vals
      → length (arg_test_vals s t s.square_root 0) ≤ max_test_vals
      → length (arg_test_vals s t s.cube_root 0) ≤ max_test_vals
      → length (arg_test_vals s t s.cube_root 1) ≤ max_test_vals
      → Agrees t t.puzzle
      → test_function s t ≡ 0
  unfolding test_function
  test_function-Agrees two three fit0 fit1 fit2 same =
      test_puzzle-Agrees t.puzzle two three fit0 fit1 fit2 same
