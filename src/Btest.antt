-- ===== src/Btest.antt =====
-- Lab2/btest.c: the values on which a puzzle is tested, and the count of the errors. An `int` is its
-- bit pattern. Timeouts and the printing are left out; `Args` has the
-- flags of the command line.
pub mod Values
pub mod Errors
pub mod Exhaustive
pub mod Args
pub mod Points
mod Tests
use orga_del_computador.Base.{
  ℕ, zero, suc, ◌+◌, ◌-◌, ◌*◌, ◌^◌, Bool, true, false, not, ◌&&◌, ◌||◌, Option, none, some, List,
  [], ◌∷◌, ◌++◌, bit_or, ltb, ◌==◌, u32, if◌then◌else◌,
}
use orga_del_computador.DataLab.Ints.{slt}

-- TEST_RANGE, MAX_TEST_VALS
abbrev pub test_range : ℕ
test_range = 500000

abbrev pub max_test_vals : ℕ
max_test_vals = 13 * test_range

-- A round of the loop for the functions on bit patterns of floats.
unfoldable pub float_round : ℕ → List ℕ
float_round i =
    let smallest_norm : ℕ = 0x00800000 in
    let one : ℕ = 0x3f800000 in
    let largest_norm : ℕ = 0x7f000000 in
    let sign : ℕ = 0x80000000 in
    i
    ∷ bit_or sign i
    ∷ u32 (smallest_norm + i)
    ∷ u32 (smallest_norm + 2 ^ 32 - i)
    ∷ bit_or sign (u32 (smallest_norm + i))
    ∷ bit_or sign (u32 (smallest_norm + 2 ^ 32 - i))
    ∷ u32 (one + i)
    ∷ u32 (one + 2 ^ 32 - i)
    ∷ bit_or sign (u32 (one + i))
    ∷ bit_or sign (u32 (one + 2 ^ 32 - i))
    ∷ u32 (largest_norm + 2 ^ 32 - i)
    ∷ bit_or sign (u32 (largest_norm + 2 ^ 32 - i))
    ∷ []

-- The loop from `i` on, with the rounds that are left, and the special values.
unfoldable pub float_vals : ℕ → ℕ → List ℕ
unfolding float_round
float_vals zero i =
    let inf : ℕ = 0x7f800000 in
    let nan : ℕ = 0x7fc00000 in
    let sign : ℕ = 0x80000000 in inf ∷ bit_or sign inf ∷ nan ∷ bit_or sign nan ∷ []
float_vals (suc rounds) i = float_round i ++ float_vals rounds (i + 1)

-- `for (i = min; i <= max; i++)` with the number of its rounds.
unfoldable pub count_up : ℕ → ℕ → List ℕ
count_up zero i = []
count_up (suc rounds) i = i ∷ count_up rounds (u32 (i + 1))

-- Where an `int` stands in the order of all `int`s.
abbrev pub place_of : ℕ → ℕ
place_of x = u32 (x + 2 ^ 31)

unfoldable pub if_between : ℕ → ℕ → ℕ → List ℕ
if_between min max i = if not (slt i min) && not (slt max i) then i ∷ [] else []

-- The loop over the samples; `random i` is what `random_val` gives in the round `i`.
unfoldable pub sample_vals : (ℕ → ℕ) → ℕ → ℕ → ℕ → ℕ → List ℕ
unfolding if_between
sample_vals random min max zero i = []
sample_vals random min max (suc rounds) i =
    (u32 (min + i) ∷ u32 (max + 2 ^ 32 - i) ∷ if_between min max i)
    ++ (if_between min max (u32 (2 ^ 32 - i))
        ++ (random i ∷ sample_vals random min max rounds (i + 1)))

-- `fixed` is the argument of a flag -1, -2 or -3.
unfoldable pub gen_vals : Option ℕ → (ℕ → ℕ) → ℕ → ℕ → ℕ → List ℕ
unfolding float_vals count_up sample_vals
gen_vals (some v) random min max range = v ∷ []
gen_vals none random min max range =
    if (min == 1) && (max == 1)
    then float_vals (if ltb (2 ^ 23) range then 2 ^ 23 else range) 0
    else if not (slt min (u32 (max + 2 ^ 32 - max_test_vals)))
    then count_up (place_of max + 1 - place_of min) min
    else sample_vals random min max range 0

unfoldable pub test_0_arg : ℕ → ℕ → ℕ
test_0_arg r rt = if r == rt then 0 else 1

unfoldable pub test_1_arg : (ℕ → ℕ) → (ℕ → ℕ) → ℕ → ℕ
test_1_arg f ft arg1 = if f arg1 == ft arg1 then 0 else 1

unfoldable pub test_2_arg : (ℕ → ℕ → ℕ) → (ℕ → ℕ → ℕ) → ℕ → ℕ → ℕ
test_2_arg f ft arg1 arg2 = if f arg1 arg2 == ft arg1 arg2 then 0 else 1

unfoldable pub test_3_arg : (ℕ → ℕ → ℕ → ℕ) → (ℕ → ℕ → ℕ → ℕ) → ℕ → ℕ → ℕ → ℕ
test_3_arg f ft arg1 arg2 arg3 = if f arg1 arg2 arg3 == ft arg1 arg2 arg3 then 0 else 1

-- A loop over values that ends at the first error.
unfoldable pub first_error : (ℕ → ℕ) → List ℕ → ℕ
first_error test [] = 0
first_error test (v ∷ vals) =
    let rest = first_error test vals in if test v == 0 then rest else test v

-- The function and its reference, by the number of arguments.
pub data Puzzle : Type 0 where
  zero_args : ℕ → ℕ → Puzzle
  one_arg : (ℕ → ℕ) → (ℕ → ℕ) → Puzzle
  two_args : (ℕ → ℕ → ℕ) → (ℕ → ℕ → ℕ) → Puzzle
  three_args : (ℕ → ℕ → ℕ → ℕ) → (ℕ → ℕ → ℕ → ℕ) → Puzzle

-- The bounds of the arguments 0, 1 and 2.
pub record TestRec : Type 0 where
  pub name : List ℕ
  pub puzzle : Puzzle
  pub low : ℕ → ℕ
  pub high : ℕ → ℕ
  pub rating : ℕ

-- The settings and what the libraries give: the arguments of the flags, what `random_val` gives for
-- an argument in a round, and the roots of TEST_RANGE that `pow` gives, as `int`s.
pub record Settings : Type 0 where
  pub fixed : ℕ → Option ℕ
  pub random : ℕ → ℕ → ℕ
  pub square_root : ℕ
  pub cube_root : ℕ

unfoldable pub at_least_one : ℕ → ℕ
at_least_one range = if slt range 1 then 1 else range

-- The values for the argument `i`.
unfoldable pub arg_test_vals : Settings → TestRec → ℕ → ℕ → List ℕ
unfolding gen_vals at_least_one
arg_test_vals s t range i =
    gen_vals (s.fixed i) (s.random i) (t.low i) (t.high i) (at_least_one range)

-- What the cells behind a row hold: the values that were stored there, under those of the next row.
unfoldable pub overwritten : List ℕ → List ℕ → List ℕ
overwritten [] next = []
overwritten (v ∷ vals) [] = v ∷ vals
overwritten (v ∷ vals) (w ∷ next) = w ∷ overwritten vals next

-- The values of an argument as they are read back from its row of `cells` cells. `gen_vals` does not
-- check the room: it goes on in the next row, which is filled with `next` behind it.
unfoldable pub read_back : ℕ → List ℕ → List ℕ → List ℕ
unfolding overwritten
read_back zero vals next = overwritten vals next
read_back (suc cells) [] next = []
read_back (suc cells) (v ∷ vals) next = v ∷ read_back cells vals next

-- The row of an argument with another one behind it.
unfoldable pub row : List ℕ → List ℕ → List ℕ
unfolding read_back
row vals next = read_back max_test_vals vals next

-- The last row is read as it was written: a third argument with more than MAX_TEST_VALS values, which
-- go past the end of the array, is outside the model.
unfoldable pub test_puzzle : Settings → TestRec → Puzzle → ℕ
unfolding arg_test_vals row first_error test_0_arg test_1_arg test_2_arg test_3_arg
test_puzzle s t (zero_args r rt) = test_0_arg r rt
test_puzzle s t (one_arg f ft) =
    first_error (λ a1. test_1_arg f ft a1) (arg_test_vals s t test_range 0)
test_puzzle s t (two_args f ft) =
    let second = arg_test_vals s t s.square_root 1 in
    first_error (λ a1. first_error (λ a2. test_2_arg f ft a1 a2) second)
      (row (arg_test_vals s t s.square_root 0) second)
test_puzzle s t (three_args f ft) =
    let second = arg_test_vals s t s.cube_root 1 in
    let third = arg_test_vals s t s.cube_root 2 in
    first_error
      (λ a1.
        first_error (λ a2. first_error (λ a3. test_3_arg f ft a1 a2 a3) third) (row second third))
      (row (arg_test_vals s t s.cube_root 0) second)

unfoldable pub test_function : Settings → TestRec → ℕ
unfolding test_puzzle
test_function s t = test_puzzle s t t.puzzle

pub record Score : Type 0 where
  pub errors : ℕ
  pub points : ℕ
  pub max_points : ℕ

unfoldable pub strcmp_equal : List ℕ → List ℕ → Bool
strcmp_equal [] [] = true
strcmp_equal [] (d ∷ ds) = false
strcmp_equal (c ∷ cs) [] = false
strcmp_equal (c ∷ cs) (d ∷ ds) = (c == d) && strcmp_equal cs ds

-- `!test_fname || strcmp(test_set[i].name, test_fname) == 0`
unfoldable pub is_selected : Option (List ℕ) → List ℕ → Bool
unfolding strcmp_equal
is_selected none name = true
is_selected (some test_fname) name = strcmp_equal name test_fname

-- A function of the table, with the sums of the others.
unfoldable pub count_test : ℕ → ℕ → Score → Score
count_test rating terrors rest = record {
  errors = terrors + rest.errors;
  points = (if terrors == 0 then rating else 0) + rest.points;
  max_points = rating + rest.max_points;
}

unfoldable pub run_tests : Settings → Option (List ℕ) → ℕ → List TestRec → Score
unfolding test_function is_selected count_test
run_tests s test_fname global_rating [] = record { errors = 0; points = 0; max_points = 0 }
run_tests s test_fname global_rating (t ∷ tests) =
    let rest = run_tests s test_fname global_rating tests in
    if is_selected test_fname t.name
    then count_test (if global_rating == 0 then t.rating else global_rating) (test_function s t)
        rest
    else rest
