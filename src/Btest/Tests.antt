-- ===== src/Btest/Tests.antt =====
-- The harness on `bitMask` and its reference, with the bounds of the table in Lab2/decl.c.
use orga_del_computador.Base.{ℕ, zero, suc, ◌-◌, ◌^◌, ◌<◌, ◌≡◌, refl, arith, none, [], ◌∷◌, length}
use orga_del_computador.DataLab.Functions.{bit_mask}
use orga_del_computador.DataLab.References.{test_bit_mask}
use orga_del_computador.DataLab.Choice.{bit_mask-test_bit_mask}
use orga_del_computador.Driver.Contract.{All}
use orga_del_computador.Btest.{
  two_args, TestRec, Settings, gen_vals, count_up, at_least_one, arg_test_vals, test_function,
  run_tests,
}
use orga_del_computador.Btest.Points.{IsFair, run_tests-IsFair}
use orga_del_computador.Btest.Errors.{IsSampled, Agrees, test_function-Agrees}
use orga_del_computador.Btest.Exhaustive.{test_function-two_args}

-- The third argument is not used; its bounds are TMin and TMax.
abbrev low_bound : ℕ → ℕ
low_bound zero = 0
low_bound (suc zero) = 0
low_bound (suc (suc i)) = 2 ^ 31

abbrev high_bound : ℕ → ℕ
high_bound zero = 31
high_bound (suc zero) = 31
high_bound (suc (suc i)) = 2 ^ 31 - 1

abbrev bit_mask_rec : TestRec
bit_mask_rec = record {
  puzzle = two_args bit_mask test_bit_mask;
  low = low_bound;
  high = high_bound;
  name = [];
  rating = 3;
}

abbrev plain_settings : Settings
plain_settings = record { fixed = λ i. none; random = λ i j. 3; square_root = 707; cube_root = 79 }

bit_mask_rec-IsSampled : (i : ℕ) → IsSampled plain_settings bit_mask_rec i
bit_mask_rec-IsSampled zero = record {
  free = refl;
  low_int = omega arith;
  high_int = omega arith;
  integer = refl;
  order = omega arith;
  room = omega arith;
  drawn = λ j. (omega arith, omega arith, omega arith);
}
bit_mask_rec-IsSampled (suc zero) = record {
  free = refl;
  low_int = omega arith;
  high_int = omega arith;
  integer = refl;
  order = omega arith;
  room = omega arith;
  drawn = λ j. (omega arith, omega arith, omega arith);
}
bit_mask_rec-IsSampled (suc (suc i)) = record {
  free = refl;
  low_int = omega arith;
  high_int = omega arith;
  integer = refl;
  order = omega arith;
  room = omega arith;
  drawn = λ j. (omega arith, omega arith, omega arith);
}

bit_mask_rec-Agrees : Agrees bit_mask_rec (two_args bit_mask test_bit_mask)
bit_mask_rec-Agrees a b (small_a, low_a, high_a) (small_b, low_b, high_b) =
    bit_mask-test_bit_mask a b (omega arith) (omega arith)

bit_mask_rows :
    (length (arg_test_vals plain_settings bit_mask_rec 707 0) ≡ 32)
    × (length (arg_test_vals plain_settings bit_mask_rec 79 0) ≡ 32)
    × (length (arg_test_vals plain_settings bit_mask_rec 79 1) ≡ 32)
unfolding arg_test_vals gen_vals count_up at_least_one
bit_mask_rows = (refl, refl, refl)

bit_mask_passes : test_function plain_settings bit_mask_rec ≡ 0
bit_mask_passes =
    test_function-Agrees plain_settings bit_mask_rec bit_mask_rec-IsSampled (omega arith)
      (omega arith) (omega (arith, bit_mask_rows.0)) (omega (arith, bit_mask_rows.1))
      (omega (arith, bit_mask_rows.2)) bit_mask_rec-Agrees

test_function-two_args_example : bit_mask 4 2 ≡ test_bit_mask 4 2
test_function-two_args_example =
    test_function-two_args plain_settings bit_mask_rec bit_mask test_bit_mask 4 2 refl
      (record {
        free = refl;
        integer = refl;
        low_int = omega arith;
        few = refl;
        room = omega arith;
      })
      (record {
        free = refl;
        integer = refl;
        low_int = omega arith;
        few = refl;
        room = omega arith;
      })
      bit_mask_passes (omega arith, omega arith, omega arith)
      (omega arith, omega arith, omega arith)

bit_mask_rec-positive : All (λ (t : TestRec). 0 < t.rating) (bit_mask_rec ∷ [])
bit_mask_rec-positive = (omega arith, tt)

run_tests-IsFair_example : IsFair (run_tests plain_settings none 0 (bit_mask_rec ∷ []))
run_tests-IsFair_example =
    run_tests-IsFair plain_settings none 0 (bit_mask_rec ∷ []) bit_mask_rec-positive
