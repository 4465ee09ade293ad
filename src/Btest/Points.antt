-- ===== src/Btest/Points.antt =====
-- The points that `run_tests` gives.
use orga_del_computador.Base.{
  ℕ, ◌≤◌, ◌<◌, ◌≡◌, refl, arith, Option, List, [], ◌∷◌, ◌==◌, if◌then◌else◌, ◌↔◌, inl, inr,
  Bool-cases,
}
use orga_del_computador.Driver.Contract.{All}
use orga_del_computador.Btest.{
  Settings, TestRec, Score, run_tests, count_test, is_selected, test_function,
}

-- No more points than there are, and all of them exactly when there is no error.
abbrev pub IsFair : Score → Type 0
IsFair r = (r.points ≤ r.max_points) × ((r.points ≡ r.max_points) ↔ (r.errors ≡ 0))

count_test-IsFair :
    (rating terrors : ℕ) (rest : Score)
    → 0 < rating
    → IsFair rest
    → IsFair (count_test rating terrors rest)
unfolding count_test
count_test-IsFair rating terrors rest positive (low, all) =
    (ground (arith, low), (λ e. ground (arith, e, low, all), λ e. ground (arith, e, low, all)))

-- When all ratings of the table are positive, `run_tests` gives no more points than there are, and
-- all of them exactly when it counts no error, whatever the flags -f and -r say.
pub run_tests-IsFair :
    (s : Settings) (test_fname : Option (List ℕ)) (global_rating : ℕ) (tests : List TestRec)
    → All (λ (t : TestRec). 0 < t.rating) tests
    → IsFair (run_tests s test_fname global_rating tests)
unfolding run_tests
run_tests-IsFair s test_fname global_rating [] h = (omega arith, (λ e. refl, λ e. refl))
run_tests-IsFair s test_fname global_rating (t ∷ tests) (h, hs) =
    let rest = run_tests-IsFair s test_fname global_rating tests hs in
    elim (Bool-cases (is_selected test_fname t.name)) [
      | inl on ↦
          rw on (count_test-IsFair _ (test_function s t) _ (weight t.rating global_rating h) rest)
      | inr off ↦ rw off rest
    ]
  where
    weight : (r g : ℕ) → 0 < r → 0 < (if g == 0 then r else g)
    weight r g h = ground arith
