-- ===== src/Btest/Values.antt =====
-- Where the values of `gen_vals` lie.
use orga_del_computador.Base.{
  ℕ, zero, suc, ◌+◌, ◌-◌, ◌^◌, ◌≤◌, ◌<◌, ◌≡◌, refl, ap, arith, false, not, ◌&&◌, none, inl, inr,
  Bool-cases, List, [], ◌∷◌, ◌++◌, length, ◌==◌, u32,
}
use orga_del_computador.DataLab.Ints.{slt}
use orga_del_computador.Btest.{
  max_test_vals, place_of, count_up, if_between, sample_vals, gen_vals, overwritten, read_back, row,
}

-- An `int` that is not below `low` and not above `high`.
abbrev pub IsBetween : ℕ → ℕ → ℕ → Type 0
IsBetween low high v = (v < 2 ^ 32) × (place_of low ≤ place_of v) × (place_of v ≤ place_of high)

abbrev pub All : (ℕ → Type 0) → List ℕ → Type 0
All P [] = Unit {0}
All P (v ∷ vals) = P v × All P vals

All-append : (P : ℕ → Type 0) (xs ys : List ℕ) → All P xs → All P ys → All P (xs ++ ys)
All-append P [] ys a b = b
All-append P (x ∷ xs) ys (p, a) b = (p, All-append P xs ys a b)

module _ (low high : ℕ) (l : low < 2 ^ 32) (h : high < 2 ^ 32) where
  count_up-IsBetween :
      (rounds i : ℕ)
      → i < 2 ^ 32
      → place_of low ≤ place_of i
      → place_of i + rounds ≤ place_of high + 1
      → All (IsBetween low high) (count_up rounds i)
  unfolding count_up
  count_up-IsBetween zero i small above below = tt
  count_up-IsBetween (suc zero) i small above below = ((small, above, omega arith), tt)
  count_up-IsBetween (suc (suc rounds)) i small above below = (
    (small, above, omega arith),
    count_up-IsBetween (suc rounds) (u32 (i + 1)) (omega arith) (omega arith) (omega arith),
  )

  if_between-IsBetween : (i : ℕ) → i < 2 ^ 32 → All (IsBetween low high) (if_between low high i)
  unfolding if_between
  if_between-IsBetween i small = elim (Bool-cases (not (slt i low) && not (slt high i))) [
    | inl inside ↦ rw inside ((small, ground (arith, inside), ground (arith, inside)), tt)
    | inr outside ↦ rw outside tt
  ]

  sample_vals-IsBetween :
      (random : ℕ → ℕ) (rounds i : ℕ)
      → ((j : ℕ) → IsBetween low high (random j))
      → place_of low + max_test_vals < place_of high
      → i + rounds ≤ max_test_vals
      → All (IsBetween low high) (sample_vals random low high rounds i)
  unfolding sample_vals
  sample_vals-IsBetween random zero i drawn wide few = tt
  sample_vals-IsBetween random (suc rounds) i drawn wide few =
      let back = if_between low high (u32 (2 ^ 32 - i)) in
      let more = random i ∷ sample_vals random low high rounds (i + 1) in
      let rest : All (IsBetween low high) more =
        (drawn i, sample_vals-IsBetween random rounds (i + 1) drawn wide (omega arith)) in
      let behind =
        All-append (IsBetween low high) back more
          (if_between-IsBetween (u32 (2 ^ 32 - i)) (omega arith)) rest in
      (
        (omega arith, omega arith, omega arith),
        (
          (omega arith, omega arith, omega arith),
          All-append (IsBetween low high) (if_between low high i) (back ++ more)
              (if_between-IsBetween i (omega arith)) behind,
        ),
      )

  pub gen_vals-IsBetween :
      (random : ℕ → ℕ) (range : ℕ)
      → ((j : ℕ) → IsBetween low high (random j))
      → (low == 1) && (high == 1) ≡ false
      → place_of low ≤ place_of high
      → max_test_vals ≤ place_of high
      → range ≤ max_test_vals
      → All (IsBetween low high) (gen_vals none random low high range)
  unfolding gen_vals
  gen_vals-IsBetween random range drawn integer order room few =
      elim (Bool-cases (not (slt low (u32 (high + 2 ^ 32 - max_test_vals))))) [
        | inl narrow ↦
            rw (integer, narrow)
              (count_up-IsBetween (place_of high + 1 - place_of low) low l (omega arith)
                (omega (arith, order)))
        | inr wide ↦
            rw (integer, wide)
              (sample_vals-IsBetween random range 0 drawn (ground (arith, wide, room))
                (omega (arith, few)))
      ]

read_back-short :
    (cells : ℕ) (vals next : List ℕ) → length vals ≤ cells → read_back cells vals next ≡ vals
unfolding read_back overwritten
read_back-short zero [] next h = refl
read_back-short zero (v ∷ vals) next h = absurd (omega arith)
read_back-short (suc cells) [] next h = refl
read_back-short (suc cells) (v ∷ vals) next h =
    ap (λ l. v ∷ l) (read_back-short cells vals next (omega arith))

-- Values for which the row has room are read back as they were written.
pub row-short : (vals next : List ℕ) → length vals ≤ max_test_vals → row vals next ≡ vals
unfolding row
row-short vals next h = read_back-short max_test_vals vals next h
