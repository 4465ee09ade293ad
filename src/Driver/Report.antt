-- ===== src/Driver/Report.antt =====
-- What Tp2/mdriver.c prints at its end: the table of the traces, the performance index and the
-- summary. The arithmetic of `double` is a parameter.
use orga_del_computador.Base.{
  ℕ, ◌+◌, ◌≡◌, refl, Bool, List, [], ◌∷◌, ◌++◌, length, ◌==◌, if◌then◌else◌, Bool-cases, inl, inr,
}

-- `double` with its operations, the test `a > b`, and the constants of config.h.
pub record Doubles : Type 1 where
  pub Double : Type 0
  pub of_nat : ℕ → Double
  pub plus : Double → Double → Double
  pub minus : Double → Double → Double
  pub times : Double → Double → Double
  pub divided : Double → Double → Double
  pub greater : Double → Double → Bool
  pub util_weight : Double
  pub avg_libc_thruput : Double

-- `stats_t`
pub record TraceStats (Double : Type 0) : Type 0 where
  pub ops : Double
  pub valid : Bool
  pub secs : Double
  pub util : Double

pub record Sums (Double : Type 0) : Type 0 where
  pub sum_secs : Double
  pub sum_ops : Double
  pub sum_util : Double

-- A line of the table: the number of the trace with its figures, or with dashes.
pub data Row (Double : Type 0) : Type 0 where
  yes_row : ℕ → Double → Double → Double → Double → Row Double
  no_row : ℕ → Row Double
  total_row : Double → Double → Double → Double → Row Double
  total_dashes : Row Double

-- What is printed last. `perf_index` has the points for space and for speed, and their sum.
pub data LastLine (Double : Type 0) : Type 0 where
  perf_index : Double → Double → Double → LastLine Double
  terminated : ℕ → LastLine Double
  correct : ℕ → LastLine Double
  perfidx : Double → LastLine Double

module _ (D : Doubles) where
  open D use {Double, of_nat, plus, minus, times, divided, greater, util_weight, avg_libc_thruput}

  abbrev no_sums : Sums Double
  no_sums = record { sum_secs = of_nat 0; sum_ops = of_nat 0; sum_util = of_nat 0 }

  abbrev with_stats : Sums Double → TraceStats Double → Sums Double
  with_stats t s = record {
    sum_secs = plus t.sum_secs s.secs;
    sum_ops = plus t.sum_ops s.ops;
    sum_util = plus t.sum_util s.util;
  }

  abbrev kops : Double → Double → Double
  kops ops secs = divided (divided ops (of_nat 1000)) secs

  abbrev row_of : ℕ → TraceStats Double → Row Double
  row_of i s =
      if s.valid
      then yes_row i (times s.util (of_nat 100)) s.ops s.secs (kops s.ops s.secs)
      else no_row i

  -- The loop of `printresults` from the trace `i` on, with the sums of the valid traces.
  unfoldable pub print_rows :
      ℕ → Sums Double → List (TraceStats Double) → List (Row Double) × Sums Double
  print_rows i t [] = ([], t)
  print_rows i t (s ∷ stats) =
      let (rows, total) = print_rows (i + 1) (if s.valid then with_stats t s else t) stats in
      (row_of i s ∷ rows, total)

  unfoldable pub total_of : ℕ → ℕ → Sums Double → Row Double
  total_of errors n t =
      if errors == 0
      then total_row (times (divided t.sum_util (of_nat n)) (of_nat 100)) t.sum_ops t.sum_secs
          (kops t.sum_ops t.sum_secs)
      else total_dashes

  unfoldable pub printresults : ℕ → List (TraceStats Double) → List (Row Double)
  unfolding print_rows total_of
  printresults errors stats =
      let (rows, t) = print_rows 0 no_sums stats in rows ++ (total_of errors (length stats) t ∷ [])

  -- The aggregate statistics of `main`, over all traces.
  unfoldable pub aggregate : Sums Double → List (TraceStats Double) → Sums Double
  aggregate t [] = t
  aggregate t (s ∷ stats) = aggregate (with_stats t s) stats

  unfoldable pub count_valid : List (TraceStats Double) → ℕ
  count_valid [] = 0
  count_valid (s ∷ stats) = if s.valid then count_valid stats + 1 else count_valid stats

  unfoldable pub throughput_points : Double → Double
  throughput_points avg_mm_throughput =
      let rest = minus (of_nat 1) util_weight in
      if greater avg_mm_throughput avg_libc_thruput
      then rest
      else times rest (divided avg_mm_throughput avg_libc_thruput)

  unfoldable pub index_line : ℕ → ℕ → Sums Double → LastLine Double × Double
  unfolding throughput_points
  index_line errors n t =
      let p1 = times util_weight (divided t.sum_util (of_nat n)) in
      let p2 = throughput_points (divided t.sum_ops t.sum_secs) in
      let perfindex = times (plus p1 p2) (of_nat 100) in
      if errors == 0
      then (perf_index (times p1 (of_nat 100)) (times p2 (of_nat 100)) perfindex, perfindex)
      else (terminated errors, of_nat 0)

  -- The end of `main` behind the evaluation of the traces.
  unfoldable pub finish : Bool → ℕ → List (TraceStats Double) → List (LastLine Double)
  unfolding aggregate count_valid index_line
  finish autograder errors stats =
      let (line, perfindex) = index_line errors (length stats) (aggregate no_sums stats) in
      line ∷ (if autograder then correct (count_valid stats) ∷ perfidx perfindex ∷ [] else [])

-- The traces that the table shows as valid.
unfoldable pub valid_rows : {Double : Type 0} → List (Row Double) → ℕ
valid_rows [] = 0
valid_rows (yes_row i util ops secs kops ∷ rows) = valid_rows rows + 1
valid_rows (no_row i ∷ rows) = valid_rows rows
valid_rows (total_row util ops secs kops ∷ rows) = valid_rows rows
valid_rows (total_dashes ∷ rows) = valid_rows rows

module _ (D : Doubles) where
  print_rows-valid :
      (i : ℕ) (t : Sums D.Double) (stats : List (TraceStats D.Double)) (rest : List (Row D.Double))
      → valid_rows rest ≡ 0
      → valid_rows ((print_rows D i t stats).0 ++ rest) ≡ count_valid D stats
  unfolding print_rows valid_rows count_valid
  print_rows-valid i t [] rest h = h
  print_rows-valid i t (s ∷ stats) rest h = elim (Bool-cases s.valid) [
    | inl on ↦ rw (on, print_rows-valid (i + 1) _ stats rest h) refl
    | inr off ↦ rw (off, print_rows-valid (i + 1) _ stats rest h) refl
  ]

  total_of-valid : (errors n : ℕ) (t : Sums D.Double) → valid_rows (total_of D errors n t ∷ []) ≡ 0
  unfolding total_of valid_rows
  total_of-valid errors n t = elim (Bool-cases (errors == 0)) [
    | inl none ↦ rw none refl
    | inr some ↦ rw some refl
  ]

  -- The table shows as many traces as valid as the summary counts as correct.
  pub printresults-count_valid :
      (errors : ℕ) (stats : List (TraceStats D.Double))
      → valid_rows (printresults D errors stats) ≡ count_valid D stats
  unfolding printresults
  printresults-count_valid errors stats =
      print_rows-valid 0 (no_sums D) stats _ (total_of-valid errors (length stats) _)
