-- ===== src/Fcyc/Tests.antt =====
-- Runs of Tp2/fcyc.c with numbers for the `double`s.
use orga_del_computador.Base.{
  ℕ, ◌≤◌, ◌≡◌, refl, arith, false, none, inl, ◌⊎◌, [], ◌∷◌, ltb, leb, if◌then◌else◌, ◌==◌,
}
use orga_del_computador.Mm.Run.{ok}
use orga_del_computador.Fcyc.{Doubles, Sampler, Meter, fcyc}
use orga_del_computador.Fcyc.Insertion.{back}
use orga_del_computador.Fcyc.Best.{IsOrder, filled, filled-least, last_of, sort}
use orga_del_computador.Fcyc.Least.{IsLeast}
use orga_del_computador.Fcyc.Ends.{source, fcyc-IsLeast}

-- Numbers of cycles, which agree if they are equal.
abbrev cycles : Doubles
cycles = record { Double = ℕ; zero_double = 0; less = ltb; within = λ e a b. leb b a }

abbrev clock : Meter cycles
clock = record {
  malloc = λ n. none;
  get_counter = λ i. if i == 0 then 90 else if i == 2 then 60 else 70;
  get_comp_counter = λ i. 0;
}

abbrev start : Sampler cycles
start = record {
  kbest = 3;
  maxsamples = 20;
  epsilon = 0;
  compensate = false;
  clear_cache = false;
  cache_bytes = 524288;
  cache_block = 32;
  cache_buf = none;
  values = none;
  samplecount = 0;
  sink = 0;
}

ltb-IsOrder : IsOrder ltb
ltb-IsOrder = record { asymmetric = λ a b e. ground arith; below = λ a b c e f. ground arith }

fcyc-IsLeast_example :
    (v : ℕ) × (s' : Sampler cycles) × (n : ℕ) × (fcyc clock start ≡ ok (v, s'))
    × IsLeast ltb (source clock false) n v
    × ((n ≤ 1) ⊎ (n ≤ 20))
    × ((3 ≤ n) ⊎ (20 ≤ n))
fcyc-IsLeast_example = fcyc-IsLeast clock start ltb-IsOrder (omega arith) (inl refl)

filled-least_example :
    back 2 (filled ltb 2 (λ i. 0) (60 ∷ 70 ∷ 90 ∷ [])) ≡ last_of 2 (sort ltb (60 ∷ 70 ∷ 90 ∷ []))
filled-least_example = filled-least ltb ltb-IsOrder 2 (λ i. 0) (60 ∷ 70 ∷ 90 ∷ []) (omega arith)
