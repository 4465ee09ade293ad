-- ===== src/Fcyc.antt =====
-- Tp2/fcyc.c: the k best of a series of measurements.
pub mod Insertion
pub mod Best
pub mod Least
pub mod Ends
pub mod Clear
pub mod Tests
use orga_del_computador.Base.{
  ℕ, zero, suc, ◌+◌, ◌-◌, ◌*◌, ◌/◌, ◌<◌, ◌≡◌, Bool, true, false, not, ◌&&◌, Option, none, some, u32,
  ltb, leb, ◌==◌, if◌then◌else◌,
}
use orga_del_computador.Mm.Run.{Run, ok, exit, out_of_fuel, ◌>>=◌}

-- The type `double` with the tests that the code makes: `a < b`, and whether `(1 + e) * a >= b`.
pub record Doubles : Type 1 where
  pub Double : Type 0
  pub zero_double : Double
  pub less : Double → Double → Bool
  pub within : Double → Double → Double → Bool

-- The static variables. `kbest` is 1 or more. An array is a function of the index; `none` is NULL.
pub record Sampler (D : Doubles) : Type 0 where
  pub kbest : ℕ
  pub maxsamples : ℕ
  pub epsilon : D.Double
  pub compensate : Bool
  pub clear_cache : Bool
  pub cache_bytes : ℕ
  pub cache_block : ℕ
  pub cache_buf : Option (ℕ → ℕ)
  pub values : Option (ℕ → D.Double)
  pub samplecount : ℕ
  pub sink : ℕ

-- What the code calls: `malloc` for the buffer, with what the memory holds, and the measurements, by
-- the number of samples taken before. The second counter is the one that compensates for ticks.
pub record Meter (D : Doubles) : Type 0 where
  pub malloc : ℕ → Option (ℕ → ℕ)
  pub get_counter : ℕ → D.Double
  pub get_comp_counter : ℕ → D.Double

unfoldable pub store {ℓ} : {Double : Type ℓ} → (ℕ → Double) → ℕ → Double → ℕ → Double
store values pos val i = if i == pos then val else values i

-- The loop of `clear`, by the index of `cptr`; `x` wraps around.
unfoldable pub clear_loop : (ℕ → ℕ) → ℕ → ℕ → ℕ → ℕ → ℕ → Run ℕ
clear_loop buf cend incr zero cptr x = out_of_fuel
clear_loop buf cend incr (suc k) cptr x =
    let rest = clear_loop buf cend incr k (cptr + incr) (u32 (x + buf cptr)) in
    if ltb cptr cend then rest else ok x

unfoldable pub buffer : Option (ℕ → ℕ) → Option (ℕ → ℕ) → Option (ℕ → ℕ)
buffer none new = new
buffer (some buf) new = some buf

module _ {ℓ} {Double : Type ℓ} (less : Double → Double → Bool) where
  -- The `while` loop of `add_sample`: it ends at 0, or at a value that is not greater.
  unfoldable pub sift : (ℕ → Double) → ℕ → ℕ → Double
  unfolding store
  sift values zero = values
  sift values (suc pos) =
      let temp = values pos in
      let rest = sift (store (store values pos (values (suc pos))) (suc pos) temp) pos in
      if less (values (suc pos)) (values pos) then rest else values

  -- The array behind a new value, when `samplecount` values have come before.
  unfoldable pub added : ℕ → ℕ → (ℕ → Double) → Double → ℕ → Double
  unfolding store sift
  added kbest samplecount values val =
      if ltb samplecount kbest
      then sift (store values samplecount val) samplecount
      else if less val (values (kbest - 1))
      then sift (store values (kbest - 1) val) (kbest - 1)
      else values

module _ {D : Doubles} where
  open D use {Double, zero_double, less, within}

  unfoldable pub init_sampler : Sampler D → Sampler D
  init_sampler s = record s { values = some (λ i. zero_double); samplecount = 0 }

  -- A write to NULL ends the program.
  unfoldable pub add_with : Sampler D → Double → Option (ℕ → Double) → Run (Sampler D)
  unfolding added
  add_with s val none = exit
  add_with s val (some values) = ok (record s {
    values = some (added less s.kbest s.samplecount values val);
    samplecount = s.samplecount + 1;
  })

  unfoldable pub add_sample : Sampler D → Double → Run (Sampler D)
  unfolding add_with
  add_sample s val = add_with s val s.values

  unfoldable pub converged_with : Sampler D → Option (ℕ → Double) → Bool
  converged_with s none = false
  converged_with s (some values) =
      leb s.kbest s.samplecount && within s.epsilon (values 0) (values (s.kbest - 1))

  unfoldable pub has_converged : Sampler D → Bool
  unfolding converged_with
  has_converged s = converged_with s s.values

  unfoldable pub clear_with : Sampler D → Option (ℕ → ℕ) → Run (Sampler D)
  unfolding clear_loop
  clear_with s none = exit
  clear_with s (some buf) = do
    x ← clear_loop buf (s.cache_bytes / 4) (s.cache_block / 4) (s.cache_bytes / 4 + 1) 0 s.sink
    ok (record s { cache_buf = some buf; sink = x })

  unfoldable pub clear : Meter D → Sampler D → Run (Sampler D)
  unfolding clear_with buffer
  clear c s = clear_with s (buffer s.cache_buf (c.malloc s.cache_bytes))

  -- One round of either loop of `fcyc`.
  unfoldable pub sample : Meter D → Sampler D → Run (Sampler D)
  unfolding clear add_sample
  sample c s = do
    s ← if s.clear_cache then clear c s else ok s
    add_sample s
        (if s.compensate then c.get_comp_counter s.samplecount else c.get_counter s.samplecount)

  unfoldable pub fcyc_loop : Meter D → ℕ → Sampler D → Run (Sampler D)
  unfolding sample has_converged
  fcyc_loop c zero s = out_of_fuel
  fcyc_loop c (suc k) s = sample c s >>= λ s.
      let rest = fcyc_loop c k s in
      if not (has_converged s) && ltb s.samplecount s.maxsamples then rest else ok s

  unfoldable pub result_with : Sampler D → Option (ℕ → Double) → Run (Double × Sampler D)
  result_with s none = exit
  result_with s (some values) = ok (values 0, record s { values = none })

  unfoldable pub fcyc : Meter D → Sampler D → Run (Double × Sampler D)
  unfolding init_sampler fcyc_loop result_with
  fcyc c s = do s ← fcyc_loop c (s.maxsamples + 1) (init_sampler s); result_with s s.values

  unfoldable pub set_fcyc_clear_cache : Bool → Sampler D → Sampler D
  set_fcyc_clear_cache clear s = record s { clear_cache = clear }

  unfoldable pub set_fcyc_cache_size : ℕ → Sampler D → Sampler D
  set_fcyc_cache_size bytes s =
      if bytes == s.cache_bytes then s else record s { cache_bytes = bytes; cache_buf = none }

  unfoldable pub set_fcyc_cache_block : ℕ → Sampler D → Sampler D
  set_fcyc_cache_block bytes s = record s { cache_block = bytes }

  unfoldable pub set_fcyc_compensate : Bool → Sampler D → Sampler D
  set_fcyc_compensate compensate_arg s = record s { compensate = compensate_arg }

  unfoldable pub set_fcyc_k : ℕ → Sampler D → Sampler D
  set_fcyc_k k s = record s { kbest = k }

  unfoldable pub set_fcyc_maxsamples : ℕ → Sampler D → Sampler D
  set_fcyc_maxsamples maxsamples_arg s = record s { maxsamples = maxsamples_arg }

  unfoldable pub set_fcyc_epsilon : Double → Sampler D → Sampler D
  set_fcyc_epsilon epsilon_arg s = record s { epsilon = epsilon_arg }
