-- ===== src/Fcyc/Clear.antt =====
-- `clear`: the walk over the cache buffer.
use orga_del_computador.Base.{
  ℕ, zero, suc, ◌+◌, ◌/◌, ◌≤◌, ◌<◌, ◌≡◌, refl, arith, some, u32, lt→ltb, le→ltb,
}
use native.Mathlib.Decide.{dec_lt}
use orga_del_computador.Mm.Run.{ok, out_of_fuel}
use orga_del_computador.Fcyc.{Doubles, Sampler, Meter, clear_loop, clear_with, buffer, clear}

-- A step of a cell or more comes to the end within the cells that are left.
clear_loop-ends :
    (buf : ℕ → ℕ) (cend incr k cptr x : ℕ)
    → 0 < incr
    → 0 < k
    → cend < cptr + k
    → (y : ℕ) × (clear_loop buf cend incr k cptr x ≡ ok y)
unfolding clear_loop
clear_loop-ends buf cend incr zero cptr x h some_fuel fuel = absurd (omega arith)
clear_loop-ends buf cend incr (suc k) cptr x h some_fuel fuel = elim (dec_lt cptr cend) [
  | yes more ↦
      let (y, e) =
        clear_loop-ends buf cend incr k (cptr + incr) (u32 (x + buf cptr)) h (omega arith)
          (omega arith) in
      (y, rw (lt→ltb cptr cend more) e)
  | no done ↦ (x, rw (le→ltb cptr cend (omega arith)) refl)
]

-- `clear` can do its work: a step of one cell at least, and a buffer.
pub record IsClearable {D : Doubles} (c : Meter D) (s : Sampler D) : Type 0 where
  pub step : 4 ≤ s.cache_block
  pub contents : ℕ → ℕ
  pub gets_buffer : buffer s.cache_buf (c.malloc s.cache_bytes) ≡ some contents

module _ {D : Doubles} (c : Meter D) (s : Sampler D) where
  -- Only the buffer and `sink` change.
  pub clear-ends :
      (u : IsClearable c s)
      → (y : ℕ) × (clear c s ≡ ok (record s { cache_buf = some u.contents; sink = y }))
  unfolding clear clear_with
  clear-ends u =
      let (y, e) =
        clear_loop-ends u.contents (s.cache_bytes / 4) (s.cache_block / 4) (s.cache_bytes / 4 + 1) 0
          s.sink (omega (arith, u.step)) (omega arith) (omega arith) in
      (y, rw (u.gets_buffer, e) refl)

  pub IsClearable-behind :
      (u : IsClearable c s) (y : ℕ)
      → IsClearable c (record s { cache_buf = some u.contents; sink = y })
  unfolding buffer
  IsClearable-behind u y = record { step = u.step; contents = u.contents; gets_buffer = refl }

-- A cache block of less than an `int` makes a step of 0, with which the walk over a buffer of one
-- cell or more never ends.
pub clear_loop-stuck :
    (buf : ℕ → ℕ) (cend k x : ℕ) → 0 < cend → clear_loop buf cend 0 k 0 x ≡ out_of_fuel
unfolding clear_loop
clear_loop-stuck buf cend zero x h = refl
clear_loop-stuck buf cend (suc k) x h =
    rw (lt→ltb 0 cend h) (clear_loop-stuck buf cend k (u32 (x + buf 0)) h)
