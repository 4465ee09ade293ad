-- ===== src/Driver/Signs.antt =====
-- The check of `eval_mm_valid` that a reallocation keeps the data.
use orga_del_computador.Base.{
  ℕ, zero, suc, ◌%◌, ◌≤◌, ◌<◌, ◌≡◌, arith, true, false, bit_and, ltb, if◌then◌else◌, refl,
}
use orga_del_computador.Base.Bits.{bit_and_mask}
use orga_del_computador.Mm.Run.{ok}
use orga_del_computador.Driver.Package.{Package}
use orga_del_computador.Driver.Trace.{Driver, malloc_error}
use orga_del_computador.Driver.Eval.{preserved, realloc_checked}

preserved-negative :
    (read : ℕ → ℕ) (newp value rounds j : ℕ)
    → 128 ≤ value
    → 0 < rounds
    → preserved read newp value rounds j ≡ false
unfolding preserved
preserved-negative read newp value zero j high some = absurd (omega arith)
preserved-negative read newp value (suc rounds) j high some = ground arith

-- When the low byte of the index is 128 or more, the driver reports every `realloc` of a block of
-- one byte or more to a positive size that passes the check of its range as one that lost its
-- data, whatever bytes the new block holds, because a negative `char` is compared with a value
-- from 128 to 255.
pub realloc_checked-negative :
    {p : Package} (d : Driver p) (index size newp : ℕ)
    → 128 ≤ index % 256
    → 0 < size
    → 0 < d.block_sizes index
    → realloc_checked index size newp (true, d) ≡ ok (false, malloc_error d)
unfolding realloc_checked
realloc_checked-negative {p} d index size newp high pos old =
    rw
      (preserved-negative (p.byte d.mem) newp (bit_and index 0xFF)
        (if ltb size (d.block_sizes index) then size else d.block_sizes index) 0
        (omega (arith, bit_and_mask 8 index)) (ground arith))
      refl
