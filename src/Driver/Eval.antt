-- ===== src/Driver/Eval.antt =====
-- `eval_mm_valid`: replay a trace and check every answer of the allocator.
use orga_del_computador.Base.{
  ℕ, zero, suc, ◌+◌, Bool, true, false, ◌&&◌, Option, none, some, List, [], ◌∷◌, bit_and, ltb, ◌==◌,
  if◌then◌else◌,
}
use orga_del_computador.Mm.Run.{Run, ok, ◌>>=◌}
use orga_del_computador.Driver.Package.{Package}
use orga_del_computador.Driver.Trace.{
  Request, alloc, free, realloc, TraceOp, Driver, size_t_of, malloc_error, remember,
}
use orga_del_computador.Driver.Ranges.{add_range, remove_range, clear_ranges}

-- `newp[j] != (index & 0xFF)`, negated: a `char` from 128 on is negative, and no value of the mask.
unfoldable pub same_char : ℕ → ℕ → Bool
same_char b value = ltb b 128 && b == value

-- The loop over the old bytes, from `j` on with the rounds that are left; `read` gives the bytes.
unfoldable pub preserved : (ℕ → ℕ) → ℕ → ℕ → ℕ → ℕ → Bool
unfolding same_char
preserved read newp value zero j = true
preserved read newp value (suc rounds) j =
    same_char (read (newp + j)) value && preserved read newp value rounds (j + 1)

module _ {p : Package} where
  open p use {State, mem_reset_brk, mm_init, mm_malloc, mm_realloc, mm_free, byte, memset}

  -- `memset` and the arrays, for a block that is right.
  unfoldable pub fill : ℕ → ℕ → ℕ → Driver p → Driver p
  unfolding remember
  fill index size ptr d =
      remember (record d { mem = memset d.mem ptr (bit_and index 0xFF) size }) index ptr size

  -- What follows `mm_malloc` and the call of `add_range`.
  unfoldable pub alloc_checked : ℕ → ℕ → ℕ → Bool × Driver p → Run (Bool × Driver p)
  unfolding fill
  alloc_checked index size ptr (false, d) = ok (false, d)
  alloc_checked index size ptr (true, d) = ok (true, fill index size ptr d)

  unfoldable pub valid_alloc : ℕ → ℕ → Driver p → Option ℕ → Run (Bool × Driver p)
  unfolding alloc_checked
  valid_alloc index size d none = ok (false, malloc_error d)
  valid_alloc index size d (some ptr) = do
    added ← add_range d ptr size
    alloc_checked index size ptr added

  -- What follows `mm_realloc` and the call of `add_range`.
  unfoldable pub realloc_checked : ℕ → ℕ → ℕ → Bool × Driver p → Run (Bool × Driver p)
  unfolding fill preserved
  realloc_checked index size newp (false, d) = ok (false, d)
  realloc_checked index size newp (true, d) =
      let oldsize = d.block_sizes index in
      let oldsize = if ltb size oldsize then size else oldsize in
      if preserved (byte d.mem) newp (bit_and index 0xFF) oldsize 0
      then ok (true, fill index size newp d)
      else ok (false, malloc_error d)

  unfoldable pub valid_realloc : ℕ → ℕ → Driver p → Option ℕ → Run (Bool × Driver p)
  unfolding realloc_checked
  valid_realloc index size d none = ok (false, malloc_error d)
  valid_realloc index size d (some newp) = do
    added ← add_range (record d { ranges = remove_range d.ranges (d.blocks index) }) newp size
    realloc_checked index size newp added

  unfoldable pub valid_op : Request → ℕ → ℕ → Driver p → Run (Bool × Driver p)
  unfolding valid_alloc valid_realloc
  valid_op alloc index size d = do
    (found, mem) ← mm_malloc d.mem (size_t_of size)
    valid_alloc index size (record d { mem = mem }) found
  valid_op realloc index size d = do
    (found, mem) ← mm_realloc d.mem (some (d.blocks index)) (size_t_of size)
    valid_realloc index size (record d { mem = mem }) found
  valid_op free index size d = do
    mem ← mm_free d.mem (d.blocks index)
    ok (true, record d { mem = mem; ranges = remove_range d.ranges (d.blocks index) })

  unfoldable pub valid_loop : List TraceOp → Driver p → Run (Bool × Driver p)
  valid_loop [] d = ok (true, d)
  valid_loop (op ∷ ops) d = do
    (good, d) ← valid_op op.type op.index op.size d
    (if good then valid_loop ops d else ok (false, d))

  -- What follows `mm_init`. `true` is the result 1.
  unfoldable pub valid_after_init : List TraceOp → Driver p → Bool → Run (Bool × Driver p)
  unfolding valid_loop
  valid_after_init ops d false = ok (false, malloc_error d)
  valid_after_init ops d true = valid_loop ops d

  unfoldable pub eval_mm_valid : List TraceOp → Driver p → Run (Bool × Driver p)
  unfolding valid_after_init
  eval_mm_valid ops d = do
    (good, mem) ← mm_init (mem_reset_brk d.mem)
    valid_after_init ops (record d { mem = mem; ranges = clear_ranges d.ranges }) good
