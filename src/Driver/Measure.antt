-- ===== src/Driver/Measure.antt =====
-- `eval_mm_util` and `eval_mm_speed`: replay a trace without checks.
use orga_del_computador.Base.{
  ℕ, ◌+◌, ◌-◌, ◌^◌, Option, none, some, List, [], ◌∷◌, u32, if◌then◌else◌,
}
use orga_del_computador.Mm.Run.{Run, ok, exit, ◌>>=◌}
use orga_del_computador.DataLab.Ints.{slt}
use orga_del_computador.Driver.Package.{Package}
use orga_del_computador.Driver.Trace.{
  Request, alloc, free, realloc, TraceOp, Driver, size_t_of, remember, assign,
}

-- The two sums of `eval_mm_util`, as the bit patterns of `int`s.
pub record Sizes : Type 0 where
  pub total_size : ℕ
  pub max_total_size : ℕ

-- `max_total_size = (total_size > max_total_size) ? total_size : max_total_size`
unfoldable pub grow : Sizes → ℕ → Sizes
grow s total = record {
  total_size = total;
  max_total_size = if slt s.max_total_size total then total else s.max_total_size;
}

module _ {p : Package} where
  open p use {State, mem_reset_brk, mm_init, mm_malloc, mm_realloc, mm_free, mem_heapsize}

  -- What follows the call of the allocator; `app_error` ends the program.
  unfoldable pub util_alloc : ℕ → ℕ → Driver p → Sizes → Option ℕ → Run (Driver p × Sizes)
  unfolding grow
  util_alloc index size d s none = exit
  util_alloc index size d s (some ptr) =
      ok (remember d index ptr size, grow s (u32 (s.total_size + size)))

  unfoldable pub util_realloc : ℕ → ℕ → ℕ → Driver p → Sizes → Option ℕ → Run (Driver p × Sizes)
  unfolding grow
  util_realloc index newsize oldsize d s none = exit
  util_realloc index newsize oldsize d s (some newp) = ok (
    remember d index newp newsize,
    grow s (u32 (s.total_size + u32 (newsize + 2 ^ 32 - oldsize))),
  )

  unfoldable pub util_op : Request → ℕ → ℕ → Driver p → Sizes → Run (Driver p × Sizes)
  unfolding util_alloc util_realloc
  util_op alloc index size d s = do
    (found, mem) ← mm_malloc d.mem (size_t_of size)
    util_alloc index size (record d { mem = mem }) s found
  util_op realloc index newsize d s = do
    (found, mem) ← mm_realloc d.mem (some (d.blocks index)) (size_t_of newsize)
    util_realloc index newsize (d.block_sizes index) (record d { mem = mem }) s found
  util_op free index size d s = do
    mem ← mm_free d.mem (d.blocks index)
    ok (
      record d { mem = mem },
      record s { total_size = u32 (s.total_size + 2 ^ 32 - d.block_sizes index) },
    )

  unfoldable pub util_loop : List TraceOp → Driver p → Sizes → Run (Driver p × Sizes)
  unfolding util_op
  util_loop [] d s = ok (d, s)
  util_loop (op ∷ ops) d s = do (d, s) ← util_op op.type op.index op.size d s; util_loop ops d s

  -- The two numbers whose quotient is returned, behind the new state.
  unfoldable pub eval_mm_util : List TraceOp → Driver p → Run (Driver p × ℕ × ℕ)
  unfolding util_loop
  eval_mm_util ops d = do
    (good, mem) ← mm_init (mem_reset_brk d.mem)
    (d, s) ←
        if good
        then util_loop ops (record d { mem = mem }) (record { total_size = 0; max_total_size = 0 })
        else exit
    ok (d, s.max_total_size, mem_heapsize d.mem)

  unfoldable pub speed_store : ℕ → Driver p → Option ℕ → Run (Driver p)
  unfolding assign
  speed_store index d none = exit
  speed_store index d (some ptr) = ok (record d { blocks = assign d.blocks index ptr })

  unfoldable pub speed_op : Request → ℕ → ℕ → Driver p → Run (Driver p)
  unfolding speed_store
  speed_op alloc index size d = do
    (found, mem) ← mm_malloc d.mem (size_t_of size)
    speed_store index (record d { mem = mem }) found
  speed_op realloc index newsize d = do
    (found, mem) ← mm_realloc d.mem (some (d.blocks index)) (size_t_of newsize)
    speed_store index (record d { mem = mem }) found
  speed_op free index size d = do mem ← mm_free d.mem (d.blocks index); ok (record d { mem = mem })

  unfoldable pub speed_loop : List TraceOp → Driver p → Run (Driver p)
  unfolding speed_op
  speed_loop [] d = ok d
  speed_loop (op ∷ ops) d = do d ← speed_op op.type op.index op.size d; speed_loop ops d

  unfoldable pub eval_mm_speed : List TraceOp → Driver p → Run (Driver p)
  unfolding speed_loop
  eval_mm_speed ops d = do
    (good, mem) ← mm_init (mem_reset_brk d.mem)
    if good then speed_loop ops (record d { mem = mem }) else exit
