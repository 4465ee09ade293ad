-- ===== src/Driver/Libc.antt =====
-- `eval_libc_valid` and `eval_libc_speed`: replay a trace on the allocator of libc.
use orga_del_computador.Base.{ℕ, Bool, true, Option, none, some, List, [], ◌∷◌}
use orga_del_computador.Mm.Run.{Run, ok, exit, ◌>>=◌}
use orga_del_computador.Driver.Trace.{Request, alloc, free, realloc, TraceOp, assign, size_t_of}

-- The allocator of libc, which is not part of the repository.
pub record Libc : Type 1 where
  pub State : Type 0
  pub malloc : State → ℕ → Option ℕ × State
  pub realloc_block : State → ℕ → ℕ → Option ℕ × State
  pub free_block : State → ℕ → State

module _ (c : Libc) where
  open c use {State, malloc, realloc_block, free_block}

  -- `trace->blocks[index] = p`, unless the call failed: `unix_error` ends the program.
  unfoldable pub keep : ℕ → (ℕ → ℕ) → Option ℕ × State → Run (State × (ℕ → ℕ))
  unfolding assign
  keep index blocks (none, s) = exit
  keep index blocks (some ptr, s) = ok (s, assign blocks index ptr)

  unfoldable pub libc_op : Request → ℕ → ℕ → State → (ℕ → ℕ) → Run (State × (ℕ → ℕ))
  unfolding keep
  libc_op alloc index size s blocks = keep index blocks (malloc s (size_t_of size))
  libc_op realloc index newsize s blocks =
      keep index blocks (realloc_block s (blocks index) (size_t_of newsize))
  libc_op free index size s blocks = ok (free_block s (blocks index), blocks)

  unfoldable pub eval_libc_speed : List TraceOp → State → (ℕ → ℕ) → Run (State × (ℕ → ℕ))
  unfolding libc_op
  eval_libc_speed [] s blocks = ok (s, blocks)
  eval_libc_speed (op ∷ ops) s blocks = do
    (s, blocks) ← libc_op op.type op.index op.size s blocks
    eval_libc_speed ops s blocks

  -- It runs as `eval_libc_speed` does and returns 1.
  unfoldable pub eval_libc_valid : List TraceOp → State → (ℕ → ℕ) → Run (Bool × (State × (ℕ → ℕ)))
  unfolding libc_op
  eval_libc_valid [] s blocks = ok (true, (s, blocks))
  eval_libc_valid (op ∷ ops) s blocks = do
    (s, blocks) ← libc_op op.type op.index op.size s blocks
    eval_libc_valid ops s blocks
