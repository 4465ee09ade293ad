-- ===== src/Driver/Package.antt =====
-- What the driver calls: the entry points of mm.h, the queries of memlib.h, and the memory itself.
use orga_del_computador.Base.{ℕ, Bool, Option}
use orga_del_computador.Mm.Run.{Run}

-- `State` is the simulated heap with the variables of the allocator. A pointer is a number and NULL
-- is `none`; `true` is the result 0 of `mm_init`. `byte` reads a byte of the heap, and
-- `memset` writes a number of equal bytes from an address on.
pub record Package : Type 1 where
  pub State : Type 0
  pub mem_reset_brk : State → State
  pub mm_init : State → Run (Bool × State)
  pub mm_malloc : State → ℕ → Run (Option ℕ × State)
  pub mm_realloc : State → Option ℕ → ℕ → Run (Option ℕ × State)
  pub mm_free : State → ℕ → Run State
  pub mem_heap_lo : State → ℕ
  pub mem_heap_hi : State → ℕ
  pub mem_heapsize : State → ℕ
  pub byte : State → ℕ → ℕ
  pub memset : State → ℕ → ℕ → ℕ → State
