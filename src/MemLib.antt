-- ===== src/MemLib.antt =====
-- Tp2/memlib.c: the simulated `brk` on which the allocator runs. Addresses are numbers.
use orga_del_computador.Base.{
  ℕ, ◌+◌, ◌-◌, ◌*◌, ◌^◌, ◌||◌, Option, none, some, ltb, leb, if◌then◌else◌,
}

-- MAX_HEAP of config.h, 20 MB.
abbrev pub max_heap : ℕ
max_heap = 20 * 2 ^ 20

-- The three private pointers of memlib.c.
pub record Sim : Type 0 where
  pub mem_start_brk : ℕ
  pub mem_brk : ℕ
  pub mem_max_addr : ℕ

-- `storage` is what libc's malloc(MAX_HEAP) returns, `none` for NULL; then the program exits.
unfoldable pub mem_init : Option ℕ → Option Sim
mem_init none = none
mem_init (some storage) =
    some (record { mem_start_brk = storage; mem_brk = storage; mem_max_addr = storage + max_heap })

unfoldable pub mem_reset_brk : Sim → Sim
mem_reset_brk s = record s { mem_brk = s.mem_start_brk }

-- `incr` is the 32-bit pattern of an `int`, so `incr < 0` is `2 ^ 31 <= incr`. `none` is `(void *)-1`.
unfoldable pub mem_sbrk : ℕ → Sim → Option ℕ × Sim
mem_sbrk incr s =
    if leb (2 ^ 31) incr || ltb s.mem_max_addr (s.mem_brk + incr)
    then (none, s)
    else (some s.mem_brk, record s { mem_brk = s.mem_brk + incr })

unfoldable pub mem_heap_lo : Sim → ℕ
mem_heap_lo s = s.mem_start_brk

unfoldable pub mem_heap_hi : Sim → ℕ
mem_heap_hi s = s.mem_brk - 1

unfoldable pub mem_heapsize : Sim → ℕ
mem_heapsize s = s.mem_brk - s.mem_start_brk
