-- ===== src/Naive.antt =====
-- Tp2/mm-naive.c: the allocator that only grows the break, on a memory of bytes.
pub mod Memory
pub mod Chain
pub mod Keeps
pub mod Copy
mod Tests
use orga_del_computador.Base.{
  ℕ, ◌+◌, ◌-◌, ◌^◌, bit_and, Bool, true, Option, none, some, ltb, leb, u32, u64, if◌then◌else◌,
}
use orga_del_computador.MemLib.{
  Sim, mem_sbrk, mem_reset_brk, mem_heap_lo, mem_heap_hi, mem_heapsize,
}
use orga_del_computador.Mm.Run.{ok}
use orga_del_computador.Driver.Package.{Package}
use orga_del_computador.Naive.Memory.{Bytes, load_size, store_size, memcpy, memset}

-- ALIGNMENT
abbrev pub alignment : ℕ
alignment = 8

-- ALIGN: `~0x7` is an `int` that is extended to 64 bits.
unfoldable pub align : ℕ → ℕ
align size = bit_and (u64 (size + (alignment - 1))) (2 ^ 64 - 1 - 0x7)

-- SIZE_T_SIZE
abbrev pub size_t_size : ℕ
size_t_size = 8

pub record Naive : Type 0 where
  pub sim : Sim
  pub bytes : Bytes

unfoldable pub mm_init : Naive → Bool × Naive
mm_init m = (true, m)

-- What follows mem_sbrk.
unfoldable pub malloc_at : Naive → ℕ → Option ℕ × Sim → Option ℕ × Naive
malloc_at m size (none, sim) = (none, record m { sim = sim })
malloc_at m size (some p, sim) =
    (some (p + size_t_size), record { sim = sim; bytes = store_size m.bytes p size })

-- `newsize` is an `int`.
unfoldable pub mm_malloc : Naive → ℕ → Option ℕ × Naive
unfolding malloc_at
mm_malloc m size =
    let newsize = u32 (align (u64 (size + size_t_size))) in
    malloc_at m size (mem_sbrk newsize m.sim)

unfoldable pub mm_free : Naive → ℕ → Naive
mm_free m ptr = m

-- What follows `mm_malloc`.
unfoldable pub realloc_with : ℕ → ℕ → Option ℕ × Naive → Option ℕ × Naive
unfolding mm_free
realloc_with oldptr size (none, m) = (none, m)
realloc_with oldptr size (some newptr, m) =
    let copy_size = load_size m.bytes (oldptr - size_t_size) in
    let copy_size = if ltb size copy_size then size else copy_size in
    (some newptr, mm_free (record m { bytes = memcpy m.bytes newptr oldptr copy_size }) oldptr)

unfoldable pub mm_realloc : Naive → ℕ → ℕ → Option ℕ × Naive
unfolding realloc_with
mm_realloc m ptr size = realloc_with ptr size (mm_malloc m size)
