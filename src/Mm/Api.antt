-- ===== src/Mm/Api.antt =====
-- The entry points of mm.c. `none` stands for the pointer NULL.
pub mod Invariant
pub mod Separated
pub mod Init
pub mod Realloc
pub mod Found
pub mod Malloc
pub mod Answers
pub mod Sizes
pub mod Holds
pub mod Joined
pub mod Free
pub mod Extend
use orga_del_computador.Base.{
  ℕ, ◌+◌, ◌*◌, ◌/◌, ◌%◌, ◌^◌, ◌-◌, Bool, true, false, not, Option, none, some, leb, ◌==◌, is_some,
  u32, u64, is_true, if◌then◌else◌,
}
use orga_del_computador.MemLib.{Sim, mem_sbrk}
use orga_del_computador.Mm.Words.{
  wsize, dsize, chunksize, pack, put, max, get_size, get_header, get_footer, get_next_block,
  is_big_enough,
}
use orga_del_computador.Mm.Run.{Run, ok, ◌>>=◌, ◌>>◌}
use orga_del_computador.Mm.Block.{coalesce, place}
use orga_del_computador.Mm.Heap.{Heap, mm_checkheap, find_fit}

-- What follows the call of mem_sbrk, by its result.
unfoldable pub extend_with : Heap → ℕ → Option ℕ × Sim → Option ℕ × Heap
extend_with h size (none, sim) = (none, record h { sim = sim })
extend_with h size (some bp, sim) =
    let m = put h.words (get_header bp) (pack size 0) in
    let m = put m (get_footer m bp) (pack size 0) in
    let m = put m (get_header (get_next_block m bp)) (pack 0 1) in
    let (bp, m) = coalesce m bp in (some bp, record h { sim = sim; words = m })

-- The `size_t` is cut to the `int` that mem_sbrk takes.
unfoldable pub extend_heap : Heap → ℕ → Option ℕ × Heap
unfolding extend_with
extend_heap h extendsize =
    let size =
      if is_true (extendsize % 2)
      then u64 (u64 (extendsize + 1) * wsize)
      else u64 (extendsize * wsize) in
    extend_with h size (mem_sbrk (u32 size) h.sim)

-- What follows the first mem_sbrk of `mm_init`. `true` is the result 0, `false` is -1.
unfoldable pub init_with : Heap → Option ℕ × Sim → Bool × Heap
init_with h (none, sim) = (false, record h { sim = sim; heap_listp = 2 ^ 64 - 1 })
init_with h (some start, sim) =
    let m = put h.words start 0 in
    let m = put m (start + 1 * wsize) (pack dsize 1) in
    let m = put m (start + 2 * wsize) (pack dsize 1) in
    let m = put m (start + 3 * wsize) (pack 0 1) in
    let heap_listp = start + 2 * wsize in
    let (area, h) =
      extend_heap
        (record { sim = sim; words = m; heap_listp = heap_listp; last_place = heap_listp })
        (chunksize / wsize) in
    (is_some area, h)

-- `(void *)-1` stays in `heap_listp` when mem_sbrk fails.
unfoldable pub mm_init : Heap → Bool × Heap
unfolding init_with
mm_init h = init_with h (mem_sbrk (4 * wsize) h.sim)

-- The size of the block for a request of `size` bytes.
unfoldable pub adjusted : ℕ → ℕ
adjusted size =
    if leb size dsize
    then 2 * dsize
    else u64 (dsize * (u64 (u64 (size + dsize) + (dsize - 1)) / dsize))

-- `place` in the heap at `bp`, and the check that follows it.
unfoldable pub place_checked : Heap → ℕ → ℕ → Run (Option ℕ × Heap)
place_checked h bp asize =
    let h' = record h { words = place h.words bp asize } in do mm_checkheap h'; ok (some bp, h')

-- The end of `mm_malloc` when the heap had to be extended.
unfoldable pub place_extended : ℕ → Option ℕ × Heap → Run (Option ℕ × Heap)
unfolding place_checked
place_extended asize (none, h) = ok (none, h)
place_extended asize (some bp, h) = place_checked h bp asize

-- `mm_malloc` behind `find_fit`, by its result.
unfoldable pub malloc_with : Heap → ℕ → Option ℕ → Run (Option ℕ × Heap)
unfolding place_extended
malloc_with h asize (some bp) = place_checked h bp asize
malloc_with h asize none = place_extended asize (extend_heap h (max asize chunksize / wsize))

unfoldable pub mm_malloc : Heap → ℕ → Run (Option ℕ × Heap)
unfolding malloc_with adjusted
mm_malloc h size =
    if size == 0
    then ok (none, h)
    else (do found ← find_fit h (adjusted size); malloc_with h (adjusted size) found)

unfoldable pub mm_free : Heap → ℕ → Run Heap
mm_free h ptr =
    let size = get_size h.words (get_header ptr) in
    let m = put h.words (get_header ptr) (pack size 0) in
    let m = put m (get_footer m ptr) (pack size 0) in
    let h' = record h { words = (coalesce m ptr).1 } in do mm_checkheap h'; ok h'

unfoldable pub mm_realloc : Heap → Option ℕ → ℕ → Run (Option ℕ × Heap)
mm_realloc h none size = mm_malloc h size
mm_realloc h (some ptr) size =
    if size == 0
    then (do h ← mm_free h ptr; ok (none, h))
    else if not (is_big_enough h.words ptr size)
    then (do h ← mm_free h ptr; mm_malloc h size)
    else ok (some ptr, h)
