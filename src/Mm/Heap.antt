-- ===== src/Mm/Heap.antt =====
-- The static variables of mm.c, and the loops over the implicit list.
-- A loop takes a step per block, and a block of the list spans 16 bytes at least: `rounds`, a step
-- for each 8 bytes of the heap and one more, is enough.
pub mod Search
pub mod Fits
use orga_del_computador.Base.{
  ℕ, zero, suc, ◌+◌, ◌/◌, ◌%◌, Bool, false, not, ◌&&◌, ◌||◌, Option, none, some, ltb, ◌==◌,
  if◌then◌else◌,
}
use orga_del_computador.MemLib.{Sim, mem_heapsize}
use orga_del_computador.Mm.Words.{
  Words, dsize, get_size, get_alloc, get_header, get_footer, get_next_block, is_free, is_big_enough,
}
use orga_del_computador.Mm.Run.{Run, ok, exit, out_of_fuel, ◌>>=◌}

pub record Heap : Type 0 where
  pub sim : Sim
  pub words : Words
  pub heap_listp : ℕ
  pub last_place : ℕ

unfoldable pub rounds : Heap → ℕ
unfolding mem_heapsize
rounds h = mem_heapsize h.sim / 8 + 2

-- The loop condition `get_size(get_header(bp)) > 0`.
abbrev pub more : Words → ℕ → Bool
more m bp = ltb 0 (get_size m (get_header bp))

-- One round of the checks: whether something is wrong with the block.
unfoldable pub is_broken : Words → ℕ → Bool
is_broken m bp =
    not (get_alloc m (get_header bp) == get_alloc m (get_footer m bp))
    || not (get_size m (get_header bp) == get_size m (get_footer m bp))
    || not (get_size m (get_header bp) % dsize == 0)

-- `errorcode == -1` at the end.
unfoldable pub checkheap_loop : Words → ℕ → ℕ → Bool → Run Bool
checkheap_loop m zero bp errorcode = out_of_fuel
checkheap_loop m (suc k) bp errorcode =
    let rest = checkheap_loop m k (get_next_block m bp) (errorcode || is_broken m bp) in
    if more m bp then rest else ok errorcode

-- The heap is only read: what is returned is whether the program goes on.
unfoldable pub mm_checkheap : Heap → Run (Unit {0})
mm_checkheap h = do
  errorcode ← checkheap_loop h.words (rounds h) h.heap_listp false
  if errorcode then exit else ok tt

unfoldable pub first_fit_loop : Words → ℕ → ℕ → ℕ → Run (Option ℕ)
first_fit_loop m asize zero bp = out_of_fuel
first_fit_loop m asize (suc k) bp =
    let rest = first_fit_loop m asize k (get_next_block m bp) in
    if more m bp
    then (if is_free m bp && is_big_enough m bp asize then ok (some bp) else rest)
    else ok none

unfoldable pub find_first_fit : Heap → ℕ → Run (Option ℕ)
find_first_fit h asize = first_fit_loop h.words asize (rounds h) h.heap_listp

unfoldable pub best_fit_loop : Words → ℕ → ℕ → ℕ → ℕ → Run ℕ
best_fit_loop m asize zero bp min_bp = out_of_fuel
best_fit_loop m asize (suc k) bp min_bp =
    let better =
      is_free m bp
      && is_big_enough m bp asize
      && ltb (get_size m (get_header bp)) (get_size m (get_header min_bp)) in
    let rest = best_fit_loop m asize k (get_next_block m bp) (if better then bp else min_bp) in
    if more m bp then rest else ok min_bp

unfoldable pub find_best_fit : Heap → ℕ → Run (Option ℕ)
find_best_fit h asize = do
  min_bp ← best_fit_loop h.words asize (rounds h) h.heap_listp h.heap_listp
  ok (if min_bp == h.heap_listp && not (is_free h.words min_bp) then none else some min_bp)

unfoldable pub worst_fit_loop : Words → ℕ → ℕ → ℕ → ℕ → Run ℕ
worst_fit_loop m asize zero bp max_bp = out_of_fuel
worst_fit_loop m asize (suc k) bp max_bp =
    let better =
      is_free m bp
      && is_big_enough m bp asize
      && ltb (get_size m (get_header max_bp)) (get_size m (get_header bp)) in
    let rest = worst_fit_loop m asize k (get_next_block m bp) (if better then bp else max_bp) in
    if more m bp then rest else ok max_bp

unfoldable pub find_worst_fit : Heap → ℕ → Run (Option ℕ)
find_worst_fit h asize = do
  max_bp ← worst_fit_loop h.words asize (rounds h) h.heap_listp h.heap_listp
  ok (if max_bp == h.heap_listp && not (is_free h.words max_bp) then none else some max_bp)

-- The second loop of `find_next_fit`, whose condition is `bp == last_place`.
unfoldable pub wrap_loop : Words → ℕ → ℕ → ℕ → ℕ → Run (Option ℕ)
wrap_loop m asize last_place zero bp = out_of_fuel
wrap_loop m asize last_place (suc k) bp =
    let rest = wrap_loop m asize last_place k (get_next_block m bp) in
    if bp == last_place
    then (if is_free m bp && is_big_enough m bp asize then ok (some bp) else rest)
    else ok none

-- A hit is stored in `last_place`. The first loop is that of `find_first_fit` from `last_place`.
unfoldable pub find_next_fit : Heap → ℕ → Run (Option ℕ × Heap)
find_next_fit h asize = do
  found ← first_fit_loop h.words asize (rounds h) h.last_place
  elim found [
    | some bp ↦ ok (some bp, record h { last_place = bp })
    | none ↦ if h.last_place == h.heap_listp then ok (none, h) else (do
      found ← wrap_loop h.words asize h.last_place (rounds h) h.heap_listp
      elim found [ some bp ↦ ok (some bp, record h { last_place = bp }) | none ↦ ok (none, h) ])
  ]

unfoldable pub find_fit : Heap → ℕ → Run (Option ℕ)
find_fit h asize = find_first_fit h asize
