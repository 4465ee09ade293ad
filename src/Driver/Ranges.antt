-- ===== src/Driver/Ranges.antt =====
-- The list of the extents of all allocated payloads.
use orga_del_computador.Base.{
  ℕ, ◌+◌, ◌-◌, ◌%◌, Bool, true, false, not, ◌&&◌, ◌||◌, List, [], ◌∷◌, ltb, leb, ◌==◌, u32,
  if◌then◌else◌,
}
use orga_del_computador.Mm.Run.{Run, ok, exit}
use orga_del_computador.DataLab.Ints.{slt}
use orga_del_computador.Driver.Package.{Package}
use orga_del_computador.Driver.Trace.{Range, Driver, malloc_error}

abbrev pub alignment : ℕ
alignment = 8

-- IS_ALIGNED
unfoldable pub is_aligned : ℕ → Bool
is_aligned p = u32 p % alignment == 0

-- The test of the loop over the ranges.
unfoldable pub overlaps : ℕ → ℕ → Range → Bool
overlaps lo hi p = (leb p.lo lo && leb lo p.hi) || (leb p.lo hi && leb hi p.hi)

unfoldable pub overlaps_any : ℕ → ℕ → List Range → Bool
unfolding overlaps
overlaps_any lo hi [] = false
overlaps_any lo hi (p ∷ ranges) = overlaps lo hi p || overlaps_any lo hi ranges

-- `true` is the result 1. A failed assertion on the `int` ends the program.
unfoldable pub add_range : {p : Package} → Driver p → ℕ → ℕ → Run (Bool × Driver p)
unfolding is_aligned overlaps_any
add_range {p} d lo size =
    let hi = lo + size - 1 in
    if not (slt 0 size)
    then exit
    else if not (is_aligned lo)
    then ok (false, malloc_error d)
    else if ltb lo (p.mem_heap_lo d.mem)
        || ltb (p.mem_heap_hi d.mem) lo
        || ltb hi (p.mem_heap_lo d.mem)
        || ltb (p.mem_heap_hi d.mem) hi
    then ok (false, malloc_error d)
    else if overlaps_any lo hi d.ranges
    then ok (false, malloc_error d)
    else ok (true, record d { ranges = record { lo = lo; hi = hi } ∷ d.ranges })

-- The first range that starts at `lo` goes.
unfoldable pub remove_range : List Range → ℕ → List Range
remove_range [] lo = []
remove_range (p ∷ ranges) lo = if p.lo == lo then ranges else p ∷ remove_range ranges lo

abbrev pub clear_ranges : List Range → List Range
clear_ranges ranges = []
