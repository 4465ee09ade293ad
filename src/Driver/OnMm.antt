-- ===== src/Driver/OnMm.antt =====
-- The driver linked with mm.c and memlib.c. The storage is one memory: the tags that mm.c writes and
-- the payload bytes that the driver writes and reads lie in the same four-byte units, by the
-- addresses at multiples of 4.
pub mod Insertion
pub mod Matches
pub mod Payload
pub mod Keeps
use orga_del_computador.Base.{ℕ, ◌+◌, ◌*◌, ◌/◌, ◌%◌, ◌^◌, ◌&&◌, ◌||◌, leb, ltb, if◌then◌else◌}
use orga_del_computador.MemLib.{mem_reset_brk, mem_heap_lo, mem_heap_hi, mem_heapsize}
use orga_del_computador.Mm.Words.{Words}
use orga_del_computador.Mm.Run.{Run, ok, ◌>>=◌}
use orga_del_computador.Mm.Heap.{Heap}
use orga_del_computador.Mm.Api.{mm_init, mm_malloc, mm_realloc, mm_free}
use orga_del_computador.Driver.Package.{Package}

-- The byte at the address `a`, the lowest of a unit first.
abbrev pub byte_of_words : Words → ℕ → ℕ
byte_of_words m a = m (a / 4 * 4) / 256 ^ (a % 4) % 256

-- The byte `i` of the unit at `w` behind `memset`.
abbrev pub set_byte : Words → ℕ → ℕ → ℕ → ℕ → ℕ → ℕ
set_byte m ptr value size w i =
    if leb ptr (w + i) && ltb (w + i) (ptr + size) then value % 256 else m w / 256 ^ i % 256

-- `memset` on the units: those without a byte of the range stay.
unfoldable pub set_words : Words → ℕ → ℕ → ℕ → Words
set_words m ptr value size w =
    if leb (w + 4) ptr || leb (ptr + size) w
    then m w
    else set_byte m ptr value size w 0
      + 256 * set_byte m ptr value size w 1
      + 256 ^ 2 * set_byte m ptr value size w 2
      + 256 ^ 3 * set_byte m ptr value size w 3

-- `mm_init` behind `mem_reset_brk`, and the other calls.
abbrev pub mm_package : Package
mm_package = record {
  State = Heap;
  mem_reset_brk = λ h. record h { sim = mem_reset_brk h.sim };
  mm_init = λ h. ok (mm_init h);
  mm_malloc = mm_malloc;
  mm_realloc = mm_realloc;
  mm_free = mm_free;
  mem_heap_lo = λ h. mem_heap_lo h.sim;
  mem_heap_hi = λ h. mem_heap_hi h.sim;
  mem_heapsize = λ h. mem_heapsize h.sim;
  byte = λ h a. byte_of_words h.words a;
  memset = λ h ptr value size. record h { words = set_words h.words ptr value size };
}
