-- ===== src/Mm/Tests.antt =====
-- Runs of the allocator on concrete heaps, and its theorems at concrete inputs.
use orga_del_computador.Base.{
  ℕ, ◌+◌, ◌≡◌, refl, arith, true, false, List, [], ◌∷◌, Option, some, ◌⊎◌, if◌then◌else◌, ◌==◌,
  ◌||◌,
}
use orga_del_computador.MemLib.{max_heap, mem_sbrk, mem_heapsize}
use orga_del_computador.Mm.Words.{
  Words, get, put, get_size, get_alloc, pack, get_footer, get_header, get_previous_block,
  get_next_block, is_free, is_big_enough, max,
}
use orga_del_computador.Mm.Run.{Run, ok, ◌>>=◌}
use orga_del_computador.Mm.Layout.{Block, block, Fits, RightOf}
use orga_del_computador.Mm.Layout.Frame.{SameOutside}
use orga_del_computador.Mm.Block.Place.{placed, place-RightOf}
use orga_del_computador.Mm.Block.Join.{Joined, coalesce-Joined}
use orga_del_computador.Mm.Heap.Search.{first_fit}
use orga_del_computador.Mm.Block.{coalesce, place}
use orga_del_computador.Mm.Heap.{
  Heap, rounds, mm_checkheap, checkheap_loop, is_broken, find_fit, find_first_fit, first_fit_loop,
}
use orga_del_computador.Mm.Heap.Fits.{address_of, first_fit_loop-first_fit}
use orga_del_computador.Mm.Api.{
  mm_init, mm_malloc, mm_free, mm_realloc, adjusted, extend_heap, extend_with, init_with,
  malloc_with, place_checked, place_extended,
}
use orga_del_computador.Mm.Api.Invariant.{IsHeap}
use orga_del_computador.Mm.Api.Separated.{separated}
use orga_del_computador.Mm.Api.Holds.{Holds, Returns, mm_free-Returns}
use orga_del_computador.Mm.Api.Init.{mm_init-Holds}
use orga_del_computador.Mm.Api.Found.{Success}
use orga_del_computador.Mm.Api.Answers.{Answers, Refused, mm_malloc-total}
use orga_del_computador.Mm.Api.Realloc.{mm_realloc-total}
use orga_del_computador.Mm.Live.{live}

abbrev empty_heap : Heap
empty_heap = record {
  sim = record { mem_start_brk = 64; mem_brk = 64; mem_max_addr = 64 + max_heap };
  words = λ _. 0;
  heap_listp = 0;
  last_place = 0;
}

-- A block is allocated and freed, and a smaller one goes into its place.
session : Run (ℕ × Option ℕ × Option ℕ)
unfolding mm_init mm_malloc mm_free mm_checkheap rounds checkheap_loop is_broken find_fit
    find_first_fit first_fit_loop mem_sbrk mem_heapsize extend_heap extend_with init_with
    malloc_with adjusted place_checked place_extended coalesce place get get_size get_alloc put pack
    get_footer get_header get_previous_block get_next_block is_free is_big_enough max
session =
    let h = (mm_init empty_heap).1 in
    do (a, h) ← mm_malloc h 100; h ← mm_free h 96; (b, h) ← mm_malloc h 40; ok (h.sim.mem_brk, a, b)

session_runs : session ≡ ok (4192, some 96, some 96)
unfolding session
session_runs = refl

-- The prologue at 80, a used block of 32 bytes at 96, a free block of 64 bytes at 128, the epilogue.
abbrev small_words : Words
small_words a =
    if a == 72 || a == 80
    then 17
    else if a == 88 || a == 112
    then 33
    else if a == 120 || a == 176
    then 64
    else if a == 184
    then 1
    else 0

abbrev small_heap : Heap
small_heap = record {
  sim = record { mem_start_brk = 64; mem_brk = 192; mem_max_addr = 64 + max_heap };
  words = small_words;
  heap_listp = 80;
  last_place = 80;
}

abbrev small_blocks : List Block
small_blocks = block 16 true ∷ block 32 true ∷ block 64 false ∷ []

prologue-Fits : Fits (block 16 true)
prologue-Fits = record { aligned = refl; room = omega arith; bounded = omega arith }

small-IsHeap : IsHeap small_heap small_blocks
small-IsHeap = record {
  start = refl;
  top = refl;
  limit = refl;
  within = omega arith;
  prologue = (refl, refl);
  list = (
    record { header = refl; footer = refl; fits = prologue-Fits },
    (
      record {
        header = refl;
        footer = refl;
        fits = record { aligned = refl; room = omega arith; bounded = omega arith };
      },
      (
        record {
          header = refl;
          footer = refl;
          fits = record { aligned = refl; room = omega arith; bounded = omega arith };
        },
        refl,
      ),
    ),
  );
}

small-Holds : Holds small_heap ((96, 32) ∷ [])
unfolding live separated
small-Holds = record { blocks = small_blocks; heap = small-IsHeap; separate = refl; view = refl }

mm_init-Holds_example : (h : Heap) × (mm_init empty_heap ≡ (true, h)) × Holds h []
mm_init-Holds_example = mm_init-Holds empty_heap (record { at_start = refl; limit = refl })

mm_malloc-total_example :
    Answers small_heap small-Holds.blocks ((96, 32) ∷ []) 20 (mm_malloc small_heap 20)
mm_malloc-total_example =
    mm_malloc-total small_heap ((96, 32) ∷ []) 20 (omega arith) (omega arith) small-Holds

mm_free-Returns_example : (h : Heap) × (mm_free small_heap 96 ≡ ok h) × Returns small_heap [] [] h
mm_free-Returns_example = mm_free-Returns small_heap [] 96 32 [] small-Holds

mm_realloc-total_example :
    (h : Heap) × Returns small_heap [] [] h
    × (Success h [] (adjusted 100) (mm_realloc small_heap (some 96) 100)
        ⊎ Refused h (adjusted 100) (mm_realloc small_heap (some 96) 100))
mm_realloc-total_example =
    mm_realloc-total small_heap [] 96 32 [] small-Holds 100 (omega arith) (omega arith)

-- The same memory with the block at 96 free.
abbrev free_words : Words
free_words a = if a == 88 || a == 112 then 32 else small_words a

coalesce-Joined_example :
    Joined free_words 80 (block 16 true ∷ []) 32 (block 64 false ∷ []) (coalesce free_words 96)
coalesce-Joined_example =
    coalesce-Joined free_words 80 (block 16 true) [] (block 32 false) (omega arith)
      (record { header = refl; footer = refl; fits = prologue-Fits }) tt
      (record {
        header = refl;
        footer = refl;
        fits = record { aligned = refl; room = omega arith; bounded = omega arith };
      })
      (block 64 false ∷ []) refl
      (
        record {
          header = refl;
          footer = refl;
          fits = record { aligned = refl; room = omega arith; bounded = omega arith };
        },
        refl,
      )
      (omega arith)

place-RightOf_example :
    RightOf (place small_words 128 32) 128 (placed 32 (block 64 false) [])
    × SameOutside 128 192 small_words (place small_words 128 32)
place-RightOf_example =
    place-RightOf small_words 128 32 (block 64 false) [] (omega arith) refl (omega arith)
      (omega arith) small-IsHeap.list.1.1.0 refl

first_fit_loop-first_fit_example :
    first_fit_loop small_words 40 5 80 ≡ ok (address_of 80 (first_fit 40 [] small_blocks))
first_fit_loop-first_fit_example =
    first_fit_loop-first_fit small_words 40 80 (omega arith) 5 80 [] small_blocks refl
      small-IsHeap.list (omega arith)
