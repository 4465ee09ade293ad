-- ===== src/Mm/Api/Init.antt =====
-- `mm_init` on the empty heap that mem_init or mem_reset_brk leaves.
use orga_del_computador.Base.{ℕ, ◌+◌, ◌*◌, ◌/◌, ◌≡◌, refl, ◌∙◌, arith, true, ap, [], ◌∷◌, is_some}
use orga_del_computador.MemLib.{Sim, max_heap}
use orga_del_computador.Mm.Words.{Words, put, pack, wsize, dsize, chunksize}
use orga_del_computador.Mm.Layout.{Block, block, RightOf}
use orga_del_computador.Mm.Heap.{Heap}
use orga_del_computador.Mm.Api.{mm_init, extend_heap}
use orga_del_computador.Mm.Api.Invariant.{IsHeap, joined}
use orga_del_computador.Mm.Api.Extend.{Grown, extend_heap-Grown, mem_sbrk-grant, IsWords}
use orga_del_computador.Mm.Api.Separated.{separated}
use orga_del_computador.Mm.Api.Holds.{Holds}
use orga_del_computador.Mm.Live.{live, live_left}

abbrev prologue_block : Block
prologue_block = block 16 true

-- The first four words.
abbrev start_words : Words → ℕ → Words
start_words m start =
    put
      (put (put (put m start 0) (start + 1 * wsize) (pack dsize 1)) (start + 2 * wsize)
        (pack dsize 1))
      (start + 3 * wsize) (pack 0 1)

abbrev start_heap : Heap → Heap
start_heap h = record {
  sim = record (h.sim) { mem_brk = h.sim.mem_brk + 4 * wsize };
  words = start_words h.words h.sim.mem_brk;
  heap_listp = h.sim.mem_brk + 2 * wsize;
  last_place = h.sim.mem_brk + 2 * wsize;
}

-- An empty simulated heap.
pub record IsEmpty (s : Sim) : Type 0 where
  pub at_start : s.mem_brk ≡ s.mem_start_brk
  pub limit : s.mem_max_addr ≡ s.mem_start_brk + max_heap

module _ (h : Heap) (e : IsEmpty h.sim) where
  start_list :
      RightOf (start_words h.words h.sim.mem_brk) (h.sim.mem_brk + 16) (prologue_block ∷ [])
  unfolding put pack
  start_list = (
    record {
      header = ground arith;
      footer = ground arith;
      fits = record { aligned = refl; room = omega arith; bounded = omega arith };
    },
    ground arith,
  )

  start-IsHeap : IsHeap (start_heap h) (prologue_block ∷ [])
  start-IsHeap = record {
    start = omega (arith, e.at_start);
    top = omega arith;
    limit = e.limit;
    within = omega (arith, e.at_start, e.limit);
    prologue = (refl, refl);
    list = start_list;
  }

  chunk-IsWords : IsWords (chunksize / wsize)
  chunk-IsWords = record { even = refl; positive = omega arith; bounded = omega arith }

  grown :
      Grown
        (start_heap h)
        (prologue_block ∷ [])
        (chunksize / wsize)
        (extend_heap (start_heap h) (chunksize / wsize))
  grown =
      extend_heap-Grown (start_heap h) prologue_block [] (chunksize / wsize) start-IsHeap
        chunk-IsWords (omega (arith, e.at_start, e.limit))

  mm_init-eq : mm_init h ≡ (
    is_some (extend_heap (start_heap h) (chunksize / wsize)).0,
    (extend_heap (start_heap h) (chunksize / wsize)).1,
  )
  unfolding mm_init
  mm_init-eq =
      rw (mem_sbrk-grant (4 * wsize) h.sim (omega arith) (omega (arith, e.at_start, e.limit)))

  -- With the place of the first block.
  pub mm_init-Holds_at :
      (h' : Heap) × (mm_init h ≡ (true, h')) × Holds h' [] × (h'.heap_listp ≡ h.sim.mem_brk + 16)
  unfolding live live_left separated
  mm_init-Holds_at = (
    (extend_heap (start_heap h) (chunksize / wsize)).1,
    mm_init-eq
        ∙ ap (λ o. (is_some o, (extend_heap (start_heap h) (chunksize / wsize)).1)) grown.address,
    record {
      blocks = joined (prologue_block ∷ []) 4096 [];
      heap = grown.heap;
      separate = refl;
      view = refl;
    },
    grown.list_start,
  )

  -- On an empty simulated heap `mm_init` succeeds and leaves a well-formed heap in which the
  -- client holds nothing.
  pub mm_init-Holds : (h' : Heap) × (mm_init h ≡ (true, h')) × Holds h' []
  mm_init-Holds = let (h', e, x, at) = mm_init-Holds_at in (h', e, x)
