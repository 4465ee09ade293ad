-- ===== src/Client/Tests.antt =====
-- A client of mm.c that asks for two blocks and frees the first.
use orga_del_computador.Base.{
  ℕ, ◌+◌, ◌≤◌, ◌≡◌, refl, ap, arith, Bool, true, false, Option, none, some, [], ◌∷◌,
}
use orga_del_computador.MemLib.{max_heap, mem_sbrk, mem_heapsize}
use orga_del_computador.Mm.Words.{
  get, put, get_size, get_alloc, pack, get_footer, get_header, get_previous_block, get_next_block,
  is_free, is_big_enough, max,
}
use orga_del_computador.Mm.Run.{Run, ok, exit, out_of_fuel}
use orga_del_computador.Mm.Block.{coalesce, place}
use orga_del_computador.Mm.Heap.{
  Heap, rounds, mm_checkheap, checkheap_loop, is_broken, find_fit, find_first_fit, first_fit_loop,
}
use orga_del_computador.Mm.Api.{
  mm_init, mm_malloc, mm_free, adjusted, extend_heap, extend_with, init_with, malloc_with,
  place_checked, place_extended,
}
use orga_del_computador.Client.Session.{Session, starts, mallocs, frees, Serves, Session-Serves}
use orga_del_computador.Client.Drain.{free_all, free_all-mm_malloc}

abbrev empty_heap : Heap
empty_heap = record {
  sim = record { mem_start_brk = 64; mem_brk = 64; mem_max_addr = 64 + max_heap };
  words = λ _. 0;
  heap_listp = 0;
  last_place = 0;
}

abbrev init_heap : Heap
init_heap = (mm_init empty_heap).1

-- What a call that succeeds returns.
abbrev heap_of : Run (Option ℕ × Heap) → Heap
heap_of (ok (p, h)) = h
heap_of exit = empty_heap
heap_of out_of_fuel = empty_heap

abbrev found_of : Run (Option ℕ × Heap) → Option ℕ
found_of (ok (p, h)) = p
found_of exit = none
found_of out_of_fuel = none

found_eq : (r : Run (Option ℕ × Heap)) (p : ℕ) → found_of r ≡ some p → r ≡ ok (some p, heap_of r)
found_eq (ok (q, h)) p e = ap (λ o. ok (o, h)) e
found_eq exit p e = cc
found_eq out_of_fuel p e = cc

abbrev freed_of : Run Heap → Heap
freed_of (ok h) = h
freed_of exit = empty_heap
freed_of out_of_fuel = empty_heap

abbrev returns : Run Heap → Bool
returns (ok h) = true
returns exit = false
returns out_of_fuel = false

returns_eq : (r : Run Heap) → returns r ≡ true → r ≡ ok (freed_of r)
returns_eq (ok h) e = refl
returns_eq exit e = cc
returns_eq out_of_fuel e = cc

abbrev one_heap : Heap
one_heap = heap_of (mm_malloc init_heap 100)

abbrev two_heap : Heap
two_heap = heap_of (mm_malloc one_heap 40)

abbrev left_heap : Heap
left_heap = freed_of (mm_free two_heap 96)

-- Two blocks, of which the first is freed.
left-Session : Session left_heap ((224, 40) ∷ [])
unfolding mm_init mm_malloc mm_free mm_checkheap rounds checkheap_loop is_broken find_fit
    find_first_fit first_fit_loop mem_sbrk mem_heapsize extend_heap extend_with init_with
    malloc_with adjusted place_checked place_extended coalesce place get get_size get_alloc put pack
    get_footer get_header get_previous_block get_next_block is_free is_big_enough max
left-Session =
    frees two_heap ((224, 40) ∷ []) 96 100 []
      (mallocs one_heap 40 224
        (mallocs init_heap 100 96
          (starts empty_heap (record { at_start = refl; limit = refl }) refl) (omega arith)
          (found_eq (mm_malloc init_heap 100) 96 refl))
        (omega arith) (found_eq (mm_malloc one_heap 40) 224 refl))
      (returns_eq (mm_free two_heap 96) refl)

Session-Serves_example : Serves left_heap ((224, 40) ∷ [])
Session-Serves_example = Session-Serves left-Session

left_room : left_heap.heap_listp + 16 + adjusted 4000 ≤ left_heap.sim.mem_brk
unfolding mm_init mm_malloc mm_free mm_checkheap rounds checkheap_loop is_broken find_fit
    find_first_fit first_fit_loop mem_sbrk mem_heapsize extend_heap extend_with init_with
    malloc_with adjusted place_checked place_extended coalesce place get get_size get_alloc put pack
    get_footer get_header get_previous_block get_next_block is_free is_big_enough max
left_room = omega arith

-- The heap of 4096 bytes has room for 4000 bytes again.
free_all-mm_malloc_example :
    (h' : Heap) × (h'' : Heap) × (free_all left_heap ((224, 40) ∷ []) ≡ ok h')
    × (mm_malloc h' 4000 ≡ ok (some (left_heap.heap_listp + 16), h''))
    × (h''.sim ≡ left_heap.sim)
free_all-mm_malloc_example =
    free_all-mm_malloc left_heap ((224, 40) ∷ []) 4000 left-Session (omega arith) (omega arith)
      left_room
