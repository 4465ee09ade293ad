-- ===== src/Mm/Api/Malloc.antt =====
-- `mm_malloc` behind `find_fit`: a placement in a free block of the list, or in a longer heap.
use orga_del_computador.Base.{
  ℕ, ◌+◌, ◌*◌, ◌%◌, ◌^◌, ◌≤◌, ◌<◌, ◌≡◌, refl, sym, ◌∙◌, arith, List, [], ◌∷◌, Option, none, some,
  true,
}
use mathlib.Core.Path.{subst}
use mathlib.Core.Option.{some_inj}
use mathlib.Core.List.{reverse_aux, append-nil}
use orga_del_computador.MemLib.{Sim}
use orga_del_computador.Mm.Run.{Run, ok}
use orga_del_computador.Mm.Layout.{Block, total, free_rest}
use orga_del_computador.Mm.Heap.{Heap, find_fit, find_first_fit, rounds}
use orga_del_computador.Mm.Heap.Search.{Fit, first_fit}
use orga_del_computador.Mm.Heap.Fits.{address_of, first_fit_loop-first_fit, first_fit-IsFit}
use orga_del_computador.Mm.Api.{malloc_with, place_checked, place_extended, extend_heap}
use orga_del_computador.Mm.Api.Invariant.{
  IsHeap, length-lt-rounds, joined, total-joined, total-reverse_aux,
}
use orga_del_computador.Mm.Api.Extend.{extend_heap-Grown}
use orga_del_computador.Mm.Api.Sizes.{growth, growth-IsWords, le-growth}
use orga_del_computador.Mm.Api.Found.{SuccessAt, place_found}
use orga_del_computador.Mm.Api.Separated.{
  separated, separated-parts, separated-joined, separated_nil,
}
use orga_del_computador.Mm.Api.Holds.{Holds}
use orga_del_computador.Mm.Api.Joined.{live-joined, Kept-trans}
use orga_del_computador.Mm.Live.{live, live_left, live-reverse_aux}
use orga_del_computador.Mm.Live.Kept.{Kept}

module _ (h : Heap) (xs : List (ℕ × ℕ)) (asize : ℕ) (units : asize % 16 ≡ 0) (least : 16 ≤ asize)
    (bounded : asize < 2 ^ 32) where
  pub find_fit-eq :
      (bs : List Block)
      → IsHeap h bs
      → find_fit h asize ≡ ok (address_of h.heap_listp (first_fit asize [] bs))
  unfolding find_fit find_first_fit
  find_fit-eq bs v =
      first_fit_loop-first_fit h.words asize h.heap_listp bounded (rounds h) h.heap_listp [] bs
        (omega arith) v.list (omega (arith, length-lt-rounds v))

  pub malloc_found :
      (x : Holds h xs) (f : Fit)
      → first_fit asize [] x.blocks ≡ some f
      → SuccessAt h xs asize h.sim (malloc_with h asize (some (h.heap_listp + total f.left)))
  unfolding malloc_with
  malloc_found x f e =
      let r = first_fit-IsFit asize [] x.blocks e in
      place_found h xs asize units least f.left f.found f.right
        (subst (IsHeap h) (sym r.same_list) x.heap)
        (subst (λ bs. live h.heap_listp bs ≡ (h.heap_listp, 16) ∷ xs) (sym r.same_list) x.view)
        (subst (λ bs. separated bs ≡ true) (sym r.same_list) x.separate) r.free r.enough

  -- The address that the success is about.
  Success-place_extended :
      (r : Option ℕ × Heap) (q : ℕ) (sim : Sim)
      → r.0 ≡ some q
      → SuccessAt h xs asize sim (place_checked r.1 q asize)
      → SuccessAt h xs asize sim (place_extended asize r)
  unfolding place_extended
  Success-place_extended (none, h1) q sim e s = cc
  Success-place_extended (some p, h1) q sim e s =
      subst (λ a. SuccessAt h xs asize sim (place_checked h1 a asize)) (sym (some_inj.0 e)) s

  -- A success from a heap that was extended is one from the heap before.
  Success-trans :
      (h1 : Heap) (r : Run (Option ℕ × Heap)) (sim : Sim)
      → h1.heap_listp ≡ h.heap_listp
      → Kept h.words h1.words xs
      → SuccessAt h1 xs asize sim r
      → SuccessAt h xs asize sim r
  Success-trans h1 r sim e kept (p, h2, done, same, a) = (
    p,
    h2,
    done,
    same,
    record {
      before = a.before;
      after = a.after;
      size = a.size;
      split = a.split;
      enough = a.enough;
      tight = a.tight;
      returns = record {
        holds = a.returns.holds;
        kept_words = Kept-trans h.words h1.words h2.words xs kept a.returns.kept_words;
        list_start = a.returns.list_start ∙ e;
      };
    },
  )

  pub malloc_grown :
      (behind : List Block)
      → IsHeap h (reverse_aux behind [])
      → live h.heap_listp (reverse_aux behind []) ≡ (h.heap_listp, 16) ∷ xs
      → separated (reverse_aux behind []) ≡ true
      → h.sim.mem_brk + growth asize * 8 ≤ h.sim.mem_max_addr
      → (sim : Sim) × (sim.mem_brk ≡ h.sim.mem_brk + growth asize * 8)
        × SuccessAt h xs asize sim (malloc_with h asize none)
  unfolding malloc_with live
  malloc_grown [] v view sep room = absurd v.prologue
  malloc_grown (l ∷ ls) v view sep room =
      let n = growth asize in
      let g = extend_heap-Grown h l ls n v (growth-IsWords asize units bounded) room in
      let h1 = (extend_heap h n).1 in
      let seen : live_left h.heap_listp (l ∷ ls) ≡ (h.heap_listp, 16) ∷ xs =
        sym (append-nil (live_left h.heap_listp (l ∷ ls)))
        ∙ sym (live-reverse_aux h.heap_listp (l ∷ ls) [])
        ∙ view in
      let seen1 : live h.heap_listp (joined (l ∷ ls) (n * 8) []) ≡ (h.heap_listp, 16) ∷ xs =
        live-joined h.heap_listp (l ∷ ls) (n * 8) []
        ∙ append-nil (live_left h.heap_listp (l ∷ ls))
        ∙ seen in
      let brk : h1.sim.mem_brk ≡ h.sim.mem_brk + n * 8 = omega (
        arith,
        g.heap.top,
        g.list_start,
        v.top,
        total-joined (l ∷ ls) (n * 8) [],
        total-reverse_aux (l ∷ ls) [],
      ) in
      (
        h1.sim,
        brk,
        Success-place_extended (extend_heap h n) _ h1.sim g.address (
            Success-trans h1 _ h1.sim g.list_start (subst (Kept h.words h1.words) seen g.kept).1 (
              subst
                (λ a.
                  SuccessAt h1 xs asize h1.sim
                    (place_checked h1 (a + total (free_rest (l ∷ ls))) asize))
                g.list_start
                (place_found h1 xs asize units least (free_rest (l ∷ ls)) _ [] g.heap
                  (subst (λ a. live a (joined (l ∷ ls) (n * 8) []) ≡ (a, 16) ∷ xs)
                    (sym g.list_start) seen1)
                  (separated-joined (l ∷ ls) (n * 8) [] (separated-parts (l ∷ ls) [] sep).0
                    separated_nil)
                  refl (omega (arith, le-growth asize units bounded))))),
      )
