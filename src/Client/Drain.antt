-- ===== src/Client/Drain.antt =====
-- Nothing is lost: when the client has freed all, the heap is one free block again.
use orga_del_computador.Base.{
  ℕ, ◌+◌, ◌^◌, ◌≤◌, ◌<◌, ◌≡◌, refl, sym, ◌∙◌, arith, true, false, some, List, [], ◌∷◌, ap,
}
use mathlib.Core.Path.{subst}
use mathlib.Core.List.{tail}
use orga_del_computador.MemLib.{Sim}
use orga_del_computador.Mm.Run.{Run, ok, exit, out_of_fuel, ◌>>=◌, ◌>>◌}
use orga_del_computador.Mm.Layout.{Block, total}
use orga_del_computador.Mm.Heap.{Heap}
use orga_del_computador.Mm.Heap.Search.{first_fit}
use orga_del_computador.Mm.Heap.Fits.{address_of}
use orga_del_computador.Mm.Api.{mm_malloc, mm_free, adjusted, malloc_with}
use orga_del_computador.Mm.Api.Invariant.{IsHeap, HasPrologue}
use orga_del_computador.Mm.Api.Separated.{separated, separated-behind}
use orga_del_computador.Mm.Api.Sizes.{adjusted-IsBlockSize, IsBlockSize}
use orga_del_computador.Mm.Api.Found.{after_place, place_checked-eq}
use orga_del_computador.Mm.Api.Malloc.{find_fit-eq}
use orga_del_computador.Mm.Api.Answers.{mm_malloc-eq}
use orga_del_computador.Mm.Live.{live, live-used}
use orga_del_computador.Client.Session.{Session, Serves, frees-Serves, Session-Serves, ok_inj}

-- The client frees what it holds.
unfoldable pub free_all : Heap → List (ℕ × ℕ) → Run Heap
free_all h [] = ok h
free_all h ((ptr, size) ∷ xs) = mm_free h ptr >>= λ h'. free_all h' xs

-- What follows a check that found nothing wrong.
behind_check : {A : Type 0} (r : Run (Unit {0})) (a b : A) → (r >> ok a) ≡ ok b → a ≡ b
behind_check (ok tt) a b e = ok_inj e
behind_check exit a b e = cc
behind_check out_of_fuel a b e = cc

-- A free changes the memory only, not the simulated break.
mm_free-sim : (h h' : Heap) (ptr : ℕ) → mm_free h ptr ≡ ok h' → h'.sim ≡ h.sim
unfolding mm_free
mm_free-sim h h' ptr e = sym (ap (λ (k : Heap). k.sim) (behind_check _ _ h' e))

free_all-Serves :
    (xs : List (ℕ × ℕ)) (h : Heap)
    → Serves h xs
    → (h' : Heap) × (free_all h xs ≡ ok h') × Serves h' [] × (h'.sim ≡ h.sim)
unfolding free_all
free_all-Serves [] h v = (h, refl, v, refl)
free_all-Serves ((ptr, size) ∷ xs) h v =
    let (h1, e, w, at) = frees-Serves h [] ptr size xs v in
    let (h2, f, u, same) = free_all-Serves xs h1 w in (h2, rw e f, u, same ∙ mm_free-sim h h1 ptr e)

-- Of two blocks side by side one is used.
no_two :
    (p : ℕ) (c d : Block) (bs : List Block)
    → live p (c ∷ d ∷ bs) ≡ []
    → separated (c ∷ d ∷ bs) ≡ true
    → ⊥
unfolding separated live
no_two p c d bs view sep = ground arith

-- Behind the prologue lies one free block, or nothing.
only_free :
    (base asize : ℕ) (bs : List Block)
    → HasPrologue bs
    → separated bs ≡ true
    → live base bs ≡ (base, 16) ∷ []
    → asize + 16 ≤ total bs
    → 0 < asize
    → (b : Block) × (c : Block) × (bs ≡ b ∷ c ∷ []) × (c.used ≡ false) × (asize ≤ c.size)
unfolding separated live
only_free base asize [] p sep view room pos = absurd p
only_free base asize (b ∷ []) (size, used) sep view room pos = absurd (omega arith)
only_free base asize (b ∷ c ∷ []) (size, used) sep view room pos =
    (b, c, refl, ground arith, omega arith)
only_free base asize (b ∷ c ∷ d ∷ bs) (size, used) sep view room pos =
    let none_left = ap tail (sym (live-used base b (c ∷ d ∷ bs) used) ∙ view) in
    absurd (no_two (base + b.size) c d bs none_left (separated-behind b (c ∷ d ∷ bs) sep))

-- A request that the only free block has room for is served there.
module _ (h : Heap) (b c : Block) (size : ℕ) (v : IsHeap h (b ∷ c ∷ [])) (free : c.used ≡ false)
    (positive : 0 < size) (bounded : size + 31 < 2 ^ 32) (enough : adjusted size ≤ c.size) where
  sized : IsBlockSize size (adjusted size)
  sized = adjusted-IsBlockSize size bounded

  first_fit-second :
      first_fit (adjusted size) [] (b ∷ c ∷ [])
      ≡ some (record { left = b ∷ []; found = c; right = [] })
  unfolding first_fit
  first_fit-second = let used : b.used ≡ true = v.prologue.1 in ground arith

  abbrev served : Heap
  served =
      after_place h b [] c [] (adjusted size) v free sized.units (omega (arith, sized.least)) enough

  mm_malloc-second : mm_malloc h size ≡ ok (some (h.heap_listp + 16), served)
  unfolding malloc_with
  mm_malloc-second =
      mm_malloc-eq h [] size positive bounded (some (h.heap_listp + total (b ∷ []))) (
        find_fit-eq h [] (adjusted size) sized.units (omega (arith, sized.least)) sized.bounded
          (b ∷ c ∷ []) v
        ∙ ap (λ o. ok (address_of h.heap_listp o)) first_fit-second)
      ∙ place_checked-eq h b [] c [] (adjusted size) v free sized.units (omega (arith, sized.least))
          enough
      ∙ ap (λ q. ok (some q, served)) (omega (arith, v.prologue.0))

-- After any such calls, once the client frees all that it holds, in the order of its list, a
-- request of one byte or more whose block fits the bytes that the heap has behind the prologue is
-- answered at the first place behind the prologue, and the heap does not grow for it.
pub free_all-mm_malloc :
    (h : Heap) (xs : List (ℕ × ℕ)) (size : ℕ)
    → Session h xs
    → 0 < size
    → size + 31 < 2 ^ 32
    → h.heap_listp + 16 + adjusted size ≤ h.sim.mem_brk
    → (h' : Heap) × (h'' : Heap) × (free_all h xs ≡ ok h')
      × (mm_malloc h' size ≡ ok (some (h.heap_listp + 16), h''))
      × (h''.sim ≡ h.sim)
free_all-mm_malloc h xs size s positive bounded room =
    let (h', e, v, same) = free_all-Serves xs h (Session-Serves s) in
    let x = Session-Serves s in
    let view = v.held.view ∙ ap (λ l. (h'.heap_listp, 16) ∷ l) v.matched in
    let start : h'.heap_listp ≡ h.heap_listp =
      omega (arith, x.held.heap.start, v.held.heap.start, ap (λ (k : Sim). k.mem_start_brk) same) in
    let (b, c, eq, free, enough) =
      only_free h'.heap_listp (adjusted size) v.held.blocks v.held.heap.prologue v.held.separate
        view (omega (arith, start, v.held.heap.top, ap (λ (k : Sim). k.mem_brk) same))
        (omega (arith, (adjusted-IsBlockSize size bounded).least)) in
    let heap = subst (IsHeap h') eq v.held.heap in
    let h'' = served h' b c size heap free positive bounded enough in
    (
      h',
      h'',
      e,
      mm_malloc-second h' b c size heap free positive bounded enough
          ∙ ap (λ q. ok (some (q + 16), h'')) start,
      same,
    )
