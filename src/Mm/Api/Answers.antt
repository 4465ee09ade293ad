-- ===== src/Mm/Api/Answers.antt =====
-- `mm_malloc`: what it answers, by whether a free block has room for the request.
use orga_del_computador.Base.{
  ℕ, ◌+◌, ◌*◌, ◌^◌, ◌≤◌, ◌<◌, ◌≡◌, refl, sym, ◌∙◌, arith, ap, List, [], ◌∷◌, inl, inr, Option, none,
  some, ◌⊎◌, Option-cases, ne→==, true, false, is_some,
}
use mathlib.Core.Path.{subst}
use mathlib.Core.List.{reverse_aux, reverse, reverse-reverse}
use native.Mathlib.Decide.{dec_lt}
use orga_del_computador.MemLib.{Sim}
use orga_del_computador.Mm.Run.{Run, ok}
use orga_del_computador.Mm.Layout.{Block}
use orga_del_computador.Mm.Heap.{Heap, find_fit}
use orga_del_computador.Mm.Heap.Search.{first_fit}
use orga_del_computador.Mm.Heap.Fits.{any_fits, first_fit-any_fits, address_of}
use orga_del_computador.Mm.Api.{mm_malloc, malloc_with, place_extended, adjusted}
use orga_del_computador.Mm.Api.Invariant.{IsHeap}
use orga_del_computador.Mm.Api.Extend.{extend_heap-none}
use orga_del_computador.Mm.Api.Sizes.{
  IsBlockSize, adjusted-IsBlockSize, growth, growth-IsWords, needed, grown, adjusted-needed,
  growth-grown,
}
use orga_del_computador.Mm.Api.Found.{Allocated, Success, SuccessAt}
use orga_del_computador.Mm.Api.Separated.{separated}
use orga_del_computador.Mm.Api.Holds.{Holds}
use orga_del_computador.Mm.Live.{live}
use orga_del_computador.Mm.Api.Malloc.{find_fit-eq, malloc_found, malloc_grown}

-- The call returns a new block for the request, between the client's others, and leaves the break at
-- `brk`. The block has room for the request and two tags, and 32 bytes more than it needs are split
-- off.
abbrev pub Granted : Heap → List (ℕ × ℕ) → ℕ → ℕ → Run (Option ℕ × Heap) → Type 0
Granted h xs size brk r =
    (p : ℕ) × (h' : Heap) × (a : Allocated h xs (needed size) p h') × (r ≡ ok (some p, h'))
    × (size + 16 ≤ a.size)
    × (a.size < needed size + 32)
    × (h'.sim.mem_brk ≡ brk)

-- What `mm_malloc` does, by whether a free block of `bs` has room: the request is served without a
-- move of the break, or the heap grows for it, or would have to grow past its limit.
abbrev pub Answers : Heap → List Block → List (ℕ × ℕ) → ℕ → Run (Option ℕ × Heap) → Type 0
Answers h bs xs size r =
    ((any_fits (needed size) bs ≡ true) × Granted h xs size h.sim.mem_brk r)
    ⊎ ((any_fits (needed size) bs ≡ false)
        × (h.sim.mem_brk + grown size ≤ h.sim.mem_max_addr)
        × Granted h xs size (h.sim.mem_brk + grown size) r)
    ⊎ ((any_fits (needed size) bs ≡ false)
        × (h.sim.mem_max_addr < h.sim.mem_brk + grown size)
        × (r ≡ ok (none, h)))

-- NULL: the block would not fit below the limit of the heap, and nothing is changed.
abbrev pub Refused : Heap → ℕ → Run (Option ℕ × Heap) → Type 0
Refused h asize r = (r ≡ ok (none, h)) × (h.sim.mem_max_addr < h.sim.mem_brk + growth asize * 8)

module _ (h : Heap) (xs : List (ℕ × ℕ)) (size : ℕ) (positive : 0 < size)
    (bounded : size + 31 < 2 ^ 32) where
  pub mm_malloc-eq :
      (found : Option ℕ)
      → find_fit h (adjusted size) ≡ ok found
      → mm_malloc h size ≡ malloc_with h (adjusted size) found
  unfolding mm_malloc
  mm_malloc-eq found e = rw (ne→== size 0 (omega arith), e)

  sized : IsBlockSize size (adjusted size)
  sized = adjusted-IsBlockSize size bounded

  mm_malloc-found :
      (x : Holds h xs)
      → mm_malloc h size
        ≡ malloc_with h
            (adjusted size)
            (address_of h.heap_listp (first_fit (adjusted size) [] x.blocks))
  mm_malloc-found x = mm_malloc-eq _ (
      find_fit-eq h xs (adjusted size) sized.units (omega (arith, sized.least)) sized.bounded
        x.blocks x.heap)

  SuccessAt-Granted :
      (sim : Sim) (brk : ℕ) (r r' : Run (Option ℕ × Heap))
      → r' ≡ r
      → sim.mem_brk ≡ brk
      → SuccessAt h xs (adjusted size) sim r
      → Granted h xs size brk r'
  SuccessAt-Granted sim brk r r' same at (p, h', e, left, a) =
      let need = adjusted-needed size bounded in
      (
        p,
        h',
        record {
          before = a.before;
          after = a.after;
          size = a.size;
          split = a.split;
          enough = omega (arith, need, a.enough);
          tight = omega (arith, need, a.tight);
          returns = a.returns;
        },
        same ∙ e,
        omega (arith, a.enough, sized.room),
        omega (arith, need, a.tight),
        ap (λ (s : Sim). s.mem_brk) left ∙ at,
      )

  fits-eq :
      (x : Holds h xs)
      → is_some (first_fit (adjusted size) [] x.blocks) ≡ any_fits (needed size) x.blocks
  fits-eq x =
      first_fit-any_fits (adjusted size) [] x.blocks
      ∙ ap (λ n. any_fits n x.blocks) (adjusted-needed size bounded)

  -- Without a block that fits the heap grows, or the call returns NULL.
  mm_malloc-none :
      (x : Holds h xs)
      → first_fit (adjusted size) [] x.blocks ≡ none
      → Answers h x.blocks xs size (mm_malloc h size)
  unfolding malloc_with place_extended
  mm_malloc-none x e =
      let unfit : any_fits (needed size) x.blocks ≡ false = sym (fits-eq x) ∙ ap is_some e in
      let eq =
        mm_malloc-found x ∙ ap (λ o. malloc_with h (adjusted size) (address_of h.heap_listp o)) e in
      let gap = growth-grown size bounded in
      let back : reverse_aux (reverse x.blocks) [] ≡ x.blocks = reverse-reverse x.blocks in
      elim (dec_lt h.sim.mem_max_addr (h.sim.mem_brk + growth (adjusted size) * 8)) [
        | yes over ↦
            let refused : malloc_with h (adjusted size) none ≡ ok (none, h) = rw (
              extend_heap-none h (growth (adjusted size))
                (growth-IsWords (adjusted size) sized.units sized.bounded) (inr over)) in
            inr (inr (unfit, omega (arith, gap), eq ∙ refused))
        | no below ↦
            let (sim, brk, done) =
              malloc_grown h xs (adjusted size) sized.units (omega (arith, sized.least))
                sized.bounded (reverse x.blocks) (subst (IsHeap h) (sym back) x.heap)
                (subst (λ bs. live h.heap_listp bs ≡ (h.heap_listp, 16) ∷ xs) (sym back) x.view)
                (subst (λ bs. separated bs ≡ true) (sym back) x.separate) (omega arith) in
            inr (
              inl (
                unfit,
                omega (arith, gap),
                SuccessAt-Granted sim _ _ _ eq (omega (arith, brk, gap)) done,
              ))
      ]

  -- On a well-formed heap a request of 1 to 2^32 - 32 bytes ends in one of three ways. If a free
  -- block has the bytes that are needed, the request and 16 bytes for two tags rounded up to a
  -- multiple of 16 and to 32 at least, a new block is returned and the break does not move. If
  -- none has, the heap grows by these bytes, by 4096 at least, when they fit below its limit, and
  -- a new block is returned; when they do not, NULL is returned and nothing is changed. A new
  -- block has room for the request and 16 bytes, less than 32 bytes more than are needed, and
  -- joins the client's blocks in the order of addresses, while the payloads of all others stay as
  -- they were. The call never exits and its loops end.
  pub mm_malloc-total : (x : Holds h xs) → Answers h x.blocks xs size (mm_malloc h size)
  mm_malloc-total x = elim (Option-cases (first_fit (adjusted size) [] x.blocks)) [
    | inr (f, e) ↦ inl (
      sym (fits-eq x) ∙ ap is_some e,
      SuccessAt-Granted h.sim _ _ _
          (mm_malloc-found x
            ∙ ap (λ o. malloc_with h (adjusted size) (address_of h.heap_listp o)) e)
          refl
          (malloc_found h xs (adjusted size) sized.units (omega (arith, sized.least)) sized.bounded
            x f e),
    )
    | inl e ↦ mm_malloc-none x e
  ]

  Granted-Success :
      (brk : ℕ) (r : Run (Option ℕ × Heap))
      → Granted h xs size brk r
      → Success h xs (adjusted size) r
  Granted-Success brk r (p, h', a, e, room, tight, at) =
      (p, h', e, subst (λ n. Allocated h xs n p h') (sym (adjusted-needed size bounded)) a)

  -- Success or NULL, without the reason for it.
  pub mm_malloc-Success :
      Holds h xs
      → Success h xs (adjusted size) (mm_malloc h size)
        ⊎ Refused h (adjusted size) (mm_malloc h size)
  mm_malloc-Success x = elim (mm_malloc-total x) [
    | inl (fit, g) ↦ inl (Granted-Success _ _ g)
    | inr (inl (unfit, room, g)) ↦ inl (Granted-Success _ _ g)
    | inr (inr (unfit, over, e)) ↦ inr (e, omega (arith, growth-grown size bounded))
  ]
