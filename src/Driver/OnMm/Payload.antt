-- ===== src/Driver/OnMm/Payload.antt =====
-- Bytes written into the payload of a block that the client holds leave the heap well formed.
use orga_del_computador.Base.{
  ℕ, ◌+◌, ◌≤◌, ◌≡◌, refl, sym, ◌∙◌, arith, ◌⊎◌, inl, inr, List, ◌∷◌, ◌++◌,
}
use mathlib.Core.Path.{subst}
use mathlib.Core.List.{reverse_aux}
use orga_del_computador.Mm.Words.{Words}
use orga_del_computador.Mm.Layout.{Block, total, RightOf}
use orga_del_computador.Mm.Layout.Frame.{LeftOf-frame, RightOf-frame}
use orga_del_computador.Mm.Heap.{Heap}
use orga_del_computador.Mm.Api.Invariant.{IsHeap-words}
use orga_del_computador.Mm.Api.Holds.{Holds}
use orga_del_computador.Mm.Live.{unzip, zip}
use orga_del_computador.Mm.Live.Locate.{locate}
use orga_del_computador.Driver.OnMm.{set_words}

-- `memset` changes no unit that it does not reach.
set_words-same :
    (m : Words) (ptr value size w : ℕ)
    → (w + 4 ≤ ptr) ⊎ (ptr + size ≤ w)
    → set_words m ptr value size w ≡ m w
unfolding set_words
set_words-same m ptr value size w (inl h) = ground arith
set_words-same m ptr value size w (inr h) = ground arith

module _ (m m' : Words) (ptr size : ℕ)
    (same : (w : ℕ) → (w + 4 ≤ ptr) ⊎ (ptr + size ≤ w) → m' w ≡ m w) where
  -- A memory that differs in the payload of a block only has the same list of blocks.
  payload-RightOf :
      (base : ℕ) (left : List Block) (b : Block) (right : List Block)
      → 16 ≤ base
      → ptr ≡ base + total left
      → size + 16 ≤ b.size
      → RightOf m base (reverse_aux left (b ∷ right))
      → RightOf m' base (reverse_aux left (b ∷ right))
  payload-RightOf base left b right low at room list =
      let (l, (here, r)) = unzip m base left (b ∷ right) list in
      zip m' base left (b ∷ right)
        (LeftOf-frame base left low (λ a h. same a (inl (omega arith))) l)
        (
          record {
            header = same _ (inl (omega (arith, here.fits.room))) ∙ here.header;
            footer = same _ (inr (omega arith)) ∙ here.footer;
            fits = here.fits;
          },
          RightOf-frame _ right (omega arith) (λ a h. same a (inr (omega arith))) r,
        )

pub Holds-set_words :
    (h : Heap) (before : List (ℕ × ℕ)) (ptr s : ℕ) (after : List (ℕ × ℕ)) (value size : ℕ)
    → size + 16 ≤ s
    → Holds h (before ++ ((ptr, s) ∷ after))
    → Holds (record h { words = set_words h.words ptr value size }) (before ++ ((ptr, s) ∷ after))
Holds-set_words h before ptr s after value size room x =
    let r = locate h.heap_listp x.blocks ((h.heap_listp, 16) ∷ before) ptr s after x.view in
    let list = subst (RightOf h.words h.heap_listp) r.same_list x.heap.list in
    let list' =
      payload-RightOf h.words (set_words h.words ptr value size) ptr size
        (λ w k. set_words-same h.words ptr value size w k) h.heap_listp r.left r.found r.right
        (omega (arith, x.heap.start)) r.address (omega (arith, r.size)) list in
    record {
      blocks = x.blocks;
      heap =
          IsHeap-words _ x.heap refl x.heap.prologue (
            subst (RightOf (set_words h.words ptr value size) h.heap_listp) (sym r.same_list)
              list');
      separate = x.separate;
      view = x.view;
    }
