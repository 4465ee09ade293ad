-- ===== src/Mm/Api/Holds.antt =====
-- The contract of the allocator: what a client holds, and what `mm_free` does to it.
use orga_del_computador.Base.{
  ℕ, ◌+◌, ◌≡◌, refl, sym, ◌∙◌, arith, ap, ap₂, List, [], ◌∷◌, ◌++◌, true,
}
use mathlib.Core.Path.{subst}
use mathlib.Core.List.{reverse_aux}
use orga_del_computador.Mm.Run.{ok}
use orga_del_computador.Mm.Layout.{Block, total}
use orga_del_computador.Mm.Heap.{Heap}
use orga_del_computador.Mm.Api.{mm_free}
use orga_del_computador.Mm.Api.Invariant.{IsHeap}
use orga_del_computador.Mm.Api.Separated.{
  separated, separated-parts, separated-behind, separated-joined,
}
use orga_del_computador.Mm.Api.Free.{after_free, after_free-IsHeap, mm_free-eq, after_free-Kept}
use orga_del_computador.Mm.Api.Joined.{live-joined}
use orga_del_computador.Mm.Live.{live, live_left}
use orga_del_computador.Mm.Live.Kept.{Kept}
use orga_del_computador.Mm.Live.Locate.{locate}

-- The heap is well formed, no two free blocks lie side by side, and the client's blocks, each with its address and size, are `xs` in the
-- order of their addresses. The prologue is no block of the client.
pub record Holds (h : Heap) (xs : List (ℕ × ℕ)) : Type 0 where
  pub blocks : List Block
  pub heap : IsHeap h blocks
  pub separate : separated blocks ≡ true
  pub view : live h.heap_listp blocks ≡ (h.heap_listp, 16) ∷ xs

-- A call returns normally, with the client's blocks `xs`; the payloads of `kept` are as in `h`.
pub record Returns (h : Heap) (kept xs : List (ℕ × ℕ)) (h' : Heap) : Type 0 where
  pub holds : Holds h' xs
  pub kept_words : Kept h.words h'.words kept
  pub list_start : h'.heap_listp ≡ h.heap_listp

module _ (h : Heap) (before : List (ℕ × ℕ)) (ptr s : ℕ) (after : List (ℕ × ℕ)) where
  abbrev Outcome : Type 0
  Outcome = (h' : Heap) × (mm_free h ptr ≡ ok h') × Returns h (before ++ after) (before ++ after) h'

  free_at :
      (left : List Block) (b : Block) (right : List Block)
      → IsHeap h (reverse_aux left (b ∷ right))
      → separated (reverse_aux left (b ∷ right)) ≡ true
      → ptr ≡ h.heap_listp + total left
      → b.size ≡ s
      → live_left h.heap_listp left ≡ (h.heap_listp, 16) ∷ before
      → live (ptr + s) right ≡ after
      → Outcome
  unfolding live_left
  free_at [] b right v sep e f g k = cc
  free_at (l ∷ ls) b right v sep e f g k = (
    after_free h l ls b right v,
    subst (λ p. mm_free h p ≡ ok (after_free h l ls b right v)) (sym e)
        (mm_free-eq h l ls b right v),
    record {
      holds = record {
        blocks = _;
        heap = after_free-IsHeap h l ls b right v;
        separate =
            let (left, here, gap) = separated-parts (l ∷ ls) (b ∷ right) sep in
            separated-joined (l ∷ ls) b.size right left (separated-behind b right here);
        view = live-joined h.heap_listp (l ∷ ls) b.size right ∙ others-eq;
      };
      kept_words =
          (subst (Kept h.words (after_free h l ls b right v).words) others-eq
            (after_free-Kept h l ls b right v)).1;
      list_start = refl;
    },
  )
    where
      right-eq : live (h.heap_listp + total (l ∷ ls) + b.size) right ≡ after
      right-eq = ap (λ p. live p right) {y = ptr + s} (omega arith) ∙ k

      others-eq :
          live_left h.heap_listp (l ∷ ls) ++ live (h.heap_listp + total (l ∷ ls) + b.size) right
          ≡ (h.heap_listp, 16) ∷ (before ++ after)
      others-eq = ap₂ ◌++◌ g right-eq

  -- Freeing a block that the client holds returns normally, takes exactly that block from the
  -- client's, keeps the heap well formed, with no two free blocks side by side, and leaves the
  -- payloads of the other blocks as they were.
  pub mm_free-Returns :
      Holds h (before ++ ((ptr, s) ∷ after))
      → (h' : Heap) × (mm_free h ptr ≡ ok h') × Returns h (before ++ after) (before ++ after) h'
  mm_free-Returns x =
      let r = locate h.heap_listp x.blocks ((h.heap_listp, 16) ∷ before) ptr s after x.view in
      free_at r.left r.found r.right (subst (IsHeap h) r.same_list x.heap)
        (subst (λ bs. separated bs ≡ true) r.same_list x.separate) r.address r.size r.live_before
        r.live_after
