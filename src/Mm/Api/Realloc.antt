-- ===== src/Mm/Api/Realloc.antt =====
-- `mm_realloc` on a block in use, by the size asked for.
use orga_del_computador.Base.{
  ℕ, ◌+◌, ◌^◌, ◌≤◌, ◌<◌, ◌≡◌, sym, ◌∙◌, arith, ap, List, ◌∷◌, ◌++◌, some, ne→==, le→leb, lt→leb,
  ◌⊎◌, leb,
}
use mathlib.Core.Path.{subst}
use orga_del_computador.Mm.Run.{ok, ◌>>=◌}
use orga_del_computador.Mm.Words.{is_big_enough}
use orga_del_computador.Mm.Heap.{Heap}
use orga_del_computador.Mm.Heap.Search.{is_big_enough-block}
use orga_del_computador.Mm.Api.{mm_realloc, mm_free, mm_malloc, adjusted}
use orga_del_computador.Mm.Api.Invariant.{IsHeap}
use orga_del_computador.Mm.Api.Holds.{Holds, Returns, mm_free-Returns}
use orga_del_computador.Mm.Api.Found.{Success}
use orga_del_computador.Mm.Api.Answers.{Refused, mm_malloc-Success}
use orga_del_computador.Mm.Live.{unzip}
use orga_del_computador.Mm.Live.Locate.{locate}

module _ (h : Heap) (before : List (ℕ × ℕ)) (ptr s : ℕ) (after : List (ℕ × ℕ))
    (x : Holds h (before ++ ((ptr, s) ∷ after))) where
  -- The block that the client knows stands in the memory with that size.
  held_size : (size : ℕ) → size < 2 ^ 32 → is_big_enough h.words ptr size ≡ leb size s
  held_size size small =
      let r = locate h.heap_listp x.blocks ((h.heap_listp, 16) ∷ before) ptr s after x.view in
      let v = subst (IsHeap h) r.same_list x.heap in
      let at = (unzip h.words h.heap_listp r.left (r.found ∷ r.right) v.list).1.0 in
      rw r.address (is_big_enough-block h.words _ r.found at size small ∙ ap (leb size) r.size)

  module _ (size : ℕ) (positive : 0 < size) (small : size < 2 ^ 32) where
    -- A held block is returned unchanged for every positive request up to its whole size, which
    -- counts its two tags of 8 bytes, so also for requests that exceed its payload.
    pub mm_realloc-same : size ≤ s → mm_realloc h (some ptr) size ≡ ok (some ptr, h)
    unfolding mm_realloc
    mm_realloc-same fits = rw (ne→== size 0 (omega arith), held_size size small, le→leb size s fits)

    -- A larger one is served by freeing the block and then allocating anew.
    pub mm_realloc-larger :
        s < size → mm_realloc h (some ptr) size ≡ (mm_free h ptr >>= λ h'. mm_malloc h' size)
    unfolding mm_realloc
    mm_realloc-larger larger =
        rw (ne→== size 0 (omega arith), held_size size small, lt→leb size s larger)

  -- Growing a held block past its whole size frees it first; then the call either returns a new
  -- block for the request or NULL at the limit of the heap, and in both cases the old block is no
  -- longer held while the payloads of the others stay as they were.
  pub mm_realloc-total :
      (size : ℕ)
      → s < size
      → size + 31 < 2 ^ 32
      → (h' : Heap) × Returns h (before ++ after) (before ++ after) h'
        × (Success h' (before ++ after) (adjusted size) (mm_realloc h (some ptr) size)
            ⊎ Refused h' (adjusted size) (mm_realloc h (some ptr) size))
  mm_realloc-total size larger bounded =
      let (h', done, kept) = mm_free-Returns h before ptr s after x in
      let e : mm_realloc h (some ptr) size ≡ mm_malloc h' size =
        mm_realloc-larger size (omega arith) (omega arith) larger
        ∙ ap (λ r. r >>= λ h'. mm_malloc h' size) done in
      (
        h',
        kept,
        subst (λ r. Success h' (before ++ after) (adjusted size) r ⊎ Refused h' (adjusted size) r)
            (sym e) (mm_malloc-Success h' (before ++ after) size (omega arith) bounded kept.holds),
      )
