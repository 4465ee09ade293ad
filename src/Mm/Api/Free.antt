-- ===== src/Mm/Api/Free.antt =====
-- `mm_free` on a block in use.
use orga_del_computador.Base.{ℕ, ◌+◌, ◌≤◌, ◌≡◌, refl, sym, arith, false, List, ◌∷◌, ◌++◌}
use mathlib.Core.Path.{subst}
use mathlib.Core.List.{reverse_aux}
use orga_del_computador.Mm.Words.{Words}
use orga_del_computador.Mm.Words.Laws.{header_size}
use orga_del_computador.Mm.Run.{ok}
use orga_del_computador.Mm.Layout.{Block, block, total, Fits, BlockAt, LeftOf, RightOf}
use orga_del_computador.Mm.Layout.Frame.{SameOutside, LeftOf-frame, RightOf-frame}
use orga_del_computador.Mm.Block.{coalesce}
use orga_del_computador.Mm.Block.Tags.{tagged, tagged-BlockAt, tagged_same}
use orga_del_computador.Mm.Block.Join.{Joined, coalesce-Joined}
use orga_del_computador.Mm.Heap.{Heap}
use orga_del_computador.Mm.Api.{mm_free}
use orga_del_computador.Mm.Api.Invariant.{
  IsHeap, IsHeap-words, HasPrologue-joined, total-joined, total-reverse_aux, joined, Joined-RightOf,
  mm_checkheap-ok, total-lt,
}
use orga_del_computador.Mm.Live.{unzip, live, live_left}
use orga_del_computador.Mm.Live.Kept.{Kept, Kept-append, Kept-live_left, Kept-live}
use orga_del_computador.Mm.Api.Joined.{Kept-Joined, Kept-trans}

-- The memory that `mm_free` leaves for a block of `s` bytes.
abbrev pub freed : Words → ℕ → ℕ → ℕ × Words
freed m ptr s = coalesce (tagged m ptr s false) ptr

module _ (h : Heap) (l : Block) (ls : List Block) (b : Block) (rs : List Block)
    (v : IsHeap h (reverse_aux (l ∷ ls) (b ∷ rs))) where
  low : 16 ≤ h.heap_listp
  low = omega (arith, v.start)

  parts :
      LeftOf h.words h.heap_listp (l ∷ ls)
      × RightOf h.words (h.heap_listp + (l.size + total ls)) (b ∷ rs)
  parts = unzip h.words h.heap_listp (l ∷ ls) (b ∷ rs) v.list

  fits : Fits (block b.size false)
  fits = record {
    aligned = parts.1.0.fits.aligned;
    room = parts.1.0.fits.room;
    bounded = parts.1.0.fits.bounded;
  }

  freed-Joined :
      Joined
        (tagged h.words (h.heap_listp + (l.size + total ls)) b.size false)
        h.heap_listp
        (l ∷ ls)
        b.size
        rs
        (freed h.words (h.heap_listp + (l.size + total ls)) b.size)
  freed-Joined =
      let p : ℕ = h.heap_listp + (l.size + total ls) in
      let m : Words = tagged h.words p b.size false in
      let at : BlockAt m p (block b.size false) =
        tagged-BlockAt h.words p (block b.size false) (omega arith) fits in
      let same : SameOutside p (p + b.size) h.words m =
        tagged_same h.words p (block b.size false) (omega arith) fits in
      let e : h.heap_listp + total ls + l.size ≡ p = omega arith in
      let left : LeftOf m h.heap_listp (l ∷ ls) =
        LeftOf-frame h.heap_listp (l ∷ ls) low same.0 parts.0 in
      let right : RightOf m (p + b.size) rs =
        RightOf-frame (p + b.size) rs (omega arith) same.1 parts.1.1 in
      subst (λ q. Joined m h.heap_listp (l ∷ ls) b.size rs (coalesce m q)) e
        (coalesce-Joined m h.heap_listp l ls (block b.size false) low left.0 left.1
          (subst (λ q. BlockAt m q (block b.size false)) (sym e) at) rs refl
          (subst (λ q. RightOf m (q + b.size) rs) (sym e) right)
          (omega (arith, total-lt v, total-reverse_aux (l ∷ ls) (b ∷ rs))))

  abbrev pub ptr : ℕ
  ptr = h.heap_listp + (l.size + total ls)

  abbrev pub after_free : Heap
  after_free = record h { words = (freed h.words ptr b.size).1 }

  pub after_free-IsHeap : IsHeap after_free (joined (l ∷ ls) b.size rs)
  after_free-IsHeap =
      IsHeap-words _ v
        (omega (arith, total-joined (l ∷ ls) b.size rs, total-reverse_aux (l ∷ ls) (b ∷ rs)))
        (HasPrologue-joined l ls (b ∷ rs) b.size rs v.prologue) (Joined-RightOf freed-Joined)

  pub mm_free-eq : mm_free h ptr ≡ ok after_free
  unfolding mm_free
  mm_free-eq = rw (header_size h.words ptr b parts.1.0, mm_checkheap-ok after_free-IsHeap)

  abbrev pub others : List (ℕ × ℕ)
  others = live_left h.heap_listp (l ∷ ls) ++ live (ptr + b.size) rs

  pub after_free-Kept : Kept h.words after_free.words others
  after_free-Kept =
      Kept-trans h.words (tagged h.words ptr b.size false) after_free.words others
        (Kept-append h.words _ (live_left h.heap_listp (l ∷ ls)) (live (ptr + b.size) rs)
          (Kept-live_left h.words _ h.heap_listp (l ∷ ls) same.0)
          (Kept-live h.words _ (ptr + b.size) rs same.1))
        (Kept-Joined h.heap_listp (l ∷ ls) b.size rs freed-Joined)
    where
      same : SameOutside ptr (ptr + b.size) h.words (tagged h.words ptr b.size false)
      same = tagged_same h.words ptr (block b.size false) (omega (arith, low)) fits
