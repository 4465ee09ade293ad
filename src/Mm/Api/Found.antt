-- ===== src/Mm/Api/Found.antt =====
-- `mm_malloc` at a free block that was found: `place` with the check behind it.
use orga_del_computador.Base.{
  ℕ, ◌+◌, ◌%◌, ◌≤◌, ◌<◌, ◌≡◌, refl, sym, ◌∙◌, arith, true, false, ap, ap₂, List, [], ◌∷◌, ◌++◌,
  Option, some,
}
use mathlib.Core.Path.{subst}
use mathlib.Core.List.{reverse_aux}
use orga_del_computador.MemLib.{Sim}
use orga_del_computador.Mm.Run.{Run, ok}
use orga_del_computador.Mm.Layout.{Block, total}
use orga_del_computador.Mm.Layout.Frame.{SameOutside}
use orga_del_computador.Mm.Block.{place}
use orga_del_computador.Mm.Block.Place.{placed, place-RightOf}
use orga_del_computador.Mm.Heap.{Heap}
use orga_del_computador.Mm.Api.{place_checked}
use orga_del_computador.Mm.Api.Invariant.{IsHeap, place-IsHeap, mm_checkheap-ok}
use orga_del_computador.Mm.Api.Separated.{separated, separated-placed}
use orga_del_computador.Mm.Api.Holds.{Returns}
use orga_del_computador.Mm.Live.{
  live, live_left, live-reverse_aux, live-placed, live-free, placed_size, unzip,
}
use orga_del_computador.Mm.Live.Kept.{Kept, Kept-append, Kept-live_left, Kept-live}
use orga_del_computador.Mm.Live.Locate.{live_left-prologue}

-- The client's blocks `xs` and a new one at `p`, of `asize` bytes or more, in the heap `h'`. The rest
-- of a larger block is split off when it has 32 bytes or more.
pub record Allocated (h : Heap) (xs : List (ℕ × ℕ)) (asize p : ℕ) (h' : Heap) : Type 0 where
  pub before : List (ℕ × ℕ)
  pub after : List (ℕ × ℕ)
  pub size : ℕ
  pub split : xs ≡ before ++ after
  pub enough : asize ≤ size
  pub tight : size < asize + 32
  pub returns : Returns h xs (before ++ ((p, size) ∷ after)) h'

-- `place` and the check behind it, at a free block of the list.
module _ (h : Heap) (l : Block) (ls : List Block) (b : Block) (rs : List Block) (asize : ℕ)
    (v : IsHeap h (reverse_aux (l ∷ ls) (b ∷ rs))) (free : b.used ≡ false) (units : asize % 16 ≡ 0)
    (least : 16 ≤ asize) (enough : asize ≤ b.size) where
  abbrev pub p : ℕ
  p = h.heap_listp + total (l ∷ ls)

  abbrev pub after_place : Heap
  after_place = record h { words = place h.words p asize }

  pub place_checked-eq : place_checked h p asize ≡ ok (some p, after_place)
  unfolding place_checked
  place_checked-eq =
      rw (mm_checkheap-ok (place-IsHeap (l ∷ ls) b rs asize v free units least enough))

  place_same : SameOutside p (p + b.size) h.words after_place.words
  place_same =
      let (left, (at, right)) = unzip h.words h.heap_listp (l ∷ ls) (b ∷ rs) v.list in
      (place-RightOf h.words p asize b rs (omega (arith, v.start)) units least enough at right).1

  place_checked-Allocated :
      (xs : List (ℕ × ℕ))
      → live h.heap_listp (reverse_aux (l ∷ ls) (b ∷ rs)) ≡ (h.heap_listp, 16) ∷ xs
      → separated (reverse_aux (l ∷ ls) (b ∷ rs)) ≡ true
      → Allocated h xs asize p after_place
  place_checked-Allocated xs view sep =
      let (before, e) = live_left-prologue h.heap_listp l ls (b ∷ rs) v.prologue in
      let after = live (p + b.size) rs in
      let same = place_same in
      let all : live_left h.heap_listp (l ∷ ls) ++ after ≡ (h.heap_listp, 16) ∷ xs = sym (
        sym view
        ∙ live-reverse_aux h.heap_listp (l ∷ ls) (b ∷ rs)
        ∙ ap (λ x. live_left h.heap_listp (l ∷ ls) ++ x) (live-free p b rs free)) in
      let split : (h.heap_listp, 16) ∷ xs ≡ (h.heap_listp, 16) ∷ (before ++ after) =
        sym view
        ∙ live-reverse_aux h.heap_listp (l ∷ ls) (b ∷ rs)
        ∙ ap₂ ◌++◌ e (live-free p b rs free) in
      record {
        before = before;
        after = after;
        size = placed_size asize b;
        split = cc split;
        enough = ground arith;
        tight = ground arith;
        returns = record {
          holds = record {
            blocks = _;
            heap = place-IsHeap (l ∷ ls) b rs asize v free units least enough;
            separate = separated-placed (l ∷ ls) asize b rs free sep;
            view =
                live-reverse_aux h.heap_listp (l ∷ ls) (placed asize b rs)
                ∙ ap₂ ◌++◌ e (live-placed p asize b rs enough);
          };
          kept_words =
              (subst (Kept h.words after_place.words) all (
                Kept-append _ _ (live_left h.heap_listp (l ∷ ls)) after
                  (Kept-live_left _ _ h.heap_listp (l ∷ ls) same.0)
                  (Kept-live _ _ (p + b.size) rs same.1))).1;
          list_start = refl;
        };
      }

-- A successful call: it returns the new block's address.
abbrev pub Success : Heap → List (ℕ × ℕ) → ℕ → Run (Option ℕ × Heap) → Type 0
Success h xs asize r = (p : ℕ) × (h' : Heap) × (r ≡ ok (some p, h')) × Allocated h xs asize p h'

-- A successful call that leaves the simulated break as in `sim`.
abbrev pub SuccessAt : Heap → List (ℕ × ℕ) → ℕ → Sim → Run (Option ℕ × Heap) → Type 0
SuccessAt h xs asize sim r =
    (p : ℕ) × (h' : Heap) × (r ≡ ok (some p, h')) × (h'.sim ≡ sim) × Allocated h xs asize p h'

module _ (h : Heap) (xs : List (ℕ × ℕ)) (asize : ℕ) (units : asize % 16 ≡ 0)
    (least : 16 ≤ asize) where
  pub place_found :
      (left : List Block) (b : Block) (right : List Block)
      → IsHeap h (reverse_aux left (b ∷ right))
      → live h.heap_listp (reverse_aux left (b ∷ right)) ≡ (h.heap_listp, 16) ∷ xs
      → separated (reverse_aux left (b ∷ right)) ≡ true
      → b.used ≡ false
      → asize ≤ b.size
      → SuccessAt h xs asize h.sim (place_checked h (h.heap_listp + total left) asize)
  place_found [] b right v view sep free enough = let used : b.used ≡ true = v.prologue.1 in cc
  place_found (l ∷ ls) b right v view sep free enough = (
    h.heap_listp + total (l ∷ ls),
    record h { words = place h.words (h.heap_listp + total (l ∷ ls)) asize },
    place_checked-eq h l ls b right asize v free units least enough,
    refl,
    place_checked-Allocated h l ls b right asize v free units least enough xs view sep,
  )
