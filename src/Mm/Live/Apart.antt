-- ===== src/Mm/Live/Apart.antt =====
-- The client's blocks do not overlap, lie in the heap, and are aligned.
use orga_del_computador.Base.{
  ℕ, ◌+◌, ◌-◌, ◌%◌, ◌≤◌, ◌≡◌, sym, arith, List, [], ◌∷◌, inl, inr, Bool-cases,
}
use mathlib.Core.Path.{subst}
use orga_del_computador.Mm.Words.{Words}
use orga_del_computador.Mm.Layout.{Block, total, RightOf}
use orga_del_computador.Mm.Heap.{Heap}
use orga_del_computador.Mm.Api.Holds.{Holds}
use orga_del_computador.Mm.Live.{live, live-used, live-free}

-- The blocks follow one another from `lo` on, a whole number of 16-byte units each, and end at `hi`
-- at the latest.
abbrev pub Apart : ℕ → ℕ → List (ℕ × ℕ) → Type 0
Apart lo hi [] = lo ≤ hi
Apart lo hi ((q, s) ∷ xs) =
    (lo ≤ q) × ((q - lo) % 16 ≡ 0) × (s % 16 ≡ 0) × (16 ≤ s) × Apart (q + s) hi xs

pub Apart-below :
    (lo p hi : ℕ) (xs : List (ℕ × ℕ)) → lo ≤ p → (p - lo) % 16 ≡ 0 → Apart p hi xs → Apart lo hi xs
Apart-below lo p hi [] h e a = omega arith
Apart-below lo p hi ((q, s) ∷ xs) h e (a, b, c, d, r) = (omega arith, omega arith, c, d, r)

live-Apart :
    (m : Words) (p : ℕ) (bs : List Block) → RightOf m p bs → Apart p (p + total bs) (live p bs)
unfolding live
live-Apart m p [] right = omega arith
live-Apart m p (b ∷ bs) (at, right) =
    let rest : Apart (p + b.size) (p + (b.size + total bs)) (live (p + b.size) bs) =
      subst (λ e. Apart (p + b.size) e (live (p + b.size) bs)) (omega arith)
        (live-Apart m (p + b.size) bs right) in
    elim (Bool-cases b.used) [
      | inl u ↦
          subst (Apart p (p + (b.size + total bs))) (sym (live-used p b bs u))
            (omega arith, omega arith, at.fits.aligned, at.fits.room, rest)
      | inr u ↦ subst (Apart p (p + (b.size + total bs))) (sym (live-free p b bs u)) (
          Apart-below p (p + b.size) _ (live (p + b.size) bs) (omega arith)
            (omega (arith, at.fits.aligned)) rest)
    ]

-- In a well-formed heap the client's blocks follow one another without overlap between the
-- prologue and the break, each at a multiple of 16 bytes from the first and of a multiple of 16
-- bytes, 16 at least.
pub Holds-Apart :
    (h : Heap) (xs : List (ℕ × ℕ)) → Holds h xs → Apart (h.heap_listp + 16) h.sim.mem_brk xs
Holds-Apart h xs x =
    (subst (Apart h.heap_listp h.sim.mem_brk) x.view (
      subst (λ e. Apart h.heap_listp e (live h.heap_listp x.blocks)) (sym x.heap.top)
        (live-Apart h.words h.heap_listp x.blocks x.heap.list))).4
