-- ===== src/Mm/Api/Invariant.antt =====
-- The invariant of the heap between calls, and what `place`, `coalesce` and the checks do to it.
use orga_del_computador.Base.{
  ℕ, ◌+◌, ◌%◌, ◌^◌, ◌≤◌, ◌<◌, ◌≡◌, refl, sym, arith, Bool, true, false, List, [], ◌∷◌, length, inl,
  inr, Bool-cases, if◌then◌else◌,
}
use mathlib.Core.Path.{subst}
use mathlib.Core.List.{reverse_aux}
use orga_del_computador.MemLib.{max_heap, mem_heapsize}
use orga_del_computador.Mm.Words.{Words}
use orga_del_computador.Mm.Run.{ok}
use orga_del_computador.Mm.Layout.{Block, block, total, RightOf, free_size, free_rest}
use orga_del_computador.Mm.Layout.Frame.{LeftOf-frame}
use orga_del_computador.Mm.Block.{place}
use orga_del_computador.Mm.Block.Place.{placed, place-RightOf}
use orga_del_computador.Mm.Block.Join.{Joined}
use orga_del_computador.Mm.Heap.{Heap, rounds, mm_checkheap}
use orga_del_computador.Mm.Heap.Search.{checkheap_loop-ok}
use orga_del_computador.Mm.Live.{zip, unzip, length-le-total}

-- The list of blocks begins with the prologue, a used block of 16 bytes.
abbrev pub HasPrologue : List Block → Type 0
HasPrologue [] = ⊥
HasPrologue (b ∷ bs) = (b.size ≡ 16) × (b.used ≡ true)

-- Behind the first block to the left of a place the rest does not matter.
pub HasPrologue-reverse_aux :
    (l : Block) (ls xs ys : List Block)
    → HasPrologue (reverse_aux (l ∷ ls) xs)
    → HasPrologue (reverse_aux (l ∷ ls) ys)
HasPrologue-reverse_aux l [] xs ys h = h
HasPrologue-reverse_aux l (k ∷ ls) xs ys h = HasPrologue-reverse_aux k ls (l ∷ xs) (l ∷ ys) h

-- The memory from `heap_listp` up to the break holds the blocks `bs` with their tags, the prologue
-- first and the epilogue last.
pub record IsHeap (h : Heap) (bs : List Block) : Type 0 where
  pub start : h.heap_listp ≡ h.sim.mem_start_brk + 16
  pub top : h.sim.mem_brk ≡ h.heap_listp + total bs
  pub limit : h.sim.mem_max_addr ≡ h.sim.mem_start_brk + max_heap
  pub within : h.sim.mem_brk ≤ h.sim.mem_max_addr
  pub prologue : HasPrologue bs
  pub list : RightOf h.words h.heap_listp bs

module _ {h : Heap} {bs : List Block} (v : IsHeap h bs) where
  pub length-lt-rounds : length bs + 1 < rounds h
  unfolding rounds mem_heapsize
  length-lt-rounds = omega (arith, length-le-total h.words h.heap_listp bs v.list, v.start, v.top)

  pub total-lt : total bs < 2 ^ 31
  total-lt = omega (arith, v.start, v.top, v.limit, v.within)

  -- The check at the end of each call finds nothing wrong.
  pub mm_checkheap-ok : mm_checkheap h ≡ ok tt
  unfolding mm_checkheap
  mm_checkheap-ok = rw (
      checkheap_loop-ok (rounds h) h.words h.heap_listp bs false v.list
        (omega (arith, length-lt-rounds)))

-- A call that changes the memory only keeps what is said of the break.
pub IsHeap-words :
    {h : Heap} {bs cs : List Block} (m : Words)
    → IsHeap h bs
    → total cs ≡ total bs
    → HasPrologue cs
    → RightOf m h.heap_listp cs
    → IsHeap (record h { words = m }) cs
IsHeap-words m v e p right = record {
  start = v.start;
  top = omega (arith, v.top);
  limit = v.limit;
  within = v.within;
  prologue = p;
  list = right;
}

pub total-reverse_aux : (ls rs : List Block) → total (reverse_aux ls rs) ≡ total ls + total rs
total-reverse_aux [] rs = omega arith
total-reverse_aux (b ∷ ls) rs = omega (arith, total-reverse_aux ls (b ∷ rs))

total-placed :
    (asize : ℕ) (b : Block) (rs : List Block)
    → asize ≤ b.size
    → total (placed asize b rs) ≡ b.size + total rs
total-placed asize b rs h = ground arith

-- A free block of the list is not the prologue, so there is a block to its left.
pub left_of_free :
    {P : Type 0} (ls : List Block) (b : Block) (rs : List Block)
    → HasPrologue (reverse_aux ls (b ∷ rs))
    → b.used ≡ false
    → ((l : Block) (ls' : List Block) → ls ≡ l ∷ ls' → P)
    → P
left_of_free [] b rs h free k = cc
left_of_free (l ∷ ls') b rs h free k = k l ls' refl

-- `place` at a free block that is large enough.
pub place-IsHeap :
    {h : Heap} (ls : List Block) (b : Block) (rs : List Block) (asize : ℕ)
    → IsHeap h (reverse_aux ls (b ∷ rs))
    → b.used ≡ false
    → asize % 16 ≡ 0
    → 16 ≤ asize
    → asize ≤ b.size
    → IsHeap
        (record h { words = place h.words (h.heap_listp + total ls) asize })
        (reverse_aux ls (placed asize b rs))
place-IsHeap {h} [] b rs asize v free units room enough =
    let used : b.used ≡ true = v.prologue.1 in cc
place-IsHeap {h} (l ∷ ls) b rs asize v free units room enough =
    let (left, (at, right)) = unzip h.words h.heap_listp (l ∷ ls) (b ∷ rs) v.list in
    let low : 16 ≤ h.heap_listp = omega (arith, v.start) in
    let (there, same) =
      place-RightOf h.words (h.heap_listp + total (l ∷ ls)) asize b rs (omega arith) units room
        enough at right in
    IsHeap-words _ v
      (omega (
        arith,
        total-reverse_aux (l ∷ ls) (placed asize b rs),
        total-reverse_aux (l ∷ ls) (b ∷ rs),
        total-placed asize b rs enough,
      ))
      (HasPrologue-reverse_aux l ls (b ∷ rs) (placed asize b rs) v.prologue)
      (zip _ h.heap_listp (l ∷ ls) (placed asize b rs)
        (LeftOf-frame h.heap_listp (l ∷ ls) low same.0 left) there)

-- The list when the block of `s` bytes between `ls` and `rs` is free, joined with its free
-- neighbours.
abbrev pub joined : List Block → ℕ → List Block → List Block
joined ls s rs =
    reverse_aux (free_rest ls) (block (free_size ls + s + free_size rs) false ∷ free_rest rs)

pub total-free_rest : (bs : List Block) → free_size bs + total (free_rest bs) ≡ total bs
total-free_rest [] = refl
total-free_rest (b ∷ bs) = ground arith

pub total-joined :
    (ls : List Block) (s : ℕ) (rs : List Block) → total (joined ls s rs) ≡ total ls + s + total rs
total-joined ls s rs = omega (
  arith,
  total-reverse_aux (free_rest ls) (block (free_size ls + s + free_size rs) false ∷ free_rest rs),
  total-free_rest ls,
  total-free_rest rs,
)

pub HasPrologue-joined :
    (l : Block) (ls xs : List Block) (s : ℕ) (rs : List Block)
    → HasPrologue (reverse_aux (l ∷ ls) xs)
    → HasPrologue (joined (l ∷ ls) s rs)
HasPrologue-joined l ls xs s rs h = elim (Bool-cases l.used) [
  | inl u ↦
      subst
        (λ (b : Bool). HasPrologue (reverse_aux (if b then l ∷ ls else ls) (new ∷ free_rest rs)))
        (sym u) (HasPrologue-reverse_aux l ls xs (new ∷ free_rest rs) h)
  | inr u ↦
      subst
        (λ (b : Bool). HasPrologue (reverse_aux (if b then l ∷ ls else ls) (new ∷ free_rest rs)))
        (sym u) (behind ls h u)
]
  where
    new : Block
    new = block (free_size (l ∷ ls) + s + free_size rs) false

    behind :
        (ks : List Block)
        → HasPrologue (reverse_aux (l ∷ ks) xs)
        → l.used ≡ false
        → HasPrologue (reverse_aux ks (new ∷ free_rest rs))
    behind [] g u = let used : l.used ≡ true = g.1 in cc
    behind (k ∷ ks) g u = HasPrologue-reverse_aux k ks (l ∷ xs) (new ∷ free_rest rs) g

-- What `coalesce` leaves in memory is the joined list.
pub Joined-RightOf :
    {m : Words} {base : ℕ} {ls : List Block} {s : ℕ} {rs : List Block} {r : ℕ × Words}
    → Joined m base ls s rs r
    → RightOf r.1 base (joined ls s rs)
Joined-RightOf {base} {ls} {s} {rs} {r} j =
    zip r.1 base (free_rest ls) (block (free_size ls + s + free_size rs) false ∷ free_rest rs)
      j.left
      (subst (λ p. RightOf r.1 p (block (free_size ls + s + free_size rs) false ∷ free_rest rs))
        j.address (j.here, j.right))
