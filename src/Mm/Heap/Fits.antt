-- ===== src/Mm/Heap/Fits.antt =====
-- The four searches for a free block.
use orga_del_computador.Base.{
  ℕ, zero, suc, ◌+◌, ◌^◌, ◌≤◌, ◌<◌, ◌≡◌, refl, ◌∙◌, arith, Bool, true, false, not, ◌&&◌, ◌||◌,
  is_some, ap, List, [], ◌∷◌, length, Option, none, some, inl, inr, Bool-cases, if◌then◌else◌, leb,
  le→ltb, ◌==◌, ==_iff,
}
use mathlib.Core.Path.{subst}
use mathlib.Core.List.{reverse_aux}
use mathlib.Core.Option.{some_inj}
use orga_del_computador.Mm.Run.{ok}
use orga_del_computador.Mm.Words.{Words, get_size, get_header, is_free, is_big_enough}
use orga_del_computador.Mm.Words.Laws.{header_size, next-eq}
use orga_del_computador.Mm.Layout.{Block, block, total, RightOf}
use orga_del_computador.Mm.Heap.{
  Heap, first_fit_loop, best_fit_loop, wrap_loop, find_best_fit, find_next_fit, rounds,
}
use orga_del_computador.Mm.Heap.Search.{
  Fit, first_fit, more-block, more-end, is_free-block, is_big_enough-block,
}

-- The address of a block that a search found.
abbrev pub address_of : ℕ → Option Fit → Option ℕ
address_of base none = none
address_of base (some f) = some (base + total f.left)

-- With enough rounds the loop of `find_first_fit` returns the address of the first free block in
-- the list that has the asked bytes, and NULL if there is none.
pub first_fit_loop-first_fit :
    (m : Words) (asize base : ℕ)
    → asize < 2 ^ 32
    → (k p : ℕ) (ls rs : List Block) → p ≡ base + total ls
    → RightOf m p rs
    → length rs < k
    → first_fit_loop m asize k p ≡ ok (address_of base (first_fit asize ls rs))
unfolding first_fit_loop first_fit
first_fit_loop-first_fit m asize base small zero p ls rs e right fuel = absurd (omega arith)
first_fit_loop-first_fit m asize base small (suc k) p ls [] e right fuel = rw (more-end m p right)
first_fit_loop-first_fit m asize base small (suc k) p ls (b ∷ rs) e (at, right) fuel =
    rw
      (
        more-block m p b at,
        is_free-block m p b at,
        is_big_enough-block m p b at asize small,
        next-eq m p b at,
      )
      (elim (Bool-cases (not b.used && leb asize b.size)) [
        | inl fits ↦ rw (fits, e)
        | inr no_fit ↦ rw no_fit (
            first_fit_loop-first_fit m asize base small k (p + b.size) (b ∷ ls) rs (omega arith)
              right (omega arith))
      ])

-- What a search returns is a free block of the list that is large enough.
pub record IsFit (asize : ℕ) (ls rs : List Block) (f : Fit) : Type 0 where
  pub free : f.found.used ≡ false
  pub enough : asize ≤ f.found.size
  pub same_list : reverse_aux f.left (f.found ∷ f.right) ≡ reverse_aux ls rs

-- Some free block of the list has `asize` bytes or more.
unfoldable pub any_fits : ℕ → List Block → Bool
any_fits asize [] = false
any_fits asize (b ∷ bs) = not b.used && leb asize b.size || any_fits asize bs

pub first_fit-any_fits :
    (asize : ℕ) (ls rs : List Block) → is_some (first_fit asize ls rs) ≡ any_fits asize rs
unfolding first_fit any_fits
first_fit-any_fits asize ls [] = refl
first_fit-any_fits asize ls (b ∷ rs) = elim (Bool-cases (not b.used && leb asize b.size)) [
  | inl fits ↦ rw fits refl
  | inr no_fit ↦ rw no_fit (first_fit-any_fits asize (b ∷ ls) rs)
]

pub first_fit-IsFit :
    (asize : ℕ) (ls rs : List Block) {f : Fit}
    → first_fit asize ls rs ≡ some f
    → IsFit asize ls rs f
unfolding first_fit
first_fit-IsFit asize ls [] e = cc
first_fit-IsFit asize ls (b ∷ rs) {f} e = elim (Bool-cases (not b.used && leb asize b.size)) [
  | inl fits ↦
      subst (IsFit asize ls (b ∷ rs)) (some_inj.0 (rw fits at e))
        (record { free = ground arith; enough = ground arith; same_list = refl })
  | inr no_fit ↦
      let r = first_fit-IsFit asize (b ∷ ls) rs (rw no_fit at e) in
      record { free = r.free; enough = r.enough; same_list = r.same_list }
]

-- Every block of the list has 16 bytes or more, so `get_size(min_bp) > get_size(bp)` is never true
-- when `min_bp` is the prologue.
best_fit_loop-prologue :
    (m : Words) (asize min_bp : ℕ)
    → get_size m (get_header min_bp) ≡ 16
    → (k p : ℕ) (rs : List Block) → RightOf m p rs
    → length rs < k
    → best_fit_loop m asize k p min_bp ≡ ok min_bp
unfolding best_fit_loop
best_fit_loop-prologue m asize min_bp e zero p rs right fuel = absurd (omega arith)
best_fit_loop-prologue m asize min_bp e (suc k) p [] right fuel = rw (more-end m p right)
best_fit_loop-prologue m asize min_bp e (suc k) p (b ∷ rs) (at, right) fuel =
    rw
      (
        more-block m p b at,
        header_size m p b at,
        next-eq m p b at,
        e,
        le→ltb b.size 16 at.fits.room,
      )
      (ap (λ c. best_fit_loop m asize k (p + b.size) (if c then p else min_bp))
          (never (is_free m p) (is_big_enough m p asize))
        ∙ best_fit_loop-prologue m asize min_bp e k (p + b.size) rs right (omega arith))
  where
    never : (c d : Bool) → (c && d && false) ≡ false
    never c d = ground arith

wrap_loop-miss :
    (m : Words) (asize last_place k bp : ℕ)
    → 0 < k
    → (bp == last_place) ≡ false
    → wrap_loop m asize last_place k bp ≡ ok none
unfolding wrap_loop
wrap_loop-miss m asize last_place zero bp fuel e = absurd (omega arith)
wrap_loop-miss m asize last_place (suc k) bp fuel e = rw e

module _ (h : Heap) (asize : ℕ) where
  -- `find_best_fit` returns NULL on every list that starts with the prologue, whatever free blocks
  -- follow, since its search starts from the prologue and no block is smaller.
  pub find_best_fit-none :
      (rs : List Block)
      → RightOf h.words h.heap_listp (block 16 true ∷ rs)
      → length rs + 1 < rounds h
      → find_best_fit h asize ≡ ok none
  unfolding find_best_fit
  find_best_fit-none rs (at, right) fuel = rw (
    best_fit_loop-prologue h.words asize h.heap_listp (header_size h.words h.heap_listp _ at)
        (rounds h) h.heap_listp (block 16 true ∷ rs) (at, right) (omega arith),
    is_free-block h.words h.heap_listp _ at,
    (==_iff h.heap_listp h.heap_listp).1 refl,
  )

  -- `find_next_fit` returns what the search from `last_place` to the end of the list returns, and
  -- never finds a block before `last_place`.
  pub find_next_fit-from_last_place :
      (found : Option ℕ)
      → first_fit_loop h.words asize (rounds h) h.last_place ≡ ok found
      → find_next_fit h asize
        ≡ ok (found, elim found [ none ↦ h | some bp ↦ record h { last_place = bp } ])
  unfolding find_next_fit rounds
  find_next_fit-from_last_place none e = rw e (elim (Bool-cases (h.last_place == h.heap_listp)) [
    | inl same ↦ rw same
    | inr other ↦ rw (
      other,
      wrap_loop-miss h.words asize h.last_place (rounds h) h.heap_listp (omega arith)
          (ground arith),
    )
  ])
  find_next_fit-from_last_place (some bp) e = rw e
