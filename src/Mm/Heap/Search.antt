-- ===== src/Mm/Heap/Search.antt =====
-- The loops over the list of blocks, against searches of the list that the memory stands for.
use orga_del_computador.Base.{
  ℕ, zero, suc, ◌+◌, ◌-◌, ◌^◌, ◌<◌, ◌≡◌, refl, ◌∙◌, arith, Bool, true, false, not, ◌&&◌, ◌||◌, ap,
  List, [], ◌∷◌, length, Option, none, some, if◌then◌else◌, leb, lt→ltb, u32, ◌==◌,
}
use orga_del_computador.Mm.Run.{ok}
use orga_del_computador.Mm.Words.{Words, get_header, is_free, is_big_enough}
use orga_del_computador.Mm.Words.Laws.{
  header_size, header_alloc, footer_size, footer_alloc, next-eq, get_size-end,
}
use orga_del_computador.Mm.Layout.{Block, digit, BlockAt, RightOf}
use orga_del_computador.Mm.Heap.{more, is_broken, checkheap_loop}

-- A block in the list, with the blocks to its left, nearest first, and to its right.
pub record Fit : Type 0 where
  pub left : List Block
  pub found : Block
  pub right : List Block

-- The leftmost free block of `asize` bytes or more, on from the place between `ls` and `rs`.
unfoldable pub first_fit : ℕ → List Block → List Block → Option Fit
first_fit asize ls [] = none
first_fit asize ls (b ∷ rs) =
    if not b.used && leb asize b.size
    then some (record { left = ls; found = b; right = rs })
    else first_fit asize (b ∷ ls) rs

module _ (m : Words) (p : ℕ) where
  module _ (b : Block) (at : BlockAt m p b) where
    pub more-block : more m p ≡ true
    more-block = rw (header_size m p b at) (lt→ltb 0 b.size (omega (arith, at.fits.room)))

    pub is_free-block : is_free m p ≡ not b.used
    unfolding is_free
    is_free-block = rw (header_alloc m p b at) (bit b.used)
      where
        bit : (u : Bool) → (digit u == 0) ≡ not u
        bit true = refl
        bit false = refl

    pub is_big_enough-block :
        (asize : ℕ) → asize < 2 ^ 32 → is_big_enough m p asize ≡ leb asize b.size
    unfolding is_big_enough
    is_big_enough-block asize small =
        let e : u32 asize ≡ asize = omega arith in rw (header_size m p b at, e)

    pub not_broken : is_broken m p ≡ false
    unfolding is_broken
    not_broken =
        rw
          (
            header_size m p b at,
            header_alloc m p b at,
            footer_size m p b at,
            footer_alloc m p b at,
            at.fits.aligned,
          )
          (ground arith)

  pub more-end : m (p - 8) ≡ 1 → more m p ≡ false
  unfolding get_header
  more-end e = rw (get_size-end m (p - 8) e)

-- On a list of blocks with matching tags and whole 16-byte units the loop of `mm_checkheap` ends
-- within one round more than there are blocks and reports nothing.
pub checkheap_loop-ok :
    (k : ℕ) (m : Words) (p : ℕ) (rs : List Block) (bad : Bool)
    → RightOf m p rs
    → length rs < k
    → checkheap_loop m k p bad ≡ ok bad
unfolding checkheap_loop
checkheap_loop-ok zero m p rs bad right fuel = absurd (omega arith)
checkheap_loop-ok (suc k) m p [] bad e fuel = rw (more-end m p e)
checkheap_loop-ok (suc k) m p (b ∷ rs) bad (at, right) fuel =
    rw (more-block m p b at, next-eq m p b at, not_broken m p b at)
      (checkheap_loop-ok k m (p + b.size) rs (bad || false) right (omega arith) ∙ ap ok (keep bad))
  where
    keep : (c : Bool) → (c || false) ≡ c
    keep true = refl
    keep false = refl
