-- ===== src/Mm/Api/Separated.antt =====
-- Blocks of which no two that are free lie side by side.
use orga_del_computador.Base.{
  ℕ, ◌+◌, ◌≡◌, arith, Bool, true, false, ◌&&◌, ◌||◌, List, [], ◌∷◌, refl, ◌∙◌,
}
use mathlib.Core.List.{reverse_aux}
use orga_del_computador.Mm.Layout.{Block, block, free_size, free_rest}
use orga_del_computador.Mm.Block.Place.{placed}
use orga_del_computador.Mm.Api.Invariant.{joined}

-- The block next to a place is used, or there is none.
abbrev pub next_used : List Block → Bool
next_used [] = true
next_used (b ∷ bs) = b.used

unfoldable pub separated : List Block → Bool
separated [] = true
separated (b ∷ bs) = (b.used || next_used bs) && separated bs

pub separated_nil : separated [] ≡ true
unfolding separated
separated_nil = refl

pub separated-reverse_aux :
    (ls rs : List Block)
    → separated (reverse_aux ls rs)
      ≡ separated ls && ((next_used ls || next_used rs) && separated rs)
unfolding separated
separated-reverse_aux [] rs = refl
separated-reverse_aux (b ∷ ls) rs = separated-reverse_aux ls (b ∷ rs) ∙ ground arith

-- A free neighbour goes, and the next one is used.
separated-free_rest :
    (bs : List Block)
    → separated bs ≡ true
    → (separated (free_rest bs) ≡ true) × (next_used (free_rest bs) ≡ true)
unfolding separated
separated-free_rest [] s = (refl, refl)
separated-free_rest (b ∷ bs) s = (ground arith, ground arith)

-- A list of blocks without free neighbours, by the two sides of a place.
pub separated-parts :
    (ls rs : List Block)
    → separated (reverse_aux ls rs) ≡ true
    → (separated ls ≡ true) × (separated rs ≡ true) × ((next_used ls || next_used rs) ≡ true)
separated-parts ls rs s =
    let e = separated-reverse_aux ls rs in (ground (arith, e), ground (arith, e), ground (arith, e))

pub separated-behind :
    (b : Block) (bs : List Block) → separated (b ∷ bs) ≡ true → separated bs ≡ true
unfolding separated
separated-behind b bs s = ground arith

pub separated-joined :
    (ls : List Block) (s : ℕ) (rs : List Block)
    → separated ls ≡ true
    → separated rs ≡ true
    → separated (joined ls s rs) ≡ true
unfolding separated
separated-joined ls s rs left right =
    let (a, b) = separated-free_rest ls left in
    let (c, d) = separated-free_rest rs right in
    separated-reverse_aux (free_rest ls)
      (block (free_size ls + s + free_size rs) false ∷ free_rest rs)
    ∙ rw (a, b, c, d) refl

pub separated-placed :
    (ls : List Block) (asize : ℕ) (b : Block) (rs : List Block)
    → b.used ≡ false
    → separated (reverse_aux ls (b ∷ rs)) ≡ true
    → separated (reverse_aux ls (placed asize b rs)) ≡ true
unfolding separated
separated-placed ls asize b rs free s =
    let (left, right, gap) = separated-parts ls (b ∷ rs) s in
    separated-reverse_aux ls (placed asize b rs) ∙ ground arith
