-- ===== src/Mm/Live.antt =====
-- The abstract view of the heap: the blocks in use, by address and size, in the order of their
-- addresses. How free blocks divide the rest of the memory is forgotten.
pub mod Locate
pub mod Apart
pub mod Kept
use orga_del_computador.Base.{
  true, false, ℕ, ◌+◌, ◌-◌, ◌*◌, ◌≤◌, ◌≡◌, refl, ◌∙◌, arith, ap, List, [], ◌∷◌, ◌++◌, length, inl,
  inr, Bool-cases, if◌then◌else◌, leb,
}
use mathlib.Core.Path.{subst}
use mathlib.Core.List.{append_assoc, reverse_aux}
use orga_del_computador.Mm.Words.{Words}
use orga_del_computador.Mm.Layout.{Block, total, LeftOf, RightOf, free_size, free_rest}
use orga_del_computador.Mm.Block.Place.{placed}

unfoldable pub live : ℕ → List Block → List (ℕ × ℕ)
live p [] = []
live p (b ∷ bs) = if b.used then (p, b.size) ∷ live (p + b.size) bs else live (p + b.size) bs

pub live-used :
    (p : ℕ) (b : Block) (bs : List Block)
    → b.used ≡ true
    → live p (b ∷ bs) ≡ (p, b.size) ∷ live (p + b.size) bs
unfolding live
live-used p b bs u = ground arith

pub live-free :
    (p : ℕ) (b : Block) (bs : List Block) → b.used ≡ false → live p (b ∷ bs) ≡ live (p + b.size) bs
unfolding live
live-free p b bs u = ground arith

-- The same for the blocks to the left of a place.
unfoldable pub live_left : ℕ → List Block → List (ℕ × ℕ)
live_left base [] = []
live_left base (b ∷ ls) =
    if b.used then live_left base ls ++ ((base + total ls, b.size) ∷ []) else live_left base ls

pub live_left-used :
    (base : ℕ) (b : Block) (ls : List Block)
    → b.used ≡ true
    → live_left base (b ∷ ls) ≡ live_left base ls ++ ((base + total ls, b.size) ∷ [])
unfolding live_left
live_left-used base b ls u = ground arith

pub live_left-free :
    (base : ℕ) (b : Block) (ls : List Block)
    → b.used ≡ false
    → live_left base (b ∷ ls) ≡ live_left base ls
unfolding live_left
live_left-free base b ls u = ground arith

pub live-reverse_aux :
    (base : ℕ) (ls rs : List Block)
    → live base (reverse_aux ls rs) ≡ live_left base ls ++ live (base + total ls) rs
unfolding live live_left
live-reverse_aux base [] rs = ap (λ p. live p rs) (omega arith)
live-reverse_aux base (b ∷ ls) rs = elim (Bool-cases b.used) [
  | inl u ↦
      live-reverse_aux base ls (b ∷ rs)
      ∙ ground (
        arith,
        append_assoc (live_left base ls) ((base + total ls, b.size) ∷ [])
            (live (base + total ls + b.size) rs),
      )
  | inr u ↦ live-reverse_aux base ls (b ∷ rs) ∙ ground arith
]

-- A free block next to a place does not count.
pub live_left-free_rest :
    (base : ℕ) (ls : List Block) → live_left base (free_rest ls) ≡ live_left base ls
unfolding live_left
live_left-free_rest base [] = refl
live_left-free_rest base (b ∷ ls) = ground arith

pub live-free_rest :
    (p q : ℕ) (rs : List Block) → q ≡ p + free_size rs → live q (free_rest rs) ≡ live p rs
unfolding live
live-free_rest p q [] e = refl
live-free_rest p q (b ∷ rs) e = ground arith

-- The bytes of the block that an allocation makes.
abbrev pub placed_size : ℕ → Block → ℕ
placed_size asize b = if leb 32 (b.size - asize) then asize else b.size

pub live-placed :
    (p asize : ℕ) (b : Block) (rs : List Block)
    → asize ≤ b.size
    → live p (placed asize b rs) ≡ (p, placed_size asize b) ∷ live (p + b.size) rs
unfolding live
live-placed p asize b rs h = ground arith

-- A list in the memory as a zipper, and back.
module _ (m : Words) (base : ℕ) where
  pub unzip :
      (ls rs : List Block)
      → RightOf m base (reverse_aux ls rs)
      → LeftOf m base ls × RightOf m (base + total ls) rs
  unzip [] rs right = (tt, subst (λ p. RightOf m p rs) (omega arith) right)
  unzip (b ∷ ls) rs right =
      let (left, (at, right')) = unzip ls (b ∷ rs) right in
      ((at, left), subst (λ p. RightOf m p rs) (omega arith) right')

  pub zip :
      (ls rs : List Block)
      → LeftOf m base ls
      → RightOf m (base + total ls) rs
      → RightOf m base (reverse_aux ls rs)
  zip [] rs left right = subst (λ p. RightOf m p rs) (omega arith) right
  zip (b ∷ ls) rs (at, left) right =
      zip ls (b ∷ rs) left (at, subst (λ p. RightOf m p rs) (omega arith) right)

pub length-le-total :
    (m : Words) (p : ℕ) (bs : List Block) → RightOf m p bs → 16 * length bs ≤ total bs
length-le-total m p [] right = omega arith
length-le-total m p (b ∷ bs) (at, right) =
    omega (arith, at.fits.room, length-le-total m (p + b.size) bs right)
