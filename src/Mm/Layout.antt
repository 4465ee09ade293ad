-- ===== src/Mm/Layout.antt =====
-- What the allocator's memory stands for: a list of blocks with boundary tags, ended by the epilogue
-- header. A place in the list is a zipper: the blocks to its left, nearest first, and to its right.
pub mod Frame
use orga_del_computador.Base.{
  ℕ, ◌+◌, ◌-◌, ◌%◌, ◌^◌, ◌≤◌, ◌<◌, ◌≡◌, Bool, true, false, List, [], ◌∷◌, if◌then◌else◌,
}
use orga_del_computador.Mm.Words.{Words}

pub record Block : Type 0 where
  pub size : ℕ
  pub used : Bool

abbrev pub block : ℕ → Bool → Block
block s u = record { size = s; used = u }

abbrev pub digit : Bool → ℕ
digit true = 1
digit false = 0

-- The word that a block's header and footer hold.
abbrev pub tag : Block → ℕ
tag b = b.size + digit b.used

abbrev pub total : List Block → ℕ
total [] = 0
total (b ∷ bs) = b.size + total bs

-- A whole number of 16-byte units, at least one, that an `unsigned` holds.
pub record Fits (b : Block) : Type 0 where
  pub aligned : b.size % 16 ≡ 0
  pub room : 16 ≤ b.size
  pub bounded : b.size < 2 ^ 32

-- The block `b` starts with its header at `p - 8` and ends with its footer at `p + size - 16`.
pub record BlockAt (m : Words) (p : ℕ) (b : Block) : Type 0 where
  pub header : m (p - 8) ≡ tag b
  pub footer : m (p + b.size - 16) ≡ tag b
  pub fits : Fits b

-- The blocks `ls`, nearest first, lie between `base` and `base + total ls`.
abbrev pub LeftOf : Words → ℕ → List Block → Type 0
LeftOf m base [] = Unit {0}
LeftOf m base (b ∷ ls) = BlockAt m (base + total ls) b × LeftOf m base ls

-- From `p` on lie the blocks `rs`, and behind them the epilogue header.
abbrev pub RightOf : Words → ℕ → List Block → Type 0
RightOf m p [] = m (p - 8) ≡ 1
RightOf m p (b ∷ rs) = BlockAt m p b × RightOf m (p + b.size) rs

-- The memory from `base` on, seen from the place between `ls` and `rs`.
pub record Zipper (m : Words) (base : ℕ) (ls rs : List Block) : Type 0 where
  pub low : 16 ≤ base
  pub left : LeftOf m base ls
  pub right : RightOf m (base + total ls) rs

-- The size of the block next to a place if that block is free, and what lies beyond it.
abbrev pub free_size : List Block → ℕ
free_size [] = 0
free_size (b ∷ bs) = if b.used then 0 else b.size

abbrev pub free_rest : List Block → List Block
free_rest [] = []
free_rest (b ∷ bs) = if b.used then b ∷ bs else bs
