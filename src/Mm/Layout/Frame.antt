-- ===== src/Mm/Layout/Frame.antt =====
-- A part of the heap survives every change of memory that spares its own words.
use orga_del_computador.Base.{ℕ, ◌+◌, ◌≤◌, ◌<◌, ◌≡◌, ◌∙◌, List, [], ◌∷◌, arith}
use orga_del_computador.Mm.Words.{Words}
use orga_del_computador.Mm.Layout.{Block, total, LeftOf, RightOf}

-- `m'` and `m` agree at every word at or behind the header of a block at `p`, and at every word
-- before it.
abbrev pub SameFrom : ℕ → Words → Words → Type 0
SameFrom p m m' = (a : ℕ) → p ≤ a + 8 → m' a ≡ m a

abbrev pub SameBelow : ℕ → Words → Words → Type 0
SameBelow p m m' = (a : ℕ) → a + 8 < p → m' a ≡ m a

abbrev pub SameOutside : ℕ → ℕ → Words → Words → Type 0
SameOutside p q m m' = SameBelow p m m' × SameFrom q m m'

module _ {m m' : Words} where
  pub LeftOf-frame :
      (base : ℕ) (ls : List Block)
      → 16 ≤ base
      → SameBelow (base + total ls) m m'
      → LeftOf m base ls
      → LeftOf m' base ls
  LeftOf-frame base [] low same left = tt
  LeftOf-frame base (b ∷ ls) low same (at, left) = (
    record {
      header = same _ (omega arith) ∙ at.header;
      footer = same _ (omega arith) ∙ at.footer;
      fits = at.fits;
    },
    LeftOf-frame base ls low (λ a h. same a (omega arith)) left,
  )

  pub RightOf-frame :
      (p : ℕ) (rs : List Block) → 16 ≤ p → SameFrom p m m' → RightOf m p rs → RightOf m' p rs
  RightOf-frame p [] low same e = same _ (omega arith) ∙ e
  RightOf-frame p (b ∷ rs) low same (at, right) = (
    record {
      header = same _ (omega arith) ∙ at.header;
      footer = same _ (omega arith) ∙ at.footer;
      fits = at.fits;
    },
    RightOf-frame (p + b.size) rs (omega arith) (λ a h. same a (omega arith)) right,
  )
