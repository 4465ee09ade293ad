-- ===== src/Mm/Live/Kept.antt =====
-- What a call leaves alone: the payloads of the blocks in use.
use orga_del_computador.Base.{
  ℕ, ◌+◌, ◌≤◌, ◌<◌, ◌≡◌, sym, arith, List, [], ◌∷◌, ◌++◌, inl, inr, Bool-cases,
}
use mathlib.Core.Path.{subst}
use orga_del_computador.Mm.Words.{Words}
use orga_del_computador.Mm.Layout.{Block, total}
use orga_del_computador.Mm.Layout.Frame.{SameBelow, SameFrom}
use orga_del_computador.Mm.Live.{
  live, live_left, live-used, live-free, live_left-used, live_left-free,
}

-- `m'` holds what `m` holds in the payload of each block of the list: the words from its address on
-- that end before its footer.
abbrev pub Kept : Words → Words → List (ℕ × ℕ) → Type 0
Kept m m' [] = Unit {0}
Kept m m' ((q, s) ∷ xs) = ((a : ℕ) → q ≤ a → a + 16 < q + s → m' a ≡ m a) × Kept m m' xs

module _ (m m' : Words) where
  pub Kept-append : (xs ys : List (ℕ × ℕ)) → Kept m m' xs → Kept m m' ys → Kept m m' (xs ++ ys)
  Kept-append [] ys h k = k
  Kept-append ((q, s) ∷ xs) ys (here, h) k = (here, Kept-append xs ys h k)

  pub Kept-live_left :
      (base : ℕ) (ls : List Block)
      → SameBelow (base + total ls) m m'
      → Kept m m' (live_left base ls)
  unfolding live_left
  Kept-live_left base [] same = tt
  Kept-live_left base (b ∷ ls) same = elim (Bool-cases b.used) [
    | inl u ↦ subst (Kept m m') (sym (live_left-used base b ls u)) (
        Kept-append (live_left base ls) ((base + total ls, b.size) ∷ [])
          (Kept-live_left base ls (λ a h. same a (omega arith)))
          ((λ a h k. same a (omega arith)), tt))
    | inr u ↦
        subst (Kept m m') (sym (live_left-free base b ls u))
          (Kept-live_left base ls (λ a h. same a (omega arith)))
  ]

  pub Kept-live : (p : ℕ) (bs : List Block) → SameFrom p m m' → Kept m m' (live p bs)
  unfolding live
  Kept-live p [] same = tt
  Kept-live p (b ∷ bs) same = elim (Bool-cases b.used) [
    | inl u ↦
        subst (Kept m m') (sym (live-used p b bs u))
          (λ a h k. same a (omega arith), Kept-live (p + b.size) bs (λ a h. same a (omega arith)))
    | inr u ↦
        subst (Kept m m') (sym (live-free p b bs u))
          (Kept-live (p + b.size) bs (λ a h. same a (omega arith)))
  ]
