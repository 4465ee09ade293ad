-- ===== src/Mm/Live/Locate.antt =====
-- From a block in use, as the client knows it, to its place in the list.
use orga_del_computador.Base.{
  ℕ, ◌+◌, ◌≡◌, refl, sym, ◌∙◌, arith, true, ap, List, [], ◌∷◌, ◌++◌, inl, inr, Bool-cases,
}
use mathlib.Core.Path.{subst}
use mathlib.Core.List.{append-nil, append_assoc, reverse_aux}
use orga_del_computador.Mm.Layout.{Block, total}
use orga_del_computador.Mm.Live.{
  live, live_left, live-used, live-free, live_left-used, live_left-free,
}
use orga_del_computador.Mm.Api.Invariant.{HasPrologue}

-- The place of the block in use at `q`, of `s` bytes, between `before` and `after`.
pub record Located (base : ℕ) (bs : List Block) (before : List (ℕ × ℕ)) (q s : ℕ)
    (after : List (ℕ × ℕ)) : Type 0 where
  pub left : List Block
  pub found : Block
  pub right : List Block
  pub same_list : bs ≡ reverse_aux left (found ∷ right)
  pub address : q ≡ base + total left
  pub size : found.size ≡ s
  pub used : found.used ≡ true
  pub live_before : live_left base left ≡ before
  pub live_after : live (q + s) right ≡ after

-- The walk over the list, from the place between `ls` and `bs`; `found` is what was seen so far.
locate_from :
    (base : ℕ) (ls bs : List Block) (found before : List (ℕ × ℕ)) (q s : ℕ) (after : List (ℕ × ℕ))
    → live_left base ls ≡ found
    → live (base + total ls) bs ≡ before ++ ((q, s) ∷ after)
    → Located base (reverse_aux ls bs) (found ++ before) q s after
locate_from base ls [] found [] q s after h e = unfold live in cc
locate_from base ls [] found (x ∷ before) q s after h e = unfold live in cc
locate_from base ls (b ∷ bs) found [] q s after h e = elim (Bool-cases b.used) [
  | inr u ↦
      locate_from base (b ∷ ls) bs found [] q s after (live_left-free base b ls u ∙ h)
        (step ∙ sym (live-free (base + total ls) b bs u) ∙ e)
  | inl u ↦
      let heads = sym (live-used (base + total ls) b bs u) ∙ e in
      record {
        left = ls;
        found = b;
        right = bs;
        same_list = refl;
        address = ground (arith, heads);
        size = ground (arith, heads);
        used = u;
        live_before = h ∙ sym (append-nil found);
        live_after = ground (arith, heads);
      }
]
  where
    step : live (base + total (b ∷ ls)) bs ≡ live (base + total ls + b.size) bs
    step = ap (λ p. live p bs) {y = base + total ls + b.size} (omega arith)
locate_from base ls (b ∷ bs) found (x ∷ before) q s after h e = elim (Bool-cases b.used) [
  | inr u ↦
      locate_from base (b ∷ ls) bs found (x ∷ before) q s after (live_left-free base b ls u ∙ h)
        (step ∙ sym (live-free (base + total ls) b bs u) ∙ e)
  | inl u ↦
      let heads = sym (live-used (base + total ls) b bs u) ∙ e in
      subst (λ l. Located base (reverse_aux ls (b ∷ bs)) l q s after)
        (append_assoc found (x ∷ []) before)
        (locate_from base (b ∷ ls) bs (found ++ (x ∷ [])) before q s after
          (live_left-used base b ls u ∙ ground (arith, heads)) (step ∙ ground (arith, heads)))
]
  where
    step : live (base + total (b ∷ ls)) bs ≡ live (base + total ls + b.size) bs
    step = ap (λ p. live p bs) {y = base + total ls + b.size} (omega arith)

pub locate :
    (base : ℕ) (bs : List Block) (before : List (ℕ × ℕ)) (q s : ℕ) (after : List (ℕ × ℕ))
    → live base bs ≡ before ++ ((q, s) ∷ after)
    → Located base bs before q s after
unfolding live_left
locate base bs before q s after e =
    locate_from base [] bs [] before q s after refl
      (ap (λ p. live p bs) {y = base} (omega arith) ∙ e)

-- The prologue is the first block in use, and the others follow it.
pub live_left-prologue :
    (base : ℕ) (l : Block) (ls xs : List Block)
    → HasPrologue (reverse_aux (l ∷ ls) xs)
    → (before : List (ℕ × ℕ)) × (live_left base (l ∷ ls) ≡ (base, 16) ∷ before)
unfolding live_left
live_left-prologue base l [] xs h = ([], ground arith)
live_left-prologue base l (k ∷ ls) xs h =
    let (before, e) = live_left-prologue base k ls (l ∷ xs) h in
    elim (Bool-cases l.used) [
      | inl u ↦ (
        before ++ ((base + total (k ∷ ls), l.size) ∷ []),
        live_left-used base l (k ∷ ls) u ∙ ap (λ x. x ++ ((base + total (k ∷ ls), l.size) ∷ [])) e,
      )
      | inr u ↦ (before, live_left-free base l (k ∷ ls) u ∙ e)
    ]
