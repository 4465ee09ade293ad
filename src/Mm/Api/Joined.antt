-- ===== src/Mm/Api/Joined.antt =====
-- Joining a free block with its free neighbours changes nothing that a client can see.
use orga_del_computador.Base.{ℕ, ◌+◌, ◌≡◌, refl, ◌∙◌, arith, false, ap₂, List, [], ◌∷◌, ◌++◌}
use mathlib.Core.Path.{subst}
use orga_del_computador.Mm.Words.{Words}
use orga_del_computador.Mm.Layout.{Block, block, total, free_size, free_rest}
use orga_del_computador.Mm.Block.Join.{Joined}
use orga_del_computador.Mm.Api.Invariant.{joined, total-free_rest}
use orga_del_computador.Mm.Live.{
  live, live_left, live-reverse_aux, live_left-free_rest, live-free_rest, live-free,
}
use orga_del_computador.Mm.Live.Kept.{Kept, Kept-append, Kept-live_left, Kept-live}

module _ (base : ℕ) (ls : List Block) (s : ℕ) (rs : List Block) where
  abbrev whole : ℕ
  whole = free_size ls + s + free_size rs

  right-eq :
      live (base + total (free_rest ls) + whole) (free_rest rs) ≡ live (base + total ls + s) rs
  right-eq = live-free_rest (base + total ls + s) _ rs (omega (arith, total-free_rest ls))

  pub live-joined : live base (joined ls s rs) ≡ live_left base ls ++ live (base + total ls + s) rs
  live-joined =
      live-reverse_aux base (free_rest ls) (block whole false ∷ free_rest rs)
      ∙ ap₂ ◌++◌ (live_left-free_rest base ls) (
          live-free (base + total (free_rest ls)) (block whole false) (free_rest rs) refl
          ∙ right-eq)

  pub Kept-Joined :
      {m : Words} {r : ℕ × Words}
      → Joined m base ls s rs r
      → Kept m r.1 (live_left base ls ++ live (base + total ls + s) rs)
  Kept-Joined {m} {r} j =
      Kept-append m r.1 (live_left base ls) (live (base + total ls + s) rs)
        (subst (Kept m r.1) (live_left-free_rest base ls)
          (Kept-live_left m r.1 base (free_rest ls) (λ a h. j.same.0 a (omega (arith, j.address)))))
        (subst (Kept m r.1) right-eq
          (Kept-live m r.1 _ (free_rest rs) (λ a h. j.same.1 a (omega (arith, j.address)))))

pub Kept-trans : (m n o : Words) (xs : List (ℕ × ℕ)) → Kept m n xs → Kept n o xs → Kept m o xs
Kept-trans m n o [] h k = tt
Kept-trans m n o ((q, s) ∷ xs) (here, h) (there, k) =
    (λ a p e. there a p e ∙ here a p e, Kept-trans m n o xs h k)
