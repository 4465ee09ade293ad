-- ===== src/Lista/Segmento.antt =====
-- The nodes that lie between two pointers.
use orga_del_computador.Base.{
  ℕ, ◌≡◌, refl, sym, ◌∙◌, ap, arith, Bool, true, false, ◌||◌, Option, none, some, Bool-cases, inl,
  inr, List, [], ◌∷◌, ◌++◌, length, ◌==◌, ==_iff,
}
use mathlib.Core.Path.{subst}
use orga_del_computador.Lista.{avanzar}
use orga_del_computador.Lista.Nodos.{Memoria, Nodo, nodo, ok, load, put}

-- The address of a node and its element.
abbrev pub Celdas : Type 0
Celdas = List (ℕ × ℕ)

abbrev pub has : ℕ → Celdas → Bool
has a [] = false
has a ((b, e) ∷ xs) = (a == b) || has a xs

-- From `p` the nodes `xs`, all different, lead to `q`.
abbrev pub Segmento : Memoria → Option ℕ → Celdas → Option ℕ → Type 0
Segmento m p [] q = p ≡ q
Segmento m p ((a, e) ∷ xs) q =
    (r : Option ℕ) × (p ≡ some a) × (has a xs ≡ false) × (m a ≡ some (nodo e r)) × Segmento m r xs q

pub has-append : (a : ℕ) (xs ys : Celdas) → has a (xs ++ ys) ≡ (has a xs || has a ys)
has-append a [] ys = refl
has-append a ((b, e) ∷ xs) ys = ground (arith, has-append a xs ys)

module _ (m : Memoria) where
  pub load-some : {a : ℕ} {n : Nodo} → m a ≡ some n → load m (some a) ≡ ok n
  unfolding load
  load-some e = rw e refl

  -- A write elsewhere leaves the segment.
  pub Segmento-put :
      (p : Option ℕ) (xs : Celdas) (q : Option ℕ) (a : ℕ) (c : Option Nodo)
      → has a xs ≡ false
      → Segmento m p xs q
      → Segmento (put m (some a) c) p xs q
  unfolding put
  Segmento-put p [] q a c out s = s
  Segmento-put p ((b, e) ∷ xs) q a c out (r, at, new, here, s) =
      (r, at, new, ground arith, Segmento-put r xs q a c (ground arith) s)

  -- The walk over the first nodes.
  pub avanzar-Segmento :
      (xs ys : Celdas) (p q : Option ℕ)
      → Segmento m p (xs ++ ys) q
      → (p' : Option ℕ) × (avanzar m (length xs) p ≡ ok p') × Segmento m p' ys q
  unfolding avanzar
  avanzar-Segmento [] ys p q s = (p, refl, s)
  avanzar-Segmento ((a, e) ∷ xs) ys p q (r, at, new, here, s) =
      let (p', walk, s') = avanzar-Segmento xs ys r q s in (p', rw (at, load-some here) walk, s')

  -- A segment is two.
  pub Segmento-split :
      (xs ys : Celdas) (p q : Option ℕ)
      → Segmento m p (xs ++ ys) q
      → (r : Option ℕ) × Segmento m p xs r × Segmento m r ys q
  Segmento-split [] ys p q s = (p, refl, s)
  Segmento-split ((a, e) ∷ xs) ys p q (r, at, new, here, s) =
      let (r', left, right) = Segmento-split xs ys r q s in
      (r', (r, at, ground (arith, has-append a xs ys), here, left), right)

  -- Two segments with no node in common are one.
  pub Segmento-join :
      (xs ys : Celdas) (p r q : Option ℕ)
      → ((a : ℕ) → has a xs ≡ true → has a ys ≡ false)
      → Segmento m p xs r
      → Segmento m r ys q
      → Segmento m p (xs ++ ys) q
  Segmento-join [] ys p r q apart s t = subst (λ u. Segmento m u ys q) (sym s) t
  Segmento-join ((a, e) ∷ xs) ys p r q apart (u, at, new, here, s) t =
      let other = apart a (ground arith) in
      (
        u,
        at,
        ground (arith, has-append a xs ys, other),
        here,
        Segmento-join xs ys u r q (λ b h. apart b (ground arith)) s t,
      )

  -- A node that is not allocated is not on the way.
  pub has-of_none :
      (p : Option ℕ) (xs : Celdas) (q : Option ℕ) (a : ℕ)
      → m a ≡ none
      → Segmento m p xs q
      → has a xs ≡ false
  has-of_none p [] q a free s = refl
  has-of_none p ((b, e) ∷ xs) q a free (r, at, new, here, s) = elim (Bool-cases (a == b)) [
    | inl same ↦ let e' : m a ≡ some (nodo e r) = ap m ((==_iff a b).0 same) ∙ here in cc
    | inr other ↦ rw other (has-of_none r xs q a free s)
  ]

  -- The last node of a segment is led elsewhere.
  pub Segmento-relink :
      (xs : Celdas) (b e : ℕ) (p q r : Option ℕ)
      → Segmento m p (xs ++ ((b, e) ∷ [])) q
      → Segmento (put m (some b) (some (nodo e r))) p (xs ++ ((b, e) ∷ [])) r
  unfolding put
  Segmento-relink [] b e p q r (u, at, new, here, s) = (r, at, new, ground arith, refl)
  Segmento-relink ((c, ec) ∷ xs) b e p q r (u, at, new, here, s) =
      (u, at, new, ground (arith, has-append c xs ((b, e) ∷ [])), Segmento-relink xs b e u q r s)

  -- The nodes in front of another one are not that one, and it holds its element.
  pub Segmento-middle :
      (xs : Celdas) (b e : ℕ) (ys : Celdas) (p q : Option ℕ)
      → Segmento m p (xs ++ ((b, e) ∷ ys)) q
      → (r : Option ℕ) × (has b xs ≡ false)
        × (has b ys ≡ false)
        × (m b ≡ some (nodo e r))
        × Segmento m p (xs ++ ((b, e) ∷ [])) r
        × Segmento m r ys q
  Segmento-middle [] b e ys p q (r, at, new, here, s) =
      (r, refl, new, here, (r, at, refl, here, refl), s)
  Segmento-middle ((c, ec) ∷ xs) b e ys p q (u, at, new, here, s) =
      let (r, before, behind, own, left, right) = Segmento-middle xs b e ys u q s in
      (
        r,
        ground (arith, has-append c xs ((b, e) ∷ ys)),
        behind,
        own,
        (
          u,
          at,
          ground (arith, has-append c xs ((b, e) ∷ ys), has-append c xs ((b, e) ∷ [])),
          here,
          left,
        ),
        right,
      )

  -- Two parts of a segment have no node in common.
  pub Segmento-apart :
      (xs ys : Celdas) (p q : Option ℕ)
      → Segmento m p (xs ++ ys) q
      → (a : ℕ) → has a xs ≡ true
      → has a ys ≡ false
  Segmento-apart [] ys p q s a h = cc
  Segmento-apart ((c, ec) ∷ xs) ys p q (u, at, new, here, s) a h = elim (Bool-cases (a == c)) [
    | inl same ↦ rw ((==_iff a c).0 same) (ground (arith, has-append c xs ys))
    | inr other ↦ Segmento-apart xs ys u q s a (rw other at h)
  ]
