-- ===== src/Driver/OnMm/Insertion.antt =====
-- A list with one more element in it.
use orga_del_computador.Base.{◌≡◌, refl, sym, ap, ◌⊎◌, inl, inr, List, [], ◌∷◌, ◌++◌}
use mathlib.Core.Path.{subst}
use orga_del_computador.Driver.Contract.{All}

-- `ys` is `xs` with `x` put in somewhere.
abbrev pub Inserts : {A : Type 0} → A → List A → List A → Type 0
Inserts x xs [] = ⊥
Inserts {A} x xs (y ∷ ys) =
    ((x ≡ y) × (xs ≡ ys)) ⊎ ((zs : List A) × (xs ≡ y ∷ zs) × Inserts x zs ys)

module _ {A : Type 0} where
  pub Inserts-middle :
      (x : A) (before after : List A) → Inserts x (before ++ after) (before ++ (x ∷ after))
  Inserts-middle x [] after = inl (refl, refl)
  Inserts-middle x (y ∷ before) after = inr (before ++ after, refl, Inserts-middle x before after)

  pub Inserts-split :
      (x : A) (xs ys : List A)
      → Inserts x xs ys
      → (before : List A) × (after : List A) × (xs ≡ before ++ after) × (ys ≡ before ++ (x ∷ after))
  Inserts-split x xs [] i = elim i [ ]
  Inserts-split x xs (y ∷ ys) (inl (e, f)) = ([], ys, f, ap (λ z. z ∷ ys) (sym e))
  Inserts-split x xs (y ∷ ys) (inr (zs, e, i)) =
      let (before, after, f, g) = Inserts-split x zs ys i in
      (y ∷ before, after, cc, ap (λ l. y ∷ l) g)

  -- Two insertions in the other order.
  pub Inserts-swap :
      (x y : A) (xs ys zs : List A)
      → Inserts x xs ys
      → Inserts y zs xs
      → (ws : List A) × Inserts y ws ys × Inserts x zs ws
  Inserts-swap x y xs [] zs i j = elim i [ ]
  Inserts-swap x y xs (z ∷ ys) zs (inl (e, f)) j =
      (z ∷ zs, inr (zs, refl, subst (Inserts y zs) f j), inl (e, refl))
  Inserts-swap x y xs (z ∷ ys) zs (inr (us, e, i)) j = elim (subst (Inserts y zs) e j) [
    | inl (f, g) ↦ (ys, inl (f, refl), subst (λ l. Inserts x l ys) (sym g) i)
    | inr (vs, f, k) ↦
        let (ws, a, b) = Inserts-swap x y us ys vs i k in
        (z ∷ ws, inr (ws, refl, a), inr (vs, f, b))
  ]

  pub All-Inserts :
      (P : A → Type 0) (x : A) (xs ys : List A) → All P ys → Inserts x xs ys → P x × All P xs
  All-Inserts P x xs [] h i = elim i [ ]
  All-Inserts P x xs (y ∷ ys) (h, hs) (inl (e, f)) = (subst P (sym e) h, subst (All P) (sym f) hs)
  All-Inserts P x xs (y ∷ ys) (h, hs) (inr (zs, e, i)) =
      let (a, b) = All-Inserts P x zs ys hs i in (a, subst (All P) (sym e) (h, b))
