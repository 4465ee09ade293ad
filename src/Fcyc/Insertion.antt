-- ===== src/Fcyc/Insertion.antt =====
-- `add_sample` on the array `values`, read from its last value to its first.
use orga_del_computador.Base.{
  ℕ, zero, suc, ◌-◌, ◌≤◌, ◌<◌, ◌≡◌, refl, ◌∙◌, arith, ap₂, Bool, List, [], ◌∷◌, lt→ltb, le→ltb,
  ne→==, ==_iff, inl, inr, Bool-cases, if◌then◌else◌,
}
use orga_del_computador.Fcyc.{store, sift, added}

-- The first `n` values, the last one first.
abbrev pub back {ℓ} : {V : Type ℓ} → ℕ → (ℕ → V) → List V
back zero v = []
back (suc n) v = v n ∷ back n v

module _ {ℓ} {V : Type ℓ} where
  back-eq : (n : ℕ) (v w : ℕ → V) → ((i : ℕ) → i < n → v i ≡ w i) → back n v ≡ back n w
  back-eq zero v w h = refl
  back-eq (suc n) v w h = ap₂ ◌∷◌ (h n (omega arith)) (back-eq n v w (λ i k. h i (omega arith)))

  store_self : (v : ℕ → V) (pos : ℕ) (x : V) → store v pos x pos ≡ x
  unfolding store
  store_self v pos x = rw ((==_iff pos pos).1 refl) refl

  store-other : (v : ℕ → V) (pos : ℕ) (x : V) (i : ℕ) → (i ≡ pos → ⊥) → store v pos x i ≡ v i
  unfolding store
  store-other v pos x i h = rw (ne→== i pos h) refl

  back-store : (n : ℕ) (v : ℕ → V) (pos : ℕ) (x : V) → n ≤ pos → back n (store v pos x) ≡ back n v
  back-store n v pos x h = back-eq n _ v (λ i k. store-other v pos x i (λ e. omega arith))

  module _ (less : V → V → Bool) where
    -- A value in front of the first that is not greater.
    unfoldable pub insert : V → List V → List V
    insert x [] = x ∷ []
    insert x (y ∷ ys) = if less x y then y ∷ insert x ys else x ∷ y ∷ ys

    -- What the loop leaves alone.
    sift-above : (pos : ℕ) (v : ℕ → V) (i : ℕ) → pos < i → sift less v pos i ≡ v i
    unfolding sift
    sift-above zero v i h = refl
    sift-above (suc pos) v i h = elim (Bool-cases (less (v (suc pos)) (v pos))) [
      | inl e ↦ rw e (
          sift-above pos _ i (omega arith)
          ∙ store-other (store v pos (v (suc pos))) (suc pos) (v pos) i (λ k. omega arith)
          ∙ store-other v pos (v (suc pos)) i (λ k. omega arith))
      | inr e ↦ rw e refl
    ]

    sift-insert :
        (pos : ℕ) (v : ℕ → V) → back (suc pos) (sift less v pos) ≡ insert (v pos) (back pos v)
    unfolding sift insert
    sift-insert zero v = refl
    sift-insert (suc pos) v = elim (Bool-cases (less (v (suc pos)) (v pos))) [
      | inl e ↦
          let w = store (store v pos (v (suc pos))) (suc pos) (v pos) in
          let top : sift less w pos (suc pos) ≡ v pos =
            sift-above pos w (suc pos) (omega arith)
            ∙ store_self (store v pos (v (suc pos))) (suc pos) (v pos) in
          let moved : w pos ≡ v (suc pos) =
            store-other (store v pos (v (suc pos))) (suc pos) (v pos) pos (λ k. omega arith)
            ∙ store_self v pos (v (suc pos)) in
          let below : back pos w ≡ back pos v =
            back-store pos (store v pos (v (suc pos))) (suc pos) (v pos) (omega arith)
            ∙ back-store pos v pos (v (suc pos)) (omega arith) in
          rw e (ap₂ ◌∷◌ top (sift-insert pos w ∙ ap₂ insert moved below))
      | inr e ↦ rw e refl
    ]

    -- A new value in the place of the last one, or behind it.
    sift-store :
        (n : ℕ) (v : ℕ → V) (x : V) → back (suc n) (sift less (store v n x) n) ≡ insert x (back n v)
    sift-store n v x =
        sift-insert n (store v n x)
        ∙ ap₂ insert (store_self v n x) (back-store n v n x (omega arith))

    -- The kept values, the greatest first, with one more: while there are fewer than `k` it joins
    -- them, and then it takes the place of the greatest if that is greater.
    abbrev pub kept_with : List V → V → List V
    kept_with [] x = []
    kept_with (y ∷ ys) x = if less x y then insert x ys else y ∷ ys

    pub added-insert :
        (k n : ℕ) (v : ℕ → V) (x : V)
        → n < k
        → back (suc n) (added less k n v x) ≡ insert x (back n v)
    unfolding added
    added-insert k n v x h = rw (lt→ltb n k h) (sift-store n v x)

    pub added-kept_with :
        (k n : ℕ) (v : ℕ → V) (x : V) → k ≤ n → back k (added less k n v x) ≡ kept_with (back k v) x
    unfolding added
    added-kept_with zero n v x h = refl
    added-kept_with (suc j) n v x h =
        let last : suc j - 1 ≡ j = omega arith in
        rw (le→ltb n (suc j) h, last)
          (elim (Bool-cases (less x (v j))) [ inl e ↦ rw e (sift-store j v x) | inr e ↦ rw e refl ])
