-- ===== src/Fcyc/Best.antt =====
-- The kept values are the least of the samples.
use orga_del_computador.Base.{
  ℕ, zero, suc, ◌-◌, ◌≤◌, ◌≡◌, refl, sym, ◌∙◌, arith, ap, Bool, true, false, List, [], ◌∷◌, inl,
  inr, Bool-cases, length,
}
use native.Mathlib.Decide.{dec_lt}
use orga_del_computador.Driver.Contract.{All}
use orga_del_computador.Fcyc.{added}
use orga_del_computador.Fcyc.Insertion.{back, insert, kept_with, added-insert, added-kept_with}

-- The order of `double`s that are no NaN: no two are less than each other, and what is less than one
-- of them is less than all that are not less than that one.
pub record IsOrder {V : Type 0} (less : V → V → Bool) : Type 0 where
  pub asymmetric : (a b : V) → less a b ≡ true → less b a ≡ false
  pub below : (a b c : V) → less a b ≡ true → less c b ≡ false → less a c ≡ true

module _ {V : Type 0} where
  abbrev pub drop : ℕ → List V → List V
  drop zero xs = xs
  drop (suc n) [] = []
  drop (suc n) (x ∷ xs) = drop n xs

  -- The last `k` of a list.
  abbrev pub last_of : ℕ → List V → List V
  last_of k xs = drop (length xs - k) xs

  pub All-drop : (P : V → Type 0) (n : ℕ) (xs : List V) → All P xs → All P (drop n xs)
  All-drop P zero xs h = h
  All-drop P (suc n) [] h = tt
  All-drop P (suc n) (x ∷ xs) (h, hs) = All-drop P n xs hs

module _ {V : Type 0} (less : V → V → Bool) where
  -- The greatest first.
  abbrev pub IsDescending : List V → Type 0
  IsDescending [] = Unit {0}
  IsDescending (x ∷ xs) = All (λ y. less x y ≡ false) xs × IsDescending xs

  -- Samples put in order, one after the other.
  abbrev pub sort : List V → List V
  sort [] = []
  sort (x ∷ xs) = insert less x (sort xs)

  pub All-insert :
      (P : V → Type 0) (x : V) (xs : List V) → P x → All P xs → All P (insert less x xs)
  unfolding insert
  All-insert P x [] h hs = (h, tt)
  All-insert P x (y ∷ ys) h (k, hs) = elim (Bool-cases (less x y)) [
    | inl e ↦ rw e (k, All-insert P x ys h hs)
    | inr e ↦ rw e (h, (k, hs))
  ]

  length-insert : (x : V) (xs : List V) → length (insert less x xs) ≡ suc (length xs)
  unfolding insert
  length-insert x [] = refl
  length-insert x (y ∷ ys) = ground (arith, length-insert x ys)

  module _ (o : IsOrder less) where
    not_less : (a b c : V) → less a b ≡ false → less b c ≡ false → less a c ≡ false
    not_less a b c h k = elim (Bool-cases (less a c)) [
      | inl e ↦ let f = o.below a c b e k in cc
      | inr e ↦ e
    ]

    All-not_less :
        (x y : V) (ys : List V)
        → less x y ≡ false
        → All (λ z. less y z ≡ false) ys
        → All (λ z. less x z ≡ false) ys
    All-not_less x y [] e h = tt
    All-not_less x y (z ∷ zs) e (h, hs) = (not_less x y z e h, All-not_less x y zs e hs)

    -- What is less than the front is less than all.
    IsDescending-insert : (x : V) (xs : List V) → IsDescending xs → IsDescending (insert less x xs)
    unfolding insert
    IsDescending-insert x [] h = (tt, tt)
    IsDescending-insert x (y ∷ ys) (h, hs) = elim (Bool-cases (less x y)) [
      | inl e ↦ rw e (
        All-insert (λ z. less y z ≡ false) x ys (o.asymmetric x y e) h,
        IsDescending-insert x ys hs,
      )
      | inr e ↦ rw e ((e, All-not_less x y ys e h), (h, hs))
    ]

    pub sort-IsDescending : (xs : List V) → IsDescending (sort xs)
    sort-IsDescending [] = tt
    sort-IsDescending (x ∷ xs) = IsDescending-insert x (sort xs) (sort-IsDescending xs)

    -- What a value does not go before.
    kept_with-same :
        (x : V) (zs : List V) → All (λ z. less x z ≡ false) zs → kept_with less zs x ≡ zs
    kept_with-same x [] h = refl
    kept_with-same x (z ∷ zs) (h, hs) = rw h refl

    drop-insert :
        (n : ℕ) (x : V) (xs : List V)
        → IsDescending xs
        → drop (suc n) (insert less x xs) ≡ kept_with less (drop n xs) x
    unfolding insert
    drop-insert zero x [] h = refl
    drop-insert zero x (y ∷ ys) h = elim (Bool-cases (less x y)) [
      | inl e ↦ rw e refl
      | inr e ↦ rw e refl
    ]
    drop-insert (suc n) x [] h = refl
    drop-insert (suc n) x (y ∷ ys) (h, hs) = elim (Bool-cases (less x y)) [
      | inl e ↦ rw e (drop-insert n x ys hs)
      | inr e ↦
          rw e (sym (kept_with-same x (drop n ys) (All-drop _ n ys (All-not_less x y ys e h))))
    ]

  pub length-sort : (xs : List V) → length (sort xs) ≡ length xs
  length-sort [] = refl
  length-sort (x ∷ xs) = length-insert x (sort xs) ∙ ap suc (length-sort xs)

  -- The array behind a series of samples, the latest first.
  abbrev pub filled : ℕ → (ℕ → V) → List V → ℕ → V
  filled k values [] = values
  filled k values (x ∷ xs) = added less k (length xs) (filled k values xs) x

  pub filled-few :
      (k : ℕ) (values : ℕ → V) (xs : List V)
      → length xs ≤ k
      → back (length xs) (filled k values xs) ≡ sort xs
  filled-few k values [] h = refl
  filled-few k values (x ∷ xs) h =
      added-insert less k (length xs) (filled k values xs) x (omega arith)
      ∙ ap (insert less x) (filled-few k values xs (omega arith))

  drop-eq : (m n : ℕ) (xs : List V) → m ≡ n → drop m xs ≡ drop n xs
  drop-eq m n xs e = ap (λ j. drop j xs) e

  -- When the values have an order without NaN and `kbest` samples or more were added one by one,
  -- the array that `add_sample` keeps, read from its last value, is the end of the sorted list of
  -- all samples: the `kbest` least in order.
  pub filled-least :
      IsOrder less
      → (k : ℕ) (values : ℕ → V) (xs : List V) → k ≤ length xs
      → back k (filled k values xs) ≡ last_of k (sort xs)
  filled-least o zero values [] h = refl
  filled-least o (suc k) values [] h = absurd (omega arith)
  filled-least o k values (x ∷ xs) h = elim (dec_lt (length xs) k) [
    | yes fewer ↦
        let all : suc (length xs) ≡ k = omega arith in
        ap (λ j. back j (filled k values (x ∷ xs))) (sym all)
        ∙ filled-few k values (x ∷ xs) (omega arith)
        ∙ drop-eq 0 (length (sort (x ∷ xs)) - k) _ (omega (arith, length-sort (x ∷ xs)))
    | no enough ↦
        added-kept_with less k (length xs) (filled k values xs) x (omega arith)
        ∙ ap (λ l. kept_with less l x) (filled-least o k values xs (omega arith))
        ∙ sym (drop-insert o (length (sort xs) - k) x (sort xs) (sort-IsDescending o xs))
        ∙ drop-eq (suc (length (sort xs) - k)) (length (insert less x (sort xs)) - k) _
            (omega (arith, length-insert x (sort xs), length-sort xs))
  ]
