-- ===== src/Fcyc/Least.antt =====
-- The first of the kept values is the least of all samples.
use orga_del_computador.Base.{
  ℕ, zero, suc, ◌-◌, ◌<◌, ◌≡◌, refl, sym, ◌∙◌, arith, ap, Bool, true, false, List, [], ◌∷◌, inl,
  inr, Bool-cases, length,
}
use mathlib.Core.Path.{subst}
use native.Mathlib.Decide.{dec_lt}
use orga_del_computador.Driver.Contract.{All}
use orga_del_computador.Fcyc.Insertion.{back, insert}
use orga_del_computador.Fcyc.Best.{
  IsOrder, IsDescending, sort, sort-IsDescending, drop, length-sort, filled, filled-few,
  filled-least, All-insert,
}

module _ {V : Type 0} where
  abbrev last_or : V → List V → V
  last_or d [] = d
  last_or d (x ∷ xs) = last_or x xs

  All-last : (P : V → Type 0) (x : V) (xs : List V) → P x → All P xs → P (last_or x xs)
  All-last P x [] h hs = h
  All-last P x (y ∷ ys) h (k, r) = All-last P y ys k r

  last_or-back : (d : V) (n : ℕ) (v : ℕ → V) → last_or d (back (suc n) v) ≡ v 0
  last_or-back d zero v = refl
  last_or-back d (suc n) v = last_or-back (v (suc n)) n v

  last_or-drop :
      (d e : V) (n : ℕ) (xs : List V) → n < length xs → last_or d (drop n xs) ≡ last_or e xs
  last_or-drop d e n [] h = absurd (omega arith)
  last_or-drop d e zero (x ∷ xs) h = refl
  last_or-drop d e (suc n) (x ∷ xs) h = last_or-drop d x n xs (omega arith)

  All-back : (P : V → Type 0) (n : ℕ) (v : ℕ → V) → ((i : ℕ) → i < n → P (v i)) → All P (back n v)
  All-back P zero v h = tt
  All-back P (suc n) v h = (h n (omega arith), All-back P n v (λ i k. h i (omega arith)))

  back-All : (P : V → Type 0) (n : ℕ) (v : ℕ → V) → All P (back n v) → (i : ℕ) → i < n → P (v i)
  back-All P zero v h i k = absurd (omega arith)
  back-All P (suc n) v (h, hs) i k = elim (dec_lt i n) [
    | yes below ↦ back-All P n v hs i below
    | no top ↦ let e : n ≡ i = omega arith in subst (λ j. P (v j)) e h
  ]

  pub length-back : (n : ℕ) (v : ℕ → V) → length (back n v) ≡ n
  length-back zero v = refl
  length-back (suc n) v = ap suc (length-back n v)

  module _ (less : V → V → Bool) where
    insert-All : (P : V → Type 0) (x : V) (xs : List V) → All P (insert less x xs) → P x × All P xs
    unfolding insert
    insert-All P x [] h = h
    insert-All P x (y ∷ ys) h = elim (Bool-cases (less x y)) [
      | inl e ↦
          let (k, r) = subst (All P) (unfold_true e) h in
          let (a, b) = insert-All P x ys r in (a, (k, b))
      | inr e ↦ subst (All P) (unfold_false e) h
    ]
      where
        unfold_true : less x y ≡ true → insert less x (y ∷ ys) ≡ y ∷ insert less x ys
        unfold_true e = rw e refl

        unfold_false : less x y ≡ false → insert less x (y ∷ ys) ≡ x ∷ y ∷ ys
        unfold_false e = rw e refl

    All-sort : (P : V → Type 0) (xs : List V) → All P xs → All P (sort less xs)
    All-sort P [] h = tt
    All-sort P (x ∷ xs) (h, hs) = All-insert less P x (sort less xs) h (All-sort P xs hs)

    sort-All : (P : V → Type 0) (xs : List V) → All P (sort less xs) → All P xs
    sort-All P [] h = tt
    sort-All P (x ∷ xs) h = let (a, b) = insert-All P x (sort less xs) h in (a, sort-All P xs b)

    last-least :
        IsOrder less
        → (d x : V) (xs : List V) → IsDescending less (x ∷ xs)
        → All (λ y. less y (last_or x xs) ≡ false) (x ∷ xs)
    last-least o d x [] h = (same, tt)
      where
        same : less x x ≡ false
        same = elim (Bool-cases (less x x)) [ inl e ↦ o.asymmetric x x e | inr e ↦ e ]
    last-least o d x (y ∷ ys) ((h, hs), (k, r)) =
        (All-last (λ z. less x z ≡ false) y ys h hs, last-least o x y ys (k, r))

    -- The last of a list in order.
    last-All :
        IsOrder less
        → (P : V → Type 0) (d : V) (xs : List V) → 0 < length xs
        → IsDescending less xs
        → All P xs
        → P (last_or d xs) × All (λ y. less y (last_or d xs) ≡ false) xs
    last-All o P d [] h s a = absurd (omega arith)
    last-All o P d (x ∷ xs) h s (a, r) = (All-last P x xs a r, last-least o d x xs s)

    -- One of the first `n` samples that is not greater than any of them.
    pub record IsLeast (source : ℕ → V) (n : ℕ) (v : V) : Type 0 where
      pub position : ℕ
      pub early : position < n
      pub taken : v ≡ source position
      pub least : (i : ℕ) → i < n → less (source i) v ≡ false

    module _ (o : IsOrder less) (n : ℕ) (source : ℕ → V) where
      abbrev ordered : List V
      ordered = sort less (back n source)

      ordered-length : length ordered ≡ n
      ordered-length = length-sort less (back n source) ∙ length-back n source

      end-IsLeast :
          (v : ℕ → V) (m t : ℕ) → back (suc m) v ≡ drop t ordered → t < n → IsLeast source n (v 0)
      end-IsLeast v m t e h =
          let d = v 0 in
          let last : last_or d ordered ≡ v 0 =
            sym (last_or-drop d d t ordered (omega (arith, ordered-length)))
            ∙ ap (last_or d) (sym e)
            ∙ last_or-back d m v in
          let ((position, early, taken), least) =
            last-All o (λ z. (j : ℕ) × (j < n) × (z ≡ source j)) d ordered
              (omega (arith, ordered-length)) (sort-IsDescending less o (back n source))
              (All-sort _ (back n source) (All-back _ n source (λ i k. (i, k, refl)))) in
          record {
            position = position;
            early = early;
            taken = sym last ∙ taken;
            least = λ i k.
                subst (λ z. less (source i) z ≡ false) last
                  (back-All (λ y. less y (last_or d ordered) ≡ false) n source
                    (sort-All _ (back n source) least) i k);
          }

      -- The first value of the array behind `n` samples.
      pub filled-IsLeast :
          (k : ℕ) (values : ℕ → V)
          → 0 < k
          → 0 < n
          → IsLeast source n (filled less k values (back n source) 0)
      filled-IsLeast k values h g = elim (dec_lt n k) [
        | yes few ↦
            end-IsLeast array (n - 1) 0
              (ap (λ j. back j array) {x = suc (n - 1)} {y = length (back n source)}
                  (omega (arith, length-back n source))
                ∙ filled-few less k values (back n source) (omega (arith, length-back n source)))
              g
        | no most ↦
            end-IsLeast array (k - 1) (length ordered - k)
              (ap (λ j. back j array) {x = suc (k - 1)} {y = k} (omega arith)
                ∙ filled-least less o k values (back n source)
                    (omega (arith, length-back n source)))
              (omega (arith, ordered-length))
      ]
        where
          array : ℕ → V
          array = filled less k values (back n source)
