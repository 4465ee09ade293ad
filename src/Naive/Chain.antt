-- ===== src/Naive/Chain.antt =====
-- The rounding of mm-naive.c, and the blocks that it has handed out.
use orga_del_computador.Base.{
  ℕ, ◌+◌, ◌-◌, ◌*◌, ◌/◌, ◌%◌, ◌^◌, ◌≤◌, ◌<◌, ◌≡◌, ◌∙◌, inr, arith, List, [], ◌∷◌, ◌++◌,
}
use orga_del_computador.Base.Bits.{bit_and_mask, bit_and_shifted}
use orga_del_computador.Driver.Ranges.{is_aligned}
use orga_del_computador.Driver.Contract.{IsClear, AreSound}
use orga_del_computador.Naive.{align}
use orga_del_computador.Naive.Memory.{Bytes, load_size, load_size_same}

-- Rounding up to a multiple of 8.
pub align-eq : (n : ℕ) → n + 7 < 2 ^ 64 → align n ≡ (n + 7) / 8 * 8
unfolding align
align-eq n small =
    ground (arith, bit_and_shifted 3 (2 ^ 61 - 1) (n + 7), bit_and_mask 61 ((n + 7) / 8))

-- The blocks, the newest first: each ends below `hi` and starts behind its size, above the others.
abbrev pub Chain : Bytes → ℕ → ℕ → List (ℕ × ℕ) → Type 0
Chain m start hi [] = start ≤ hi
Chain m start hi ((p, s) ∷ xs) =
    (0 < s)
    × (p % 8 ≡ 0)
    × (8 ≤ p)
    × (p + s ≤ hi)
    × (load_size m (p - 8) ≡ s)
    × Chain m start (p - 8) xs

module _ (m : Bytes) (start : ℕ) where
  pub Chain-top : (hi : ℕ) (xs : List (ℕ × ℕ)) → Chain m start hi xs → start ≤ hi
  Chain-top hi [] c = c
  Chain-top hi ((p, s) ∷ xs) (pos, al, low, high, size, c) = omega (arith, Chain-top (p - 8) xs c)

  Chain-weaken :
      (hi hi' : ℕ) (xs : List (ℕ × ℕ)) → hi ≤ hi' → Chain m start hi xs → Chain m start hi' xs
  Chain-weaken hi hi' [] h c = omega arith
  Chain-weaken hi hi' ((p, s) ∷ xs) h (pos, al, low, high, size, c) =
      (pos, al, low, omega arith, size, c)

  -- A block that is given back is forgotten.
  pub Chain-drop :
      (hi : ℕ) (before : List (ℕ × ℕ)) (x : ℕ × ℕ) (after : List (ℕ × ℕ))
      → Chain m start hi (before ++ (x ∷ after))
      → Chain m start hi (before ++ after)
  Chain-drop hi [] (p, s) after (pos, al, low, high, size, c) =
      Chain-weaken (p - 8) hi after (omega arith) c
  Chain-drop hi ((q, t) ∷ before) x after (pos, al, low, high, size, c) =
      (pos, al, low, high, size, Chain-drop (q - 8) before x after c)

  -- What is written above the blocks leaves them.
  pub Chain-same :
      (m' : Bytes) (hi : ℕ) (xs : List (ℕ × ℕ))
      → ((a : ℕ) → a < hi → m' a ≡ m a)
      → Chain m start hi xs
      → Chain m' start hi xs
  Chain-same m' hi [] same c = c
  Chain-same m' hi ((p, s) ∷ xs) same (pos, al, low, high, size, c) = (
    pos,
    al,
    low,
    high,
    load_size_same m m' (p - 8) (λ a h k. same a (omega arith)) ∙ size,
    Chain-same m' (p - 8) xs (λ a h. same a (omega arith)) c,
  )

  Chain-IsClear : (hi p s : ℕ) (xs : List (ℕ × ℕ)) → hi ≤ p → Chain m start hi xs → IsClear p s xs
  Chain-IsClear hi p s [] h c = tt
  Chain-IsClear hi p s ((q, t) ∷ xs) h (pos, al, low, high, size, c) =
      (inr (omega arith), Chain-IsClear (q - 8) p s xs (omega arith) c)

  pub Chain-AreSound :
      (hi top : ℕ) (xs : List (ℕ × ℕ))
      → hi ≤ top
      → Chain m start hi xs
      → AreSound start (top - 1) xs
  unfolding is_aligned
  Chain-AreSound hi top [] h c = tt
  Chain-AreSound hi top ((p, s) ∷ xs) h (pos, al, low, high, size, c) = (
    pos,
    ground arith,
    omega (arith, Chain-top (p - 8) xs c),
    omega arith,
    Chain-IsClear (p - 8) p s xs (omega arith) c,
    Chain-AreSound (p - 8) top xs (omega arith) c,
  )
