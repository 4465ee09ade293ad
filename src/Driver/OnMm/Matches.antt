-- ===== src/Driver/OnMm/Matches.antt =====
-- The payloads that the driver asked for, against the blocks that the client of mm.c holds.
use orga_del_computador.Base.{
  ℕ, ◌+◌, ◌-◌, ◌%◌, ◌≤◌, ◌<◌, ◌≡◌, sym, ap, ◌⊎◌, inl, inr, arith, List, [], ◌∷◌, ◌++◌,
}
use mathlib.Core.Path.{subst}
use orga_del_computador.Mm.Live.Apart.{Apart, Apart-below}
use orga_del_computador.Driver.Ranges.{is_aligned}
use orga_del_computador.Driver.Contract.{All, IsClear, AreSound}
use orga_del_computador.Driver.OnMm.Insertion.{Inserts, Inserts-swap, All-Inserts}

-- Each payload has a block of its own, with room for two tags; no block is left.
abbrev pub Matches : List (ℕ × ℕ) → List (ℕ × ℕ) → Type 0
Matches [] hs = hs ≡ []
Matches ((ptr, size) ∷ xs) hs =
    (s : ℕ) × (rest : List (ℕ × ℕ)) × (size + 16 ≤ s) × Inserts (ptr, s) rest hs × Matches xs rest

pub Matches-remove :
    (before : List (ℕ × ℕ)) (ptr size : ℕ) (after hs : List (ℕ × ℕ))
    → Matches (before ++ ((ptr, size) ∷ after)) hs
    → (s : ℕ) × (rest : List (ℕ × ℕ)) × Inserts (ptr, s) rest hs × Matches (before ++ after) rest
Matches-remove [] ptr size after hs (s, rest, room, i, m) = (s, rest, i, m)
Matches-remove ((q, n) ∷ before) ptr size after hs (t, rest, room, i, m) =
    let (s, left, j, m') = Matches-remove before ptr size after rest m in
    let (ws, k, l) = Inserts-swap (q, t) (ptr, s) rest hs left i j in
    (s, ws, k, (t, left, room, l, m'))

-- Payloads behind a block are behind all that starts in it.
IsClear-Matches :
    (ptr size s : ℕ) (xs hs : List (ℕ × ℕ))
    → size ≤ s
    → IsClear ptr s hs
    → Matches xs hs
    → IsClear ptr size xs
IsClear-Matches ptr size s [] hs fits clear m = tt
IsClear-Matches ptr size s ((q, n) ∷ xs) hs fits clear (t, rest, room, i, m) =
    let (apart, clear') =
      All-Inserts (λ (x : ℕ × ℕ). (ptr + s ≤ x.0) ⊎ (x.0 + x.1 ≤ ptr)) (q, t) rest hs clear i in
    (omega arith, IsClear-Matches ptr size s xs rest fits clear' m)

-- One block of blocks that follow one another.
record Placed (lo hi : ℕ) (x : ℕ × ℕ) (xs : List (ℕ × ℕ)) : Type 0 where
  pub low : lo ≤ x.0
  pub high : x.0 + x.1 ≤ hi
  pub aligned : (x.0 - lo) % 16 ≡ 0
  pub clear : IsClear x.0 x.1 xs
  pub others : Apart lo hi xs

-- All blocks from `lo` on lie behind a block that ends at `lo`.
Apart-behind :
    (ptr s lo hi : ℕ) (xs : List (ℕ × ℕ)) → ptr + s ≤ lo → Apart lo hi xs → IsClear ptr s xs
Apart-behind ptr s lo hi [] h a = tt
Apart-behind ptr s lo hi ((q, t) ∷ xs) h (a, b, c, d, r) =
    (inl (omega arith), Apart-behind ptr s (q + t) hi xs (omega arith) r)

Apart-top : (lo hi : ℕ) (xs : List (ℕ × ℕ)) → Apart lo hi xs → lo ≤ hi
Apart-top lo hi [] a = a
Apart-top lo hi ((q, s) ∷ xs) (a, b, c, d, r) = omega (arith, Apart-top (q + s) hi xs r)

Apart-Placed :
    (lo hi ptr s : ℕ) (xs ys : List (ℕ × ℕ))
    → Apart lo hi ys
    → Inserts (ptr, s) xs ys
    → Placed lo hi (ptr, s) xs
Apart-Placed lo hi ptr s xs [] a i = elim i [ ]
Apart-Placed lo hi ptr s xs ((q, t) ∷ ys) (a, b, c, d, r) (inl (e, f)) =
    let at : ptr ≡ q = ap (λ (z : ℕ × ℕ). z.0) e in
    let long : s ≡ t = ap (λ (z : ℕ × ℕ). z.1) e in
    record {
      low = omega arith;
      high = omega (arith, Apart-top (q + t) hi ys r);
      aligned = rw at b;
      clear = subst (IsClear ptr s) (sym f) (Apart-behind ptr s (q + t) hi ys (omega arith) r);
      others =
          subst (Apart lo hi) (sym f) (Apart-below lo (q + t) hi ys (omega arith) (omega arith) r);
    }
Apart-Placed lo hi ptr s xs ((q, t) ∷ ys) (a, b, c, d, r) (inr (zs, e, i)) =
    let p = Apart-Placed (q + t) hi ptr s zs ys r i in
    record {
      low = omega (arith, p.low);
      high = p.high;
      aligned = omega (arith, p.low, p.aligned);
      clear = subst (IsClear ptr s) (sym e) (inr (omega (arith, p.low)), p.clear);
      others = subst (Apart lo hi) (sym e) (a, b, c, d, p.others);
    }

-- The payloads are sound for the driver.
pub AreSound-Matches :
    (start lo hi : ℕ) (xs hs : List (ℕ × ℕ))
    → start ≤ lo
    → lo % 8 ≡ 0
    → 0 < hi
    → Apart lo hi hs
    → Matches xs hs
    → All (λ (x : ℕ × ℕ). 0 < x.1) xs
    → AreSound start (hi - 1) xs
unfolding is_aligned
AreSound-Matches start lo hi [] hs below eight top a m pos = tt
AreSound-Matches start lo hi ((ptr, size) ∷ xs) hs below eight top a (s, rest, room, i, m)
      (pos, more) =
    let p = Apart-Placed lo hi ptr s rest hs a i in
    (
      pos,
      ground (arith, p.low, p.aligned),
      omega (arith, p.low),
      omega (arith, p.high),
      IsClear-Matches ptr size s xs rest (omega arith) p.clear m,
      AreSound-Matches start lo hi xs rest below eight top p.others m more,
    )
