-- ===== src/Driver/Peak.antt =====
-- The largest sum of the sizes in use in a trace.
use orga_del_computador.Base.{
  ℕ, ◌+◌, ◌≤◌, ◌<◌, ◌≡◌, refl, arith, List, [], ◌∷◌, ◌++◌, if◌then◌else◌, leb,
}
use orga_del_computador.Driver.Trace.{Request, alloc, free, realloc, TraceOp}
use orga_del_computador.Driver.Legal.{drop_sized}
use orga_del_computador.Driver.Held.{Held, sized}

-- The sizes in use, by index, after a request.
abbrev pub sized_after : Request → ℕ → ℕ → List (ℕ × ℕ) → List (ℕ × ℕ)
sized_after alloc i size xs = (i, size) ∷ xs
sized_after free i size xs = drop_sized i xs
sized_after realloc i size xs = xs

abbrev pub sum : List (ℕ × ℕ) → ℕ
sum [] = 0
sum ((i, size) ∷ xs) = size + sum xs

unfoldable pub larger : ℕ → ℕ → ℕ
larger a b = if leb a b then b else a

-- The largest sum of the sizes in use, from `xs` on through the requests.
unfoldable pub peak : List (ℕ × ℕ) → List TraceOp → ℕ
peak xs [] = sum xs
peak xs (op ∷ ops) = larger (sum xs) (peak (sized_after op.type op.index op.size xs) ops)

pub sum-middle :
    (xs : List Held) (b : Held) (ys : List Held)
    → sum (sized (xs ++ (b ∷ ys))) ≡ b.size + sum (sized (xs ++ ys))
sum-middle [] b ys = refl
sum-middle (x ∷ xs) b ys = omega (arith, sum-middle xs b ys)

pub sum-le-peak : (xs : List (ℕ × ℕ)) (ops : List TraceOp) → sum xs ≤ peak xs ops
unfolding peak larger
sum-le-peak xs [] = omega arith
sum-le-peak xs (op ∷ ops) = ground arith

pub peak-nil : (xs : List (ℕ × ℕ)) → peak xs [] ≡ sum xs
unfolding peak
peak-nil xs = refl

pub peak-behind :
    (xs : List (ℕ × ℕ)) (op : TraceOp) (ops : List TraceOp)
    → peak (sized_after op.type op.index op.size xs) ops ≤ peak xs (op ∷ ops)
unfolding peak larger
peak-behind xs op ops = ground arith

pub larger-le : (a b : ℕ) → (a ≤ larger a b) × (b ≤ larger a b)
unfolding larger
larger-le a b = (ground arith, ground arith)

pub larger-lt : (a b c : ℕ) → a < c → b < c → larger a b < c
unfolding larger
larger-lt a b c h k = ground arith

pub larger_zero : (a : ℕ) → larger 0 a ≡ a
unfolding larger
larger_zero a = ground arith

pub larger-absorbs : (a b : ℕ) → b ≤ a → larger a b ≡ a
unfolding larger
larger-absorbs a b h = ground arith
