-- ===== src/Driver/Contract.antt =====
-- What a client may rely on: the contract between the driver and an allocator.
use orga_del_computador.Base.{
  ℕ, ◌+◌, ◌^◌, ◌≤◌, ◌<◌, ◌≡◌, ◌⊎◌, true, none, some, List, [], ◌∷◌, ◌++◌,
}
use orga_del_computador.Mm.Run.{ok}
use orga_del_computador.Driver.Package.{Package}
use orga_del_computador.Driver.Ranges.{is_aligned}

abbrev pub All {ℓ} : {A : Type ℓ} → (A → Type 0) → List A → Type 0
All P [] = Unit {0}
All P (x ∷ xs) = P x × All P xs

-- The payload of `size` bytes at `ptr` has no byte in common with the others.
abbrev pub IsClear : ℕ → ℕ → List (ℕ × ℕ) → Type 0
IsClear ptr size = All (λ x. (ptr + size ≤ x.0) ⊎ (x.0 + x.1 ≤ ptr))

-- Payloads, by address and size, that are aligned, lie between `lo` and `hi`, both included, and do
-- not overlap.
abbrev pub AreSound : ℕ → ℕ → List (ℕ × ℕ) → Type 0
AreSound lo hi [] = Unit {0}
AreSound lo hi ((ptr, size) ∷ xs) =
    (0 < size)
    × (is_aligned ptr ≡ true)
    × (lo ≤ ptr)
    × (ptr + size ≤ hi + 1)
    × IsClear ptr size xs
    × AreSound lo hi xs

-- `Holds s xs`: in the state `s` the client holds the payloads `xs`. `Full s size` says why a
-- request that left the state `s` may fail.
pub record Contract (p : Package) : Type 1 where
  pub Ready : p.State → Type 0
  pub Holds : p.State → List (ℕ × ℕ) → Type 0
  pub Full : p.State → ℕ → Type 0
  pub sound :
      (s : p.State) (xs : List (ℕ × ℕ))
      → Holds s xs
      → AreSound (p.mem_heap_lo s) (p.mem_heap_hi s) xs
  pub starts :
      (s : p.State)
      → Ready s
      → (s' : p.State) × (p.mm_init (p.mem_reset_brk s) ≡ ok (true, s')) × Holds s' []
  pub allocates :
      (s : p.State) (xs : List (ℕ × ℕ)) (size : ℕ)
      → Holds s xs
      → 0 < size
      → size < 2 ^ 31
      → (((s' : p.State) × (p.mm_malloc s size ≡ ok (none, s')) × Full s' size)
          ⊎ ((ptr : ℕ) × (s' : p.State) × (p.mm_malloc s size ≡ ok (some ptr, s'))
              × Holds s' ((ptr, size) ∷ xs)))
  pub frees :
      (s : p.State) (before : List (ℕ × ℕ)) (ptr size : ℕ) (after : List (ℕ × ℕ))
      → Holds s (before ++ ((ptr, size) ∷ after))
      → (s' : p.State) × (p.mm_free s ptr ≡ ok s') × Holds s' (before ++ after)
  pub again : (s : p.State) (xs : List (ℕ × ℕ)) → Holds s xs → Ready s
  pub writes :
      (s : p.State) (ptr size value : ℕ) (xs : List (ℕ × ℕ))
      → Holds s ((ptr, size) ∷ xs)
      → Holds (p.memset s ptr value size) ((ptr, size) ∷ xs)
