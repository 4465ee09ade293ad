-- ===== src/Naive/Copy.antt =====
-- The copy of `mm_realloc` of mm-naive.c.
use orga_del_computador.Base.{
  ℕ, ◌+◌, ◌-◌, ◌^◌, ◌≤◌, ◌<◌, ◌≡◌, refl, ◌∙◌, ap, ◌⊎◌, inl, inr, arith, none, some, List, [], ◌∷◌,
  ◌++◌, ltb, if◌then◌else◌, min,
}
use orga_del_computador.Naive.{Naive, mm_realloc, realloc_with}
use orga_del_computador.Naive.Memory.{
  Bytes, load_size, memcpy, bytes_at, bytes_at_same, load_size_same, store_size-outside,
}
use orga_del_computador.Naive.Chain.{Chain}
use orga_del_computador.Naive.Keeps.{
  HoldsChain, IsFull, granted, naive_allocates, HoldsChain-payload,
}

-- A block that is held, wherever it stands in the list.
record Old (m : Bytes) (hi ptr old : ℕ) : Type 0 where
  pub low : 8 ≤ ptr
  pub high : ptr + old ≤ hi
  pub own : load_size m (ptr - 8) ≡ old

Chain-Old :
    (m : Bytes) (start hi : ℕ) (before : List (ℕ × ℕ)) (ptr old : ℕ) (after : List (ℕ × ℕ))
    → Chain m start hi (before ++ ((ptr, old) ∷ after))
    → Old m hi ptr old
Chain-Old m start hi [] ptr old after (pos, al, low, high, size, c) = record {
  low = low;
  high = high;
  own = size;
}
Chain-Old m start hi ((q, t) ∷ before) ptr old after (pos, al, low, high, size, c) =
    let o = Chain-Old m start (q - 8) before ptr old after c in
    record { low = o.low; high = omega (arith, o.high); own = o.own }

-- The outcome of a reallocation of the block `ptr` with `old` bytes to `size` bytes.
abbrev pub Reallocated : Naive → ℕ → ℕ → ℕ → List (ℕ × ℕ) → Type 0
Reallocated m ptr old size xs =
    ((m' : Naive) × (mm_realloc m ptr size ≡ (none, m')) × IsFull m' size)
    ⊎ ((m' : Naive) × (mm_realloc m ptr size ≡ (some (m.sim.mem_brk + 8), m'))
        × HoldsChain m' ((m.sim.mem_brk + 8, size) ∷ xs)
        × (bytes_at m'.bytes (m.sim.mem_brk + 8) (min size old)
            ≡ bytes_at m.bytes ptr (min size old))
        × (bytes_at m'.bytes 0 m.sim.mem_brk ≡ bytes_at m.bytes 0 m.sim.mem_brk))

module _ (m : Naive) (before : List (ℕ × ℕ)) (ptr old : ℕ) (after : List (ℕ × ℕ)) (size : ℕ)
    (x : HoldsChain m (before ++ ((ptr, old) ∷ after))) (pos : 0 < size)
    (small : size < 2 ^ 31) where
  abbrev xs : List (ℕ × ℕ)
  xs = before ++ ((ptr, old) ∷ after)

  abbrev newptr : ℕ
  newptr = m.sim.mem_brk + 8

  abbrev copied : ℕ
  copied = min size old

  o : Old m.bytes m.sim.mem_brk ptr old
  o = Chain-Old m.bytes m.sim.mem_start_brk m.sim.mem_brk before ptr old after x.chain

  abbrev moved : Naive
  moved = record (granted m size) { bytes = memcpy (granted m size).bytes newptr ptr copied }

  size-eq : load_size (granted m size).bytes (ptr - 8) ≡ old
  size-eq =
      load_size_same m.bytes (granted m size).bytes (ptr - 8) (λ a h k.
        store_size-outside m.bytes m.sim.mem_brk size a (inl (omega (arith, o.low, o.high))))
      ∙ o.own

  smaller-min : (if ltb size old then size else old) ≡ min size old
  smaller-min = ground arith

  copied-eq : realloc_with ptr size (some newptr, granted m size) ≡ (some newptr, moved)
  unfolding realloc_with
  copied-eq = rw (size-eq, smaller-min) refl

  -- `mm_realloc` of mm-naive.c on a block that is held, with a size from 1 to 2^31 - 1, either
  -- returns NULL because the heap is full, or returns a new block behind all others that starts
  -- with the bytes of the old one, as many as both have room for, while no byte below the former
  -- break changes and every block is still held.
  pub mm_realloc-copies : Reallocated m ptr old size xs
  unfolding mm_realloc memcpy
  mm_realloc-copies = elim (naive_allocates m xs size x pos small) [
    | inl (m', e, full) ↦ inl (m', rw e refl, full)
    | inr (e, held) ↦ inr (
      moved,
      ap (realloc_with ptr size) e ∙ copied-eq,
      HoldsChain-payload (granted m size) (memcpy (granted m size).bytes newptr ptr copied) newptr
          size xs (λ a h. ground arith) held,
      bytes_at_same m.bytes moved.bytes ptr newptr copied
          (λ j h. kept j (ground arith) (ground arith)),
      bytes_at_same m.bytes moved.bytes 0 0 m.sim.mem_brk (λ a h. below (0 + a) (omega arith)),
    )
  ]
    where
      below : (a : ℕ) → a < m.sim.mem_brk → moved.bytes a ≡ m.bytes a
      below a h = ground (arith, store_size-outside m.bytes m.sim.mem_brk size a (inl h))

      kept : (j : ℕ) → j < size → j < old → moved.bytes (newptr + j) ≡ m.bytes (ptr + j)
      kept j h k =
          let back : newptr + j - newptr ≡ j = omega arith in
          let out =
            store_size-outside m.bytes m.sim.mem_brk size (ptr + j) (inl (omega (arith, o.high))) in
          ground (arith, back, out)
