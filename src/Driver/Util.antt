-- ===== src/Driver/Util.antt =====
-- `eval_mm_util` on an allocator that keeps the contract: its sums, against the sizes in use.
use orga_del_computador.Base.{
  ap₂, ℕ, ◌+◌, ◌^◌, ◌≤◌, ◌<◌, ◌≡◌, refl, sym, ◌∙◌, ap, ◌⊎◌, inl, inr, arith, none, List, [], ◌∷◌,
  ◌++◌, u32, ◌-◌, false,
}
use mathlib.Core.Path.{subst}
use orga_del_computador.Mm.Run.{Run, ok, exit}
use orga_del_computador.Driver.Package.{Package}
use orga_del_computador.Driver.Trace.{
  Request, alloc, free, realloc, TraceOp, Driver, size_t_of-small, assign, remember,
}
use orga_del_computador.Driver.Contract.{All, Contract}
use orga_del_computador.Driver.Legal.{IsLegal, LegalOp, indexes_after, has_index}
use orga_del_computador.Driver.Held.{
  Held, payloads, indexes, sized, payloads-append, find_index, All-middle,
}
use orga_del_computador.Driver.Measure.{Sizes, grow, util_op, util_alloc, util_loop, eval_mm_util}
use orga_del_computador.Driver.Peak.{
  sized_after, sum, larger, peak, sum-middle, sum-le-peak, peak-nil, peak-behind, larger-le,
  larger-lt, larger_zero, larger-absorbs,
}

-- `grow` on sums that an `int` holds.
grow-max :
    (s : Sizes) (total : ℕ)
    → s.max_total_size < 2 ^ 31
    → total < 2 ^ 31
    → (grow s total).max_total_size ≡ larger s.max_total_size total
unfolding grow larger
grow-max s total h k = ground arith

module _ (p : Package) (c : Contract p) where
  -- What the driver keeps agrees with the allocated blocks, and the sum with their sizes.
  record Adds (d : Driver p) (total : ℕ) (bs : List Held) : Type 0 where
    holds : c.Holds d.mem (payloads bs)
    arrays : All (λ (b : Held). (d.blocks b.index ≡ b.ptr) × (d.block_sizes b.index ≡ b.size)) bs
    total_eq : total ≡ sum (sized bs)

  -- The array of the others when a new index is assigned.
  remember-others :
      (d : Driver p) (i ptr size : ℕ) (bs : List Held)
      → has_index i (indexes bs) ≡ false
      → All (λ (b : Held). (d.blocks b.index ≡ b.ptr) × (d.block_sizes b.index ≡ b.size)) bs
      → All
          (λ (b : Held).
            ((remember d i ptr size).blocks b.index ≡ b.ptr)
            × ((remember d i ptr size).block_sizes b.index ≡ b.size))
          bs
  unfolding remember assign
  remember-others d i ptr size [] new h = tt
  remember-others d i ptr size (b ∷ bs) new ((h, k), hs) =
      ((ground arith, ground arith), remember-others d i ptr size bs (ground arith) hs)

  -- A request is answered, or it is an allocation that the allocator has no room for.
  abbrev Counted : Driver p → Sizes → List Held → Request → ℕ → ℕ → Type 0
  Counted d s bs type i size =
      ((d' : Driver p) × (s' : Sizes) × (bs' : List Held) × (util_op type i size d s ≡ ok (d', s'))
        × Adds d' s'.total_size bs'
        × (indexes bs' ≡ indexes_after type i (indexes bs))
        × (sized bs' ≡ sized_after type i size (sized bs))
        × (s'.max_total_size ≡ larger s.max_total_size s'.total_size)
        × (d'.errors ≡ d.errors))
      ⊎ ((mem : p.State) × (util_op type i size d s ≡ exit)
          × (p.mm_malloc d.mem size ≡ ok (none, mem))
          × c.Full mem size)

  alloc-Counted :
      (d : Driver p) (s : Sizes) (bs : List Held) (i size : ℕ)
      → Adds d s.total_size bs
      → s.max_total_size < 2 ^ 31
      → size + sum (sized bs) < 2 ^ 31
      → LegalOp alloc i size (indexes bs)
      → Counted d s bs alloc i size
  unfolding util_op util_alloc remember assign grow
  alloc-Counted d s bs i size t low room (new, pos, small) =
      elim (c.allocates d.mem (payloads bs) size t.holds pos small) [
        | inl (mem, e, full) ↦ inr (mem, rw (size_t_of-small size small, e) refl, e, full)
        | inr (ptr, mem, e, h) ↦
            let d1 : Driver p = record d { mem = mem } in
            let same : u32 (s.total_size + size) ≡ size + sum (sized bs) =
              omega (arith, t.total_eq) in
            inl (
              remember d1 i ptr size,
              grow s (u32 (s.total_size + size)),
              record { index = i; ptr = ptr; size = size } ∷ bs,
              rw (size_t_of-small size small, e) refl,
              record {
                holds = h;
                arrays =
                    ((ground arith, ground arith), remember-others d1 i ptr size bs new t.arrays);
                total_eq = same;
              },
              refl,
              refl,
              grow-max s (u32 (s.total_size + size)) low (omega (arith, same)),
              refl,
            )
      ]

  free-Counted :
      (d : Driver p) (s : Sizes) (bs : List Held) (i size : ℕ)
      → Adds d s.total_size bs
      → s.total_size ≤ s.max_total_size
      → s.max_total_size < 2 ^ 31
      → LegalOp free i size (indexes bs)
      → Counted d s bs free i size
  unfolding util_op larger
  free-Counted d s bs i size t below low old =
      let f = find_index i bs old in
      let b = f.block in
      let t' : Adds d s.total_size (f.before ++ (b ∷ f.after)) =
        subst (Adds d s.total_size) f.whole t in
      let ((at, long), others) = All-middle _ f.before b f.after t'.arrays in
      let ptr-eq : d.blocks i ≡ b.ptr = ap d.blocks (sym f.same_index) ∙ at in
      let size-eq : d.block_sizes i ≡ b.size = ap d.block_sizes (sym f.same_index) ∙ long in
      let held = subst (c.Holds d.mem) (payloads-append f.before (b ∷ f.after)) t'.holds in
      let (mem, e, h) = c.frees d.mem (payloads f.before) b.ptr b.size (payloads f.after) held in
      let total = sum-middle f.before b f.after in
      let rest : u32 (s.total_size + 2 ^ 32 - d.block_sizes i) ≡ sum (sized (f.before ++ f.after)) =
        omega (arith, total, t'.total_eq, size-eq) in
      inl (
        record d { mem = mem },
        record s { total_size = u32 (s.total_size + 2 ^ 32 - d.block_sizes i) },
        f.before ++ f.after,
        rw (ptr-eq, e) refl,
        record {
          holds = subst (c.Holds mem) (sym (payloads-append f.before f.after)) h;
          arrays = others;
          total_eq = rest;
        },
        f.others,
        f.sizes,
        ground (arith, rest, total, t'.total_eq),
        refl,
      )

  Op-Counted :
      (d : Driver p) (s : Sizes) (bs : List Held) (type : Request) (i size : ℕ)
      → Adds d s.total_size bs
      → s.total_size ≤ s.max_total_size
      → s.max_total_size < 2 ^ 31
      → sum (sized_after type i size (sized bs)) < 2 ^ 31
      → LegalOp type i size (indexes bs)
      → Counted d s bs type i size
  Op-Counted d s bs alloc i size t below low room h = alloc-Counted d s bs i size t low room h
  Op-Counted d s bs free i size t below low room h = free-Counted d s bs i size t below low h
  Op-Counted d s bs realloc i size t below low room h = elim h [ ]

  -- Every request is answered and the maximum is the one given, or the program ends at one of the
  -- allocations, for which the allocator has no room.
  abbrev Sums : List TraceOp → Driver p → Sizes → ℕ → Run (Driver p × Sizes) → Type 0
  Sums ops d s most r =
      ((d' : Driver p) × (s' : Sizes) × (r ≡ ok (d', s'))
        × (s'.max_total_size ≡ most)
        × c.Ready d'.mem
        × (d'.errors ≡ d.errors))
      ⊎ ((before : List TraceOp) × (op : TraceOp) × (after : List TraceOp) × (d' : Driver p)
          × (s' : Sizes) × (mem : p.State) × (ops ≡ before ++ (op ∷ after))
          × (r ≡ exit)
          × (util_loop before d s ≡ ok (d', s'))
          × (p.mm_malloc d'.mem op.size ≡ ok (none, mem))
          × c.Full mem op.size)

  larger-peak :
      (most total : ℕ) (xs : List (ℕ × ℕ)) (op : TraceOp) (ops : List TraceOp)
      → sum xs ≤ most
      → total ≡ sum (sized_after op.type op.index op.size xs)
      → larger (larger most total) (peak (sized_after op.type op.index op.size xs) ops)
        ≡ larger most (peak xs (op ∷ ops))
  unfolding larger peak
  larger-peak most total xs op ops h e =
      let k = sum-le-peak (sized_after op.type op.index op.size xs) ops in ground (arith, k, e)

  util_loop-Sums :
      (ops : List TraceOp) (d : Driver p) (s : Sizes) (bs : List Held)
      → Adds d s.total_size bs
      → s.total_size ≤ s.max_total_size
      → s.max_total_size < 2 ^ 31
      → peak (sized bs) ops < 2 ^ 31
      → IsLegal (indexes bs) ops
      → Sums ops d s (larger s.max_total_size (peak (sized bs) ops)) (util_loop ops d s)
  unfolding util_loop
  util_loop-Sums [] d s bs t below low high legal = inl (
    d,
    s,
    refl,
    sym (larger-absorbs _ _ (omega (arith, t.total_eq, peak-nil (sized bs)))),
    c.again d.mem (payloads bs) t.holds,
    refl,
  )
  util_loop-Sums (op ∷ ops) d s bs t below low high (h, legal) =
      elim (Op-Counted d s bs op.type op.index op.size t below low room h) [
        | inl (d', s', bs', e, t', same, sizes, most, count) ↦
            let ends = larger-le s.max_total_size s'.total_size in
            let seen = t'.total_eq ∙ ap sum sizes in
            let rest-eq : peak (sized bs') ops ≡ peak after ops = ap (λ l. peak l ops) sizes in
            let big : s'.max_total_size < 2 ^ 31 =
              subst (λ n. n < 2 ^ 31) (sym most)
                (larger-lt _ _ _ low (omega (arith, seen, room))) in
            elim (util_loop-Sums ops d' s' bs' t' (omega (arith, most, ends.1)) big
              (omega (arith, rest-eq, behind)) (subst (λ js. IsLegal js ops) (sym same) legal)) [
                | inl (d2, s2, run, end, ready, counts) ↦ inl (
                  d2,
                  s2,
                  rw e run,
                  end
                      ∙ ap₂ larger most rest-eq
                      ∙ larger-peak s.max_total_size s'.total_size (sized bs) op ops
                          (omega (arith, t.total_eq)) seen,
                  ready,
                  counts ∙ count,
                )
                | inr (before, x, more, d2, s2, mem, whole, stops, run, none_left, full) ↦ inr (
                  op ∷ before,
                  x,
                  more,
                  d2,
                  s2,
                  mem,
                  ap (λ l. op ∷ l) whole,
                  rw e stops,
                  rw e run,
                  none_left,
                  full,
                )
              ]
        | inr (mem, e, none_left, full) ↦
            inr ([], op, ops, d, s, mem, refl, rw e refl, refl, none_left, full)
      ]
    where
      after : List (ℕ × ℕ)
      after = sized_after op.type op.index op.size (sized bs)

      behind : peak after ops < 2 ^ 31
      behind = omega (arith, peak-behind (sized bs) op ops)

      room : sum after < 2 ^ 31
      room = omega (arith, behind, sum-le-peak after ops)

  -- The program exits at the request `op`, for which the allocator has no room: the requests before
  -- it were all answered, and left a state in which `mm_malloc` returns NULL.
  abbrev pub UtilExits : List TraceOp → Driver p → Run (Driver p × ℕ × ℕ) → Type 0
  UtilExits ops d r =
      (before : List TraceOp) × (op : TraceOp) × (after : List TraceOp) × (d' : Driver p)
      × (most : ℕ) × (mem : p.State) × (ops ≡ before ++ (op ∷ after))
      × (r ≡ exit)
      × (eval_mm_util before d ≡ ok (d', most, p.mem_heapsize d'.mem))
      × (p.mm_malloc d'.mem op.size ≡ ok (none, mem))
      × c.Full mem op.size

  -- The outcome of `eval_mm_util`.
  abbrev pub Utilizes : List TraceOp → Driver p → Run (Driver p × ℕ × ℕ) → Type 0
  Utilizes ops d r =
      ((d' : Driver p) × (r ≡ ok (d', peak [] ops, p.mem_heapsize d'.mem))
        × c.Ready d'.mem
        × (d'.errors ≡ d.errors))
      ⊎ UtilExits ops d r

  pub eval_mm_util-Utilizes :
      (ops : List TraceOp) (d : Driver p)
      → c.Ready d.mem
      → IsLegal [] ops
      → peak [] ops < 2 ^ 31
      → Utilizes ops d (eval_mm_util ops d)
  unfolding eval_mm_util
  eval_mm_util-Utilizes ops d ready legal room =
      let (mem, e, h) = c.starts d.mem ready in
      let d1 : Driver p = record d { mem = mem } in
      let s : Sizes = record { total_size = 0; max_total_size = 0 } in
      elim (util_loop-Sums ops d1 s [] (record { holds = h; arrays = tt; total_eq = refl })
        (omega arith) (omega arith) room legal) [
          | inl (d2, s2, run, big, again, counts) ↦ inl (
            d2,
            rw (e, run) (ap (λ n. ok (d2, n, p.mem_heapsize d2.mem)) (big ∙ larger_zero _)),
            again,
            counts,
          )
          | inr (before, x, after, d2, s2, mem', whole, stops, run, none_left, full) ↦ inr (
            before,
            x,
            after,
            d2,
            s2.max_total_size,
            mem',
            whole,
            rw (e, stops) refl,
            rw (e, run) refl,
            none_left,
            full,
          )
        ]
