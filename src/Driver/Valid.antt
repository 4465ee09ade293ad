-- ===== src/Driver/Valid.antt =====
-- `eval_mm_valid` on an allocator that keeps the contract.
use orga_del_computador.Base.{
  ℕ, ◌+◌, ◌-◌, ◌^◌, ◌<◌, ◌≡◌, refl, sym, ◌∙◌, ap, ◌⊎◌, inl, inr, arith, Bool, true, false, none,
  List, [], ◌∷◌, ◌++◌, bit_and, le→ltb,
}
use mathlib.Core.Path.{subst}
use orga_del_computador.DataLab.Ints.{slt}
use orga_del_computador.Mm.Run.{Run, ok, ◌>>=◌}
use orga_del_computador.Driver.Package.{Package}
use orga_del_computador.Driver.Trace.{
  Request, alloc, free, realloc, TraceOp, Driver, size_t_of-small, assign, malloc_error,
}
use orga_del_computador.Driver.Ranges.{add_range, remove_range}
use orga_del_computador.Driver.Contract.{All, AreSound, Contract}
use orga_del_computador.Driver.Legal.{IsLegal, LegalOp, indexes_after, has_index}
use orga_del_computador.Driver.Held.{
  Held, payloads, ranges_of, indexes, payloads-append, find_index, All-middle, overlaps_any-clear,
  remove_range-held,
}
use orga_del_computador.Driver.Eval.{
  alloc_checked, fill, valid_op, valid_loop, valid_after_init, eval_mm_valid,
}

slt-positive : (size : ℕ) → 0 < size → size < 2 ^ 31 → slt 0 size ≡ true
slt-positive size pos small = ground arith

module _ (p : Package) (c : Contract p) where
  -- What the driver keeps agrees with the allocated blocks.
  pub record Tracks (d : Driver p) (bs : List Held) : Type 0 where
    pub holds : c.Holds d.mem (payloads bs)
    pub ranges : d.ranges ≡ ranges_of bs
    pub arrays : All (λ (b : Held). d.blocks b.index ≡ b.ptr) bs

  -- A new payload passes the tests of `add_range`.
  add_range_sound :
      (d : Driver p) (ptr size : ℕ) (bs : List Held)
      → d.ranges ≡ ranges_of bs
      → size < 2 ^ 31
      → AreSound (p.mem_heap_lo d.mem) (p.mem_heap_hi d.mem) ((ptr, size) ∷ payloads bs)
      → add_range d ptr size
        ≡ ok (true, record d { ranges = record { lo = ptr; hi = ptr + size - 1 } ∷ d.ranges })
  unfolding add_range
  add_range_sound d ptr size bs same small (pos, aligned, low, high, clear, sound) =
      let clear_of =
        overlaps_any-clear (p.mem_heap_lo d.mem) (p.mem_heap_hi d.mem) ptr size bs pos clear
          sound in
      rw
        (
          slt-positive size pos small,
          aligned,
          le→ltb ptr (p.mem_heap_lo d.mem) low,
          le→ltb (p.mem_heap_hi d.mem) ptr (omega arith),
          le→ltb (ptr + size - 1) (p.mem_heap_lo d.mem) (omega arith),
          le→ltb (p.mem_heap_hi d.mem) (ptr + size - 1) (omega arith),
          same,
          clear_of,
        )
        refl

  pub assign-same : (blocks : ℕ → ℕ) (i ptr : ℕ) → assign blocks i ptr i ≡ ptr
  unfolding assign
  assign-same blocks i ptr = ground arith

  -- The arrays of the trace keep the other blocks when a new index is assigned.
  pub assign-others :
      (blocks : ℕ → ℕ) (i ptr : ℕ) (bs : List Held)
      → has_index i (indexes bs) ≡ false
      → All (λ (b : Held). blocks b.index ≡ b.ptr) bs
      → All (λ (b : Held). assign blocks i ptr b.index ≡ b.ptr) bs
  unfolding assign
  assign-others blocks i ptr [] new h = tt
  assign-others blocks i ptr (b ∷ bs) new (h, hs) =
      (ground arith, assign-others blocks i ptr bs (ground arith) hs)

  -- A request is answered, or it is an allocation that the allocator has no room for.
  abbrev Stepped : Driver p → List Held → Request → ℕ → ℕ → Type 0
  Stepped d bs type i size =
      ((d' : Driver p) × (bs' : List Held) × (valid_op type i size d ≡ ok (true, d'))
        × Tracks d' bs'
        × (indexes bs' ≡ indexes_after type i (indexes bs))
        × (d'.errors ≡ d.errors))
      ⊎ ((d' : Driver p) × (valid_op type i size d ≡ ok (false, d'))
          × (d'.errors ≡ d.errors + 1)
          × (p.mm_malloc d.mem size ≡ ok (none, d'.mem))
          × c.Full d'.mem size)

  alloc-Stepped :
      (d : Driver p) (bs : List Held) (i size : ℕ)
      → Tracks d bs
      → LegalOp alloc i size (indexes bs)
      → Stepped d bs alloc i size
  unfolding valid_op
  alloc-Stepped d bs i size t (new, pos, small) =
      elim (c.allocates d.mem (payloads bs) size t.holds pos small) [
        | inl (s', e, full) ↦ inr (
          malloc_error (record d { mem = s' }),
          rw (size_t_of-small size small, e) refl,
          refl,
          e,
          full,
        )
        | inr (ptr, s', e, h') ↦
            let d1 : Driver p = record d { mem = s' } in
            let added =
              add_range_sound d1 ptr size bs t.ranges small
                (c.sound s' ((ptr, size) ∷ payloads bs) h') in
            inl (
              fill i size ptr
                  (record d1 { ranges = record { lo = ptr; hi = ptr + size - 1 } ∷ d.ranges }),
              record { index = i; ptr = ptr; size = size } ∷ bs,
              rw (size_t_of-small size small, e)
                  (ap (λ r. r >>= λ a. alloc_checked i size ptr a) added),
              record {
                holds = c.writes s' ptr size (bit_and i 0xFF) (payloads bs) h';
                ranges = ap (λ l. record { lo = ptr; hi = ptr + size - 1 } ∷ l) t.ranges;
                arrays = (assign-same d.blocks i ptr, assign-others d.blocks i ptr bs new t.arrays);
              },
              refl,
              refl,
            )
      ]

  free-Stepped :
      (d : Driver p) (bs : List Held) (i size : ℕ)
      → Tracks d bs
      → LegalOp free i size (indexes bs)
      → Stepped d bs free i size
  unfolding valid_op
  free-Stepped d bs i size t old =
      let f = find_index i bs old in
      let b = f.block in
      let t' : Tracks d (f.before ++ (b ∷ f.after)) = subst (Tracks d) f.whole t in
      let (at, others) =
        All-middle (λ (b : Held). d.blocks b.index ≡ b.ptr) f.before b f.after t'.arrays in
      let ptr-eq : d.blocks i ≡ b.ptr = ap d.blocks (sym f.same_index) ∙ at in
      let held = subst (c.Holds d.mem) (payloads-append f.before (b ∷ f.after)) t'.holds in
      let (s', e, h') = c.frees d.mem (payloads f.before) b.ptr b.size (payloads f.after) held in
      inl (
        record d { mem = s'; ranges = remove_range d.ranges (d.blocks i) },
        f.before ++ f.after,
        rw (ptr-eq, e) refl,
        record {
          holds = subst (c.Holds s') (sym (payloads-append f.before f.after)) h';
          ranges =
              rw (ptr-eq, t'.ranges)
                (remove_range-held _ _ f.before b f.after (c.sound d.mem _ t'.holds));
          arrays = others;
        },
        f.others,
        refl,
      )

  Op-Stepped :
      (d : Driver p) (bs : List Held) (type : Request) (i size : ℕ)
      → Tracks d bs
      → LegalOp type i size (indexes bs)
      → Stepped d bs type i size
  Op-Stepped d bs alloc i size t h = alloc-Stepped d bs i size t h
  Op-Stepped d bs free i size t h = free-Stepped d bs i size t h
  Op-Stepped d bs realloc i size t h = elim h [ ]

  -- The run ends at the request `op`, for which the allocator has no room: the requests before it
  -- were all answered, and left the state `d1` in which `mm_malloc` returns NULL. `run` is the code
  -- on a list of requests, from the state `d`.
  abbrev pub Refuses : (List TraceOp → Run (Bool × Driver p)) → List TraceOp → Driver p → Type 0
  Refuses run ops d =
      (before : List TraceOp) × (op : TraceOp) × (after : List TraceOp) × (d1 : Driver p)
      × (d' : Driver p) × (ops ≡ before ++ (op ∷ after))
      × (run before ≡ ok (true, d1))
      × (p.mm_malloc d1.mem op.size ≡ ok (none, d'.mem))
      × c.Full d'.mem op.size
      × (run ops ≡ ok (false, d'))
      × (d'.errors ≡ d.errors + 1)

  -- Every check passes, or the run ends at one of the requests, for which the allocator has no room.
  abbrev Goes : (List TraceOp → Run (Bool × Driver p)) → List TraceOp → Driver p → Type 0
  Goes run ops d =
      ((d' : Driver p) × (bs : List Held) × (run ops ≡ ok (true, d'))
        × Tracks d' bs
        × (d'.errors ≡ d.errors))
      ⊎ Refuses run ops d

  -- The outcome of `eval_mm_valid`.
  abbrev pub Passes : List TraceOp → Driver p → Type 0
  Passes ops d = Goes (λ ops. eval_mm_valid ops d) ops d

  -- A request in front that was answered.
  Goes-behind :
      (op : TraceOp) (ops : List TraceOp) (d d' : Driver p)
      → valid_op op.type op.index op.size d ≡ ok (true, d')
      → d'.errors ≡ d.errors
      → Goes (λ ops. valid_loop ops d') ops d'
      → Goes (λ ops. valid_loop ops d) (op ∷ ops) d
  unfolding valid_loop
  Goes-behind op ops d d' e count (inl (d2, bs, run, t, same)) =
      inl (d2, bs, rw e run, t, same ∙ count)
  Goes-behind op ops d d' e count
        (inr (before, x, after, d1, d2, whole, run, none_left, full, stops, more)) =
      inr (
        op ∷ before,
        x,
        after,
        d1,
        d2,
        ap (λ l. op ∷ l) whole,
        rw e run,
        none_left,
        full,
        rw e stops,
        rw (← count) more,
      )

  valid_loop-Goes :
      (ops : List TraceOp) (d : Driver p) (bs : List Held)
      → Tracks d bs
      → IsLegal (indexes bs) ops
      → Goes (λ ops. valid_loop ops d) ops d
  unfolding valid_loop
  valid_loop-Goes [] d bs t legal = inl (d, bs, refl, t, refl)
  valid_loop-Goes (op ∷ ops) d bs t (h, legal) =
      elim (Op-Stepped d bs op.type op.index op.size t h) [
        | inl (d', bs', e, t', same, count) ↦
            Goes-behind op ops d d' e count
              (valid_loop-Goes ops d' bs' t' (subst (λ js. IsLegal js ops) (sym same) legal))
        | inr (d', e, count, none_left, full) ↦
            inr ([], op, ops, d, d', refl, refl, none_left, full, rw e refl, count)
      ]

  -- The loop behind `mm_init`.
  Goes-init :
      (ops : List TraceOp) (d : Driver p) (mem : p.State)
      → p.mm_init (p.mem_reset_brk d.mem) ≡ ok (true, mem)
      → Goes
          (λ ops. valid_loop ops (record d { mem = mem; ranges = [] }))
          ops
          (record d { mem = mem; ranges = [] })
      → Passes ops d
  unfolding eval_mm_valid valid_after_init
  Goes-init ops d mem e (inl (d2, bs, run, t, same)) = inl (d2, bs, rw e run, t, same)
  Goes-init ops d mem e (inr (before, x, after, d1, d2, whole, run, none_left, full, stops, more)) =
      inr (before, x, after, d1, d2, whole, rw e run, none_left, full, rw e stops, more)

  pub eval_mm_valid-Passes :
      (ops : List TraceOp) (d : Driver p) → c.Ready d.mem → IsLegal [] ops → Passes ops d
  eval_mm_valid-Passes ops d ready legal =
      let (mem, e, h') = c.starts d.mem ready in
      Goes-init ops d mem e (
        valid_loop-Goes ops (record d { mem = mem; ranges = [] }) []
          (record { holds = h'; ranges = refl; arrays = tt }) legal)
