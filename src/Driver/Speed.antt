-- ===== src/Driver/Speed.antt =====
-- `eval_mm_speed` on an allocator that keeps the contract: it ends, or exits because the allocator
-- has no room.
use orga_del_computador.Base.{ℕ, ◌≡◌, refl, sym, ◌∙◌, ap, ◌⊎◌, inl, inr, none, List, [], ◌∷◌, ◌++◌}
use mathlib.Core.Path.{subst}
use orga_del_computador.Mm.Run.{Run, ok, exit}
use orga_del_computador.Driver.Package.{Package}
use orga_del_computador.Driver.Trace.{
  Request, alloc, free, realloc, TraceOp, Driver, size_t_of-small, assign,
}
use orga_del_computador.Driver.Contract.{All, Contract}
use orga_del_computador.Driver.Legal.{IsLegal, LegalOp, indexes_after}
use orga_del_computador.Driver.Held.{
  Held, payloads, indexes, payloads-append, find_index, All-middle,
}
use orga_del_computador.Driver.Valid.{assign-same, assign-others}
use orga_del_computador.Driver.Measure.{speed_op, speed_store, speed_loop, eval_mm_speed}

module _ (p : Package) (c : Contract p) where
  record Replays (d : Driver p) (bs : List Held) : Type 0 where
    holds : c.Holds d.mem (payloads bs)
    arrays : All (λ (b : Held). d.blocks b.index ≡ b.ptr) bs

  abbrev Timed : Driver p → List Held → Request → ℕ → ℕ → Type 0
  Timed d bs type i size =
      ((d' : Driver p) × (bs' : List Held) × (speed_op type i size d ≡ ok d')
        × Replays d' bs'
        × (indexes bs' ≡ indexes_after type i (indexes bs))
        × (d'.errors ≡ d.errors))
      ⊎ ((mem : p.State) × (speed_op type i size d ≡ exit)
          × (p.mm_malloc d.mem size ≡ ok (none, mem))
          × c.Full mem size)

  alloc-Timed :
      (d : Driver p) (bs : List Held) (i size : ℕ)
      → Replays d bs
      → LegalOp alloc i size (indexes bs)
      → Timed d bs alloc i size
  unfolding speed_op speed_store
  alloc-Timed d bs i size t (new, pos, small) =
      elim (c.allocates d.mem (payloads bs) size t.holds pos small) [
        | inl (mem, e, full) ↦ inr (mem, rw (size_t_of-small size small, e) refl, e, full)
        | inr (ptr, mem, e, h) ↦ inl (
          record d { mem = mem; blocks = assign d.blocks i ptr },
          record { index = i; ptr = ptr; size = size } ∷ bs,
          rw (size_t_of-small size small, e) refl,
          record {
            holds = h;
            arrays =
                (assign-same p c d.blocks i ptr, assign-others p c d.blocks i ptr bs new t.arrays);
          },
          refl,
          refl,
        )
      ]

  free-Timed :
      (d : Driver p) (bs : List Held) (i size : ℕ)
      → Replays d bs
      → LegalOp free i size (indexes bs)
      → Timed d bs free i size
  unfolding speed_op
  free-Timed d bs i size t old =
      let f = find_index i bs old in
      let b = f.block in
      let t' : Replays d (f.before ++ (b ∷ f.after)) = subst (Replays d) f.whole t in
      let (at, others) = All-middle _ f.before b f.after t'.arrays in
      let ptr-eq : d.blocks i ≡ b.ptr = ap d.blocks (sym f.same_index) ∙ at in
      let held = subst (c.Holds d.mem) (payloads-append f.before (b ∷ f.after)) t'.holds in
      let (mem, e, h) = c.frees d.mem (payloads f.before) b.ptr b.size (payloads f.after) held in
      inl (
        record d { mem = mem },
        f.before ++ f.after,
        rw (ptr-eq, e) refl,
        record {
          holds = subst (c.Holds mem) (sym (payloads-append f.before f.after)) h;
          arrays = others;
        },
        f.others,
        refl,
      )

  Op-Timed :
      (d : Driver p) (bs : List Held) (type : Request) (i size : ℕ)
      → Replays d bs
      → LegalOp type i size (indexes bs)
      → Timed d bs type i size
  Op-Timed d bs alloc i size t h = alloc-Timed d bs i size t h
  Op-Timed d bs free i size t h = free-Timed d bs i size t h
  Op-Timed d bs realloc i size t h = elim h [ ]

  -- The program exits at the request `op`, for which the allocator has no room: the requests before
  -- it were all answered, and left a state in which `mm_malloc` returns NULL. `run` is the code on a
  -- list of requests.
  abbrev pub Exits : (List TraceOp → Run (Driver p)) → List TraceOp → Type 0
  Exits run ops =
      (before : List TraceOp) × (op : TraceOp) × (after : List TraceOp) × (d1 : Driver p)
      × (mem : p.State) × (ops ≡ before ++ (op ∷ after))
      × (run before ≡ ok d1)
      × (p.mm_malloc d1.mem op.size ≡ ok (none, mem))
      × c.Full mem op.size
      × (run ops ≡ exit)

  -- A run that leaves an allocator that can start again, or exits.
  abbrev pub Ends : Driver p → (List TraceOp → Run (Driver p)) → List TraceOp → Type 0
  Ends d run ops =
      ((d' : Driver p) × (run ops ≡ ok d') × c.Ready d'.mem × (d'.errors ≡ d.errors))
      ⊎ Exits run ops

  speed_loop-Ends :
      (ops : List TraceOp) (d : Driver p) (bs : List Held)
      → Replays d bs
      → IsLegal (indexes bs) ops
      → Ends d (λ ops. speed_loop ops d) ops
  unfolding speed_loop
  speed_loop-Ends [] d bs t legal = inl (d, refl, c.again d.mem (payloads bs) t.holds, refl)
  speed_loop-Ends (op ∷ ops) d bs t (h, legal) = elim (Op-Timed d bs op.type op.index op.size t h) [
    | inr (mem, e, none_left, full) ↦
        inr ([], op, ops, d, mem, refl, refl, none_left, full, rw e refl)
    | inl (d', bs', e, t', same, count) ↦
        elim (speed_loop-Ends ops d' bs' t' (subst (λ js. IsLegal js ops) (sym same) legal)) [
          | inl (d2, run, ready, counts) ↦ inl (d2, rw e run, ready, counts ∙ count)
          | inr (before, x, after, d1, mem, whole, run, none_left, full, stops) ↦ inr (
            op ∷ before,
            x,
            after,
            d1,
            mem,
            ap (λ l. op ∷ l) whole,
            rw e run,
            none_left,
            full,
            rw e stops,
          )
        ]
  ]

  pub eval_mm_speed-Ends :
      (ops : List TraceOp) (d : Driver p)
      → c.Ready d.mem
      → IsLegal [] ops
      → Ends d (λ ops. eval_mm_speed ops d) ops
  unfolding eval_mm_speed
  eval_mm_speed-Ends ops d ready legal =
      let (mem, e, h) = c.starts d.mem ready in
      let d1 : Driver p = record d { mem = mem } in
      elim (speed_loop-Ends ops d1 [] (record { holds = h; arrays = tt }) legal) [
        | inl (d2, run, again, counts) ↦ inl (d2, rw e run, again, counts)
        | inr (before, x, after, d2, mem', whole, run, none_left, full, stops) ↦
            inr (before, x, after, d2, mem', whole, rw e run, none_left, full, rw e stops)
      ]
