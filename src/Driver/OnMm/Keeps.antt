-- ===== src/Driver/OnMm/Keeps.antt =====
-- The contract of the driver for mm.c.
use orga_del_computador.Base.{
  ℕ, ◌+◌, ◌*◌, ◌%◌, ◌^◌, ◌<◌, ◌≡◌, refl, sym, ◌⊎◌, inl, inr, arith, true, none, some, List, [], ◌∷◌,
  ◌++◌,
}
use mathlib.Core.Path.{subst}
use orga_del_computador.MemLib.{max_heap, mem_reset_brk, mem_heap_lo, mem_heap_hi}
use orga_del_computador.Mm.Run.{ok}
use orga_del_computador.Mm.Heap.{Heap}
use orga_del_computador.Mm.Api.{adjusted}
use orga_del_computador.Mm.Api.Init.{mm_init-Holds_at}
use orga_del_computador.Mm.Api.Sizes.{growth, adjusted-IsBlockSize}
use orga_del_computador.Mm.Api.Answers.{mm_malloc-Success}
use orga_del_computador.Mm.Api.Holds.{Holds, mm_free-Returns}
use orga_del_computador.Mm.Live.Apart.{Holds-Apart}
use orga_del_computador.Driver.Contract.{All, AreSound, Contract}
use orga_del_computador.Driver.Held.{All-middle}
use orga_del_computador.Driver.Trace.{TraceOp, Driver}
use orga_del_computador.Driver.Legal.{IsLegal}
use orga_del_computador.Driver.Measure.{eval_mm_util}
use orga_del_computador.Driver.Series.{IsRunnable, Completes, eval_traces-Completes}
use orga_del_computador.Driver.Peak.{peak}
use orga_del_computador.Driver.Util.{Utilizes, eval_mm_util-Utilizes}
use orga_del_computador.Driver.Valid.{Passes, eval_mm_valid-Passes}
use orga_del_computador.Driver.OnMm.{mm_package}
use orga_del_computador.Driver.OnMm.Payload.{Holds-set_words}
use orga_del_computador.Driver.OnMm.Insertion.{Inserts-middle, Inserts-split}
use orga_del_computador.Driver.OnMm.Matches.{Matches, Matches-remove, AreSound-Matches}

-- The state that `mem_init` or a former trace leaves, in storage at a multiple of 8.
pub record IsReady (m : Heap) : Type 0 where
  pub limit : m.sim.mem_max_addr ≡ m.sim.mem_start_brk + max_heap
  pub eight : m.sim.mem_start_brk % 8 ≡ 0

-- The client of mm.c holds a block for each payload.
pub record HoldsPayloads (m : Heap) (xs : List (ℕ × ℕ)) : Type 0 where
  pub eight : m.sim.mem_start_brk % 8 ≡ 0
  pub blocks : List (ℕ × ℕ)
  pub held : Holds m blocks
  pub matched : Matches xs blocks
  pub positive : All (λ (x : ℕ × ℕ). 0 < x.1) xs

-- The heap would grow past its limit.
abbrev pub IsFull : Heap → ℕ → Type 0
IsFull m size = m.sim.mem_max_addr < m.sim.mem_brk + growth (adjusted size) * 8

pub mm_sound :
    (m : Heap) (xs : List (ℕ × ℕ))
    → HoldsPayloads m xs
    → AreSound (mem_heap_lo m.sim) (mem_heap_hi m.sim) xs
unfolding mem_heap_lo mem_heap_hi
mm_sound m xs x =
    let start = x.held.heap.start in
    AreSound-Matches m.sim.mem_start_brk (m.heap_listp + 16) m.sim.mem_brk xs x.blocks (omega arith)
      (omega (arith, x.eight)) (omega (arith, x.held.heap.top)) (Holds-Apart m x.blocks x.held)
      x.matched x.positive

-- An address of the list that does not move keeps the storage where it is.
same_start :
    (h h' : Heap) (xs ys : List (ℕ × ℕ))
    → Holds h xs
    → Holds h' ys
    → h'.heap_listp ≡ h.heap_listp
    → h.sim.mem_start_brk % 8 ≡ 0
    → h'.sim.mem_start_brk % 8 ≡ 0
same_start h h' xs ys x y same eight = omega (arith, x.heap.start, y.heap.start)

pub mm_starts :
    (m : Heap)
    → IsReady m
    → (m' : Heap) × (mm_package.mm_init (mm_package.mem_reset_brk m) ≡ ok (true, m'))
      × HoldsPayloads m' []
unfolding mem_reset_brk
mm_starts m r =
    let h = record m { sim = mem_reset_brk m.sim } in
    let (h', e, x, at) = mm_init-Holds_at h (record { at_start = refl; limit = r.limit }) in
    (
      h',
      rw e refl,
      record {
        eight = omega (arith, x.heap.start, r.eight);
        blocks = [];
        held = x;
        matched = refl;
        positive = tt;
      },
    )

module _ (m : Heap) (xs : List (ℕ × ℕ)) (size : ℕ) (x : HoldsPayloads m xs) (pos : 0 < size)
    (small : size < 2 ^ 31) where
  pub mm_allocates :
      ((m' : Heap) × (mm_package.mm_malloc m size ≡ ok (none, m')) × IsFull m' size)
      ⊎ ((ptr : ℕ) × (m' : Heap) × (mm_package.mm_malloc m size ≡ ok (some ptr, m'))
          × HoldsPayloads m' ((ptr, size) ∷ xs))
  mm_allocates = elim (mm_malloc-Success m x.blocks size pos (omega arith) x.held) [
    | inr (e, over) ↦ inl (m, rw e refl, over)
    | inl (ptr, h', e, a) ↦ inr (
      ptr,
      h',
      rw e refl,
      record {
        eight = same_start m h' _ _ x.held a.returns.holds a.returns.list_start x.eight;
        blocks = a.before ++ ((ptr, a.size) ∷ a.after);
        held = a.returns.holds;
        matched = (
          a.size,
          a.before ++ a.after,
          omega (arith, a.enough, (adjusted-IsBlockSize size (omega arith)).room),
          Inserts-middle (ptr, a.size) a.before a.after,
          subst (Matches xs) a.split x.matched,
        );
        positive = (pos, x.positive);
      },
    )
  ]

module _ (m : Heap) (before : List (ℕ × ℕ)) (ptr size : ℕ) (after : List (ℕ × ℕ))
    (x : HoldsPayloads m (before ++ ((ptr, size) ∷ after))) where
  pub mm_frees :
      (m' : Heap) × (mm_package.mm_free m ptr ≡ ok m') × HoldsPayloads m' (before ++ after)
  mm_frees =
      let (s, rest, i, matched) = Matches-remove before ptr size after x.blocks x.matched in
      let (left, right, split, whole) = Inserts-split (ptr, s) rest x.blocks i in
      let (h', e, r) = mm_free-Returns m left ptr s right (subst (Holds m) whole x.held) in
      (
        h',
        rw e refl,
        record {
          eight = same_start m h' _ _ x.held r.holds r.list_start x.eight;
          blocks = left ++ right;
          held = r.holds;
          matched = subst (Matches (before ++ after)) split matched;
          positive = (All-middle (λ (x : ℕ × ℕ). 0 < x.1) before (ptr, size) after x.positive).1;
        },
      )

pub mm_writes :
    (m : Heap) (ptr size value : ℕ) (xs : List (ℕ × ℕ))
    → HoldsPayloads m ((ptr, size) ∷ xs)
    → HoldsPayloads (mm_package.memset m ptr value size) ((ptr, size) ∷ xs)
mm_writes m ptr size value xs x =
    let (s, rest, room, i, matched) = x.matched in
    let (left, right, split, whole) = Inserts-split (ptr, s) rest x.blocks i in
    let held = Holds-set_words m left ptr s right value size room (subst (Holds m) whole x.held) in
    record {
      eight = x.eight;
      blocks = x.blocks;
      held = subst (Holds _) (sym whole) held;
      matched = x.matched;
      positive = x.positive;
    }

abbrev pub mm_contract : Contract mm_package
mm_contract = record {
  Ready = IsReady;
  Holds = HoldsPayloads;
  Full = IsFull;
  sound = mm_sound;
  starts = mm_starts;
  allocates = mm_allocates;
  frees = mm_frees;
  again = λ m xs x. record { limit = x.held.heap.limit; eight = x.eight };
  writes = mm_writes;
}

-- On storage at a multiple of 8, `eval_mm_valid` linked with mm.c, the payload bytes that it
-- writes in the same memory as the tags, ends on every trace of allocations and frees that
-- allocates only free indexes, with sizes from 1 to 2^31 - 1, and frees only allocated ones.
-- Either every check passes, no error is counted and the ranges are the payloads that the client
-- of mm.c holds, or the run passes all checks on the requests before some request and stops at
-- that one with one error counted, since `mm_malloc` returns NULL for it because the heap would
-- have to grow past its limit.
pub eval_mm_valid-mm_package :
    (ops : List TraceOp) (d : Driver mm_package)
    → IsReady d.mem
    → IsLegal [] ops
    → Passes mm_package mm_contract ops d
eval_mm_valid-mm_package ops d ready legal =
    eval_mm_valid-Passes mm_package mm_contract ops d ready legal

-- On storage at a multiple of 8, for a trace of allocations and frees that allocates only free
-- indexes, with sizes from 1 to 2^31 - 1, and frees only allocated ones, if the sums of the sizes
-- in use stay below 2^31, `eval_mm_util` linked with mm.c either ends with the largest of these
-- sums and the size of the heap as its two numbers, or the program exits at an allocation for
-- which the heap would have to grow past its limit.
pub eval_mm_util-mm_package :
    (ops : List TraceOp) (d : Driver mm_package)
    → IsReady d.mem
    → IsLegal [] ops
    → peak [] ops < 2 ^ 31
    → Utilizes mm_package mm_contract ops d (eval_mm_util ops d)
eval_mm_util-mm_package ops d ready legal room =
    eval_mm_util-Utilizes mm_package mm_contract ops d ready legal room

-- On storage at a multiple of 8, for a series of traces of allocations and frees that allocate
-- only free indexes, with sizes from 1 to 2^31 - 1, free only allocated ones, and keep the sums of
-- the sizes in use below 2^31, `main` linked with mm.c either evaluates them all, with every trace
-- valid, no error counted and the largest sums of the sizes in use, or comes behind some that it
-- evaluated to a trace with a request for which, after those before it were answered, `mm_malloc`
-- returns NULL because the heap would have to grow past its limit: `eval_mm_valid` stops there, or
-- it passes and the program exits there in `eval_mm_util` or in a later call of `eval_mm_speed`.
pub eval_traces-mm_package :
    (calls : ℕ) (traces : List (List TraceOp)) (d : Driver mm_package)
    → IsReady d.mem
    → All IsRunnable traces
    → Completes mm_package mm_contract calls traces d
eval_traces-mm_package calls traces d ready h =
    eval_traces-Completes mm_package mm_contract calls traces d ready h
