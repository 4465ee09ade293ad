-- ===== src/Driver/Series.antt =====
-- The loop of `main` over the traces, on an allocator that keeps the contract.
use orga_del_computador.Base.{
  ℕ, zero, suc, ◌^◌, ◌<◌, ◌≡◌, refl, ◌∙◌, ap, ap₂, ◌⊎◌, inl, inr, arith, Bool, true, List, [], ◌∷◌,
  ◌++◌, length, map,
}
use orga_del_computador.Mm.Run.{ok, exit}
use orga_del_computador.Driver.Package.{Package}
use orga_del_computador.Driver.Trace.{TraceOp, Driver}
use orga_del_computador.Driver.Contract.{All, Contract}
use orga_del_computador.Driver.Legal.{IsLegal}
use orga_del_computador.Driver.Valid.{Refuses, eval_mm_valid-Passes}
use orga_del_computador.Driver.Peak.{peak}
use orga_del_computador.Driver.Util.{UtilExits, eval_mm_util-Utilizes}
use orga_del_computador.Driver.Speed.{Exits, eval_mm_speed-Ends}
use orga_del_computador.Driver.Held.{payloads}
use orga_del_computador.Driver.Eval.{eval_mm_valid}
use orga_del_computador.Driver.Measure.{eval_mm_util, eval_mm_speed}
use orga_del_computador.Driver.Files.{Stats, fsecs_calls, eval_rest, eval_traces, numcorrect}

-- A trace that a client may run, whose sizes in use stay below 2^31.
abbrev pub IsRunnable : List TraceOp → Type 0
IsRunnable ops = IsLegal [] ops × (peak [] ops < 2 ^ 31)

abbrev pub high_water : Stats → ℕ
high_water s = s.hwm

module _ (p : Package) (c : Contract p) where
  -- One of the calls of `eval_mm_speed`, behind `done` others that ended, exits at a request for
  -- which the allocator has no room.
  abbrev pub CallExits : ℕ → List TraceOp → Driver p → Type 0
  CallExits n ops d =
      (done : ℕ) × (d1 : Driver p) × (done < n)
      × (fsecs_calls done ops d ≡ ok d1)
      × Exits p c (λ ops. eval_mm_speed ops d1) ops
      × (fsecs_calls n ops d ≡ exit)

  fsecs_calls-Ends :
      (n : ℕ) (ops : List TraceOp) (d : Driver p)
      → c.Ready d.mem
      → IsLegal [] ops
      → ((d' : Driver p) × (fsecs_calls n ops d ≡ ok d') × c.Ready d'.mem × (d'.errors ≡ d.errors))
        ⊎ CallExits n ops d
  unfolding fsecs_calls
  fsecs_calls-Ends zero ops d ready legal = inl (d, refl, ready, refl)
  fsecs_calls-Ends (suc n) ops d ready legal = elim (eval_mm_speed-Ends p c ops d ready legal) [
    | inr x ↦
        let (b, o, a, d1, mem, whole, run, none_left, full, stops) = x in
        inr (zero, d, omega arith, refl, x, rw stops refl)
    | inl (d1, e, again, count) ↦ elim (fsecs_calls-Ends n ops d1 again legal) [
      | inr (done, d2, less, run, x, stops) ↦
          inr (suc done, d2, omega arith, rw e run, x, rw e stops)
      | inl (d2, f, ready2, counts) ↦ inl (d2, rw e f, ready2, counts ∙ count)
    ]
  ]

  -- The trace does not come to its end, because the allocator has no room for one of its requests:
  -- `eval_mm_valid` reports it, or all its checks pass and the program exits at the request in
  -- `eval_mm_util` or in a call of `eval_mm_speed` behind it.
  abbrev pub IsStopped : ℕ → List TraceOp → Driver p → Type 0
  IsStopped calls ops d =
      Refuses p c (λ ops. eval_mm_valid ops d) ops d
      ⊎ ((d1 : Driver p) × (eval_mm_valid ops d ≡ ok (true, d1))
          × (eval_rest calls ops (true, d1) ≡ exit)
          × (UtilExits p c ops d1 (eval_mm_util ops d1)
              ⊎ ((d2 : Driver p) × (eval_mm_util ops d1
                    ≡ ok (d2, peak [] ops, p.mem_heapsize d2.mem))
                  × CallExits calls ops d2)))

  -- What the evaluation of one trace gives.
  abbrev Evaluates : ℕ → List TraceOp → Driver p → Type 0
  Evaluates calls ops d =
      ((checked : Bool × Driver p) × (s : Stats) × (d' : Driver p) × (eval_mm_valid ops d
          ≡ ok checked)
        × (eval_rest calls ops checked ≡ ok (s, d'))
        × (s.valid ≡ true)
        × (s.hwm ≡ peak [] ops)
        × c.Ready d'.mem
        × (d'.errors ≡ d.errors))
      ⊎ IsStopped calls ops d

  trace-Evaluates :
      (calls : ℕ) (ops : List TraceOp) (d : Driver p)
      → c.Ready d.mem
      → IsRunnable ops
      → Evaluates calls ops d
  unfolding eval_rest
  trace-Evaluates calls ops d ready (legal, small) =
      elim (eval_mm_valid-Passes p c ops d ready legal) [
        | inr x ↦ inr (inl x)
        | inl (d1, bs, e, t, count) ↦
            let ready1 = c.again d1.mem (payloads bs) t.holds in
            elim (eval_mm_util-Utilizes p c ops d1 ready1 legal small) [
              | inr x ↦ inr (inr (d1, e, rw (exits d1 x) refl, inl x))
              | inl (d2, f, ready2, count2) ↦ elim (fsecs_calls-Ends calls ops d2 ready2 legal) [
                | inr x ↦ inr (inr (d1, e, rw (f, stops d2 x) refl, inr (d2, f, x)))
                | inl (d3, g, ready3, count3) ↦ inl (
                  (true, d1),
                  record { valid = true; hwm = peak [] ops; heap_size = p.mem_heapsize d2.mem },
                  d3,
                  e,
                  rw (f, g) refl,
                  refl,
                  refl,
                  ready3,
                  count3 ∙ count2 ∙ count,
                )
              ]
            ]
      ]
    where
      exits :
          (d1 : Driver p) → UtilExits p c ops d1 (eval_mm_util ops d1) → eval_mm_util ops d1 ≡ exit
      exits d1 (before, op, after, d2, most, mem, whole, e, run, none_left, full) = e

      stops : (d2 : Driver p) → CallExits calls ops d2 → fsecs_calls calls ops d2 ≡ exit
      stops d2 (done, d3, less, run, x, e) = e

  -- All traces come to their ends, or one behind some that did is stopped.
  abbrev pub Completes : ℕ → List (List TraceOp) → Driver p → Type 0
  Completes calls traces d =
      ((stats : List Stats) × (d' : Driver p) × (eval_traces calls traces d ≡ ok (stats, d'))
        × (map high_water stats ≡ map (peak []) traces)
        × (numcorrect stats ≡ length traces)
        × (d'.errors ≡ d.errors))
      ⊎ ((before : List (List TraceOp)) × (ops : List TraceOp) × (after : List (List TraceOp))
          × (stats : List Stats) × (d' : Driver p) × (traces ≡ before ++ (ops ∷ after))
          × (eval_traces calls before d ≡ ok (stats, d'))
          × IsStopped calls ops d')

  pub eval_traces-Completes :
      (calls : ℕ) (traces : List (List TraceOp)) (d : Driver p)
      → c.Ready d.mem
      → All IsRunnable traces
      → Completes calls traces d
  unfolding eval_traces numcorrect
  eval_traces-Completes calls [] d ready h = inl ([], d, refl, refl, refl, refl)
  eval_traces-Completes calls (ops ∷ traces) d ready (h, hs) =
      elim (trace-Evaluates calls ops d ready h) [
        | inr stopped ↦ inr ([], ops, traces, [], d, refl, refl, stopped)
        | inl (checked, s, d1, e, f, valid, hwm, ready1, count) ↦
            elim (eval_traces-Completes calls traces d1 ready1 hs) [
              | inl (stats, d2, run, waters, correct, counts) ↦ inl (
                s ∷ stats,
                d2,
                rw (e, f, run) refl,
                ap₂ ◌∷◌ hwm waters,
                ground (arith, valid, correct),
                counts ∙ count,
              )
              | inr (before, x, after, stats, d2, whole, run, stopped) ↦ inr (
                ops ∷ before,
                x,
                after,
                s ∷ stats,
                d2,
                ap (λ l. ops ∷ l) whole,
                rw (e, f, run) refl,
                stopped,
              )
            ]
      ]
