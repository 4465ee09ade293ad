-- ===== src/Naive/Keeps.antt =====
-- The contract of the driver for mm-naive.c.
use orga_del_computador.Base.{
  ℕ, ◌+◌, ◌-◌, ◌*◌, ◌/◌, ◌%◌, ◌^◌, ◌≤◌, ◌<◌, ◌≡◌, refl, ◌∙◌, ap, ◌⊎◌, inl, inr, arith, true, none,
  some, List, [], ◌∷◌, ◌++◌, Bool-cases, ◌||◌, u32, u64, leb, ltb,
}
use orga_del_computador.MemLib.{mem_sbrk, mem_reset_brk, mem_heap_lo, mem_heap_hi, mem_heapsize}
use orga_del_computador.Mm.Run.{ok}
use orga_del_computador.Driver.Package.{Package}
use orga_del_computador.Driver.Trace.{TraceOp, Driver}
use orga_del_computador.Driver.Legal.{IsLegal}
use orga_del_computador.Driver.Valid.{Passes, eval_mm_valid-Passes}
use orga_del_computador.Driver.Contract.{AreSound, Contract}
use orga_del_computador.Naive.{Naive, align, mm_init, mm_malloc, mm_free, mm_realloc}
use orga_del_computador.Naive.Chain.{align-eq, Chain, Chain-drop, Chain-same, Chain-AreSound}
use orga_del_computador.Naive.Memory.{
  Bytes, store_size, memset, load_size-store_size, store_size-outside, load_size_same,
}

-- The driver linked with mm-naive.c.
abbrev pub naive_package : Package
naive_package = record {
  State = Naive;
  mem_reset_brk = λ m. record m { sim = mem_reset_brk m.sim };
  mm_init = λ m. ok (mm_init m);
  mm_malloc = λ m size. ok (mm_malloc m size);
  mm_realloc =
      λ m ptr size. ok (elim ptr [ none ↦ mm_malloc m size | some p ↦ mm_realloc m p size ]);
  mm_free = λ m ptr. ok (mm_free m ptr);
  mem_heap_lo = λ m. mem_heap_lo m.sim;
  mem_heap_hi = λ m. mem_heap_hi m.sim;
  mem_heapsize = λ m. mem_heapsize m.sim;
  byte = λ m a. m.bytes a;
  memset = λ m ptr value size. record m { bytes = memset m.bytes ptr value size };
}

pub record HoldsChain (m : Naive) (xs : List (ℕ × ℕ)) : Type 0 where
  pub eight : m.sim.mem_brk % 8 ≡ 0
  pub start : m.sim.mem_start_brk % 8 ≡ 0
  pub chain : Chain m.bytes m.sim.mem_start_brk m.sim.mem_brk xs

-- The bytes by which the break moves for a request.
abbrev pub grows_by : ℕ → ℕ
grows_by size = (size + 15) / 8 * 8

-- The break would pass its limit, or the `int` is negative.
abbrev pub IsFull : Naive → ℕ → Type 0
IsFull m size = (2 ^ 31 ≤ grows_by size) ⊎ (m.sim.mem_max_addr < m.sim.mem_brk + grows_by size)

-- The state after a request that is granted.
abbrev pub granted : Naive → ℕ → Naive
granted m size = record {
  sim = record (m.sim) { mem_brk = m.sim.mem_brk + grows_by size };
  bytes = store_size m.bytes m.sim.mem_brk size;
}

module _ (m : Naive) (xs : List (ℕ × ℕ)) (size : ℕ) (x : HoldsChain m xs) (pos : 0 < size)
    (small : size < 2 ^ 31) where
  newsize-eq : u32 (align (u64 (size + 8))) ≡ grows_by size
  newsize-eq = ground (arith, align-eq (size + 8))

  pub naive_allocates :
      ((m' : Naive) × (mm_malloc m size ≡ (none, m')) × IsFull m' size)
      ⊎ ((mm_malloc m size ≡ (some (m.sim.mem_brk + 8), granted m size))
          × HoldsChain (granted m size) ((m.sim.mem_brk + 8, size) ∷ xs))
  unfolding mm_malloc mem_sbrk
  naive_allocates =
      elim (Bool-cases
        (leb (2 ^ 31) (grows_by size) || ltb m.sim.mem_max_addr (m.sim.mem_brk + grows_by size))) [
          | inl full ↦ inl (m, rw (newsize-eq, full) refl, ground arith)
          | inr room ↦ inr (
            rw (newsize-eq, room) refl,
            record {
              eight = omega (arith, x.eight);
              start = x.start;
              chain = (
                pos,
                omega (arith, x.eight),
                omega arith,
                omega arith,
                rw back (load_size-store_size m.bytes m.sim.mem_brk size (omega arith)),
                rw back (
                    Chain-same m.bytes m.sim.mem_start_brk (store_size m.bytes m.sim.mem_brk size)
                      m.sim.mem_brk xs
                      (λ a h. store_size-outside m.bytes m.sim.mem_brk size a (inl h)) x.chain),
              );
            },
          )
        ]
    where
      back : m.sim.mem_brk + 8 - 8 ≡ m.sim.mem_brk
      back = omega arith

pub naive_sound :
    (m : Naive) (xs : List (ℕ × ℕ))
    → HoldsChain m xs
    → AreSound (mem_heap_lo m.sim) (mem_heap_hi m.sim) xs
unfolding mem_heap_lo mem_heap_hi
naive_sound m xs x =
    Chain-AreSound m.bytes m.sim.mem_start_brk m.sim.mem_brk m.sim.mem_brk xs (omega arith) x.chain

-- Storage at a multiple of 8.
abbrev pub IsReady : Naive → Type 0
IsReady m = m.sim.mem_start_brk % 8 ≡ 0

pub naive_starts :
    (m : Naive)
    → IsReady m
    → (m' : Naive) × (naive_package.mm_init (naive_package.mem_reset_brk m) ≡ ok (true, m'))
      × HoldsChain m' []
unfolding mem_reset_brk mm_init
naive_starts m r = (
  record m { sim = mem_reset_brk m.sim },
  refl,
  record { eight = r; start = r; chain = omega arith },
)

pub naive_frees :
    (m : Naive) (before : List (ℕ × ℕ)) (ptr size : ℕ) (after : List (ℕ × ℕ))
    → HoldsChain m (before ++ ((ptr, size) ∷ after))
    → (m' : Naive) × (naive_package.mm_free m ptr ≡ ok m') × HoldsChain m' (before ++ after)
unfolding mm_free
naive_frees m before ptr size after x = (
  m,
  refl,
  record {
    eight = x.eight;
    start = x.start;
    chain = Chain-drop m.bytes m.sim.mem_start_brk m.sim.mem_brk before (ptr, size) after x.chain;
  },
)

-- What is written to the newest payload leaves the sizes and the other blocks.
pub HoldsChain-payload :
    (m : Naive) (bytes : Bytes) (ptr size : ℕ) (xs : List (ℕ × ℕ))
    → ((a : ℕ) → a < ptr → bytes a ≡ m.bytes a)
    → HoldsChain m ((ptr, size) ∷ xs)
    → HoldsChain (record m { bytes = bytes }) ((ptr, size) ∷ xs)
HoldsChain-payload m bytes ptr size xs same x =
    let (pos, al, low, high, own, c) = x.chain in
    record {
      eight = x.eight;
      start = x.start;
      chain = (
        pos,
        al,
        low,
        high,
        load_size_same m.bytes bytes (ptr - 8) (λ a h k. same a (omega arith)) ∙ own,
        Chain-same m.bytes m.sim.mem_start_brk bytes (ptr - 8) xs (λ a h. same a (omega arith)) c,
      );
    }

pub naive_writes :
    (m : Naive) (ptr size value : ℕ) (xs : List (ℕ × ℕ))
    → HoldsChain m ((ptr, size) ∷ xs)
    → HoldsChain (naive_package.memset m ptr value size) ((ptr, size) ∷ xs)
unfolding memset
naive_writes m ptr size value xs x =
    HoldsChain-payload m (memset m.bytes ptr value size) ptr size xs (λ a h. ground arith) x

pub naive_requests :
    (m : Naive) (xs : List (ℕ × ℕ)) (size : ℕ)
    → HoldsChain m xs
    → 0 < size
    → size < 2 ^ 31
    → ((m' : Naive) × (naive_package.mm_malloc m size ≡ ok (none, m')) × IsFull m' size)
      ⊎ ((ptr : ℕ) × (m' : Naive) × (naive_package.mm_malloc m size ≡ ok (some ptr, m'))
          × HoldsChain m' ((ptr, size) ∷ xs))
naive_requests m xs size x pos small = elim (naive_allocates m xs size x pos small) [
  | inl (m', e, full) ↦ inl (m', ap ok e, full)
  | inr (e, x') ↦ inr (m.sim.mem_brk + 8, granted m size, ap ok e, x')
]

abbrev pub naive_contract : Contract naive_package
naive_contract = record {
  Ready = IsReady;
  Holds = HoldsChain;
  Full = IsFull;
  sound = naive_sound;
  starts = naive_starts;
  allocates = naive_requests;
  frees = naive_frees;
  again = λ m xs x. x.start;
  writes = naive_writes;
}

-- On storage at a multiple of 8, `eval_mm_valid` linked with mm-naive.c ends on every trace of
-- allocations and frees that allocates only free indexes, with sizes from 1 to 2^31 - 1, and frees
-- only allocated ones. Either every check passes, no error is counted and the ranges are the
-- payloads of the blocks that were not freed, or the run passes all checks on the requests before
-- some request and stops at that one with one error counted, since `mm_malloc` returns NULL for it
-- because the break would pass its limit or the number of bytes is negative as an `int`.
pub eval_mm_valid-naive_package :
    (ops : List TraceOp) (d : Driver naive_package)
    → IsReady d.mem
    → IsLegal [] ops
    → Passes naive_package naive_contract ops d
eval_mm_valid-naive_package ops d ready legal =
    eval_mm_valid-Passes naive_package naive_contract ops d ready legal
