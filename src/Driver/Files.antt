-- ===== src/Driver/Files.antt =====
-- `read_trace`, and the part of `main` that evaluates the allocator on the trace files.
use orga_del_computador.Base.{
  ℕ, zero, suc, ◌+◌, ◌-◌, ◌*◌, ◌^◌, ◌<◌, ◌≡◌, refl, arith, Bool, true, false, ◌&&◌, Option, none,
  some, max, ==_iff, List, [], ◌∷◌, length, ltb, ◌==◌, u32, u64, if◌then◌else◌,
}
use orga_del_computador.Mm.Run.{Run, ok, exit, ◌>>=◌}
use orga_del_computador.Driver.Package.{Package}
use orga_del_computador.Driver.Trace.{
  Request, alloc, free, realloc, TraceOp, Driver, size_t_of, size_t_of-small,
}
use orga_del_computador.Driver.Contract.{All}
use orga_del_computador.Driver.Eval.{eval_mm_valid}
use orga_del_computador.Driver.Measure.{eval_mm_util, eval_mm_speed}

-- What the calls of `fscanf` give for a request line: the first character and the `unsigned` numbers.
-- For an `f` line `size` is what the array of requests happens to hold.
pub record Line : Type 0 where
  pub type : ℕ
  pub index : ℕ
  pub size : ℕ

-- `max_index = (index > max_index) ? index : max_index`
unfoldable pub raised : ℕ → ℕ → ℕ
raised index max_index = if ltb max_index index then index else max_index

-- The character of a request.
unfoldable pub request_of : ℕ → Option Request
request_of c =
    if c == b'a'
    then some alloc
    else if c == b'r'
    then some realloc
    else if c == b'f'
    then some free
    else none

-- The `unsigned` numbers are stored in `int`s: 32 bits, which count as negative from 2^31 on.
abbrev pub op_of : Line → Request → TraceOp
op_of l t = record { type = t; index = u32 l.index; size = u32 l.size }

-- One line, with what follows it. A bogus character ends the program.
unfoldable pub read_line :
    Line → ℕ → Option Request → (ℕ → Run (ℕ × List TraceOp)) → Run (ℕ × List TraceOp)
unfolding raised
read_line l max_index none next = exit
read_line l max_index (some alloc) next = do
  (m, ops) ← next (raised l.index max_index)
  ok (m, op_of l alloc ∷ ops)
read_line l max_index (some realloc) next = do
  (m, ops) ← next (raised l.index max_index)
  ok (m, op_of l realloc ∷ ops)
read_line l max_index (some free) next = do (m, ops) ← next max_index; ok (m, op_of l free ∷ ops)

-- The loop over the lines: `max_index` and the requests.
unfoldable pub read_lines : ℕ → List Line → Run (ℕ × List TraceOp)
unfolding request_of read_line
read_lines max_index [] = ok (max_index, [])
read_lines max_index (l ∷ ls) =
    read_line l max_index (request_of l.type) (λ max_index. read_lines max_index ls)

-- The sizes of `trace_t`, `traceop_t`, a pointer and a `size_t`.
abbrev pub trace_bytes : ℕ
trace_bytes = 40

abbrev pub traceop_bytes : ℕ
traceop_bytes = 12

abbrev pub pointer_bytes : ℕ
pointer_bytes = 8

-- `n * sizeof(...)` for an `int`, as a `size_t`.
abbrev pub array_bytes : ℕ → ℕ → ℕ
array_bytes n bytes = u64 (size_t_of n * bytes)

-- Whether the four calls of `malloc` succeed; `can_malloc` says of a number of bytes that `malloc`
-- does not return NULL.
unfoldable pub has_arrays : (ℕ → Bool) → ℕ → ℕ → Bool
has_arrays can_malloc num_ids num_ops =
    can_malloc trace_bytes
    && can_malloc (array_bytes num_ops traceop_bytes)
    && can_malloc (array_bytes num_ids pointer_bytes)
    && can_malloc (array_bytes num_ids pointer_bytes)

-- `unix_error` when an array cannot be had, the lines, and the two assertions at the end. The numbers
-- of the header are `int`s.
unfoldable pub read_trace : (ℕ → Bool) → (num_ids num_ops : ℕ) → List Line → Run (List TraceOp)
unfolding read_lines has_arrays
read_trace can_malloc num_ids num_ops lines = do
  (max_index, ops) ← if has_arrays can_malloc num_ids num_ops then read_lines 0 lines else exit
  (if max_index == u32 (num_ids + 2 ^ 32 - 1) && u32 num_ops == length ops then ok ops else exit)

-- `valid` and the quotient `util` of a trace; 0 / 0 for a trace that is not valid.
pub record Stats : Type 0 where
  pub valid : Bool
  pub hwm : ℕ
  pub heap_size : ℕ

module _ {p : Package} where
  -- `fsecs` calls `eval_mm_speed` some number of times, to measure it.
  unfoldable pub fsecs_calls : ℕ → List TraceOp → Driver p → Run (Driver p)
  fsecs_calls zero ops d = ok d
  fsecs_calls (suc n) ops d = do d ← eval_mm_speed ops d; fsecs_calls n ops d

  -- What follows `eval_mm_valid`.
  unfoldable pub eval_rest : ℕ → List TraceOp → Bool × Driver p → Run (Stats × Driver p)
  unfolding fsecs_calls
  eval_rest calls ops (false, d) = ok (record { valid = false; hwm = 0; heap_size = 0 }, d)
  eval_rest calls ops (true, d) = do
    (d, hwm, size) ← eval_mm_util ops d
    d ← fsecs_calls calls ops d
    ok (record { valid = true; hwm = hwm; heap_size = size }, d)

  -- The arrays of a trace are not cleared when it is read.
  unfoldable pub eval_traces : ℕ → List (List TraceOp) → Driver p → Run (List Stats × Driver p)
  unfolding eval_rest
  eval_traces calls [] d = ok ([], d)
  eval_traces calls (ops ∷ traces) d = do
    checked ← eval_mm_valid ops d
    (stats, d) ← eval_rest calls ops checked
    (more, d) ← eval_traces calls traces d
    ok (stats ∷ more, d)

unfoldable pub numcorrect : List Stats → ℕ
numcorrect [] = 0
numcorrect (s ∷ stats) = if s.valid then numcorrect stats + 1 else numcorrect stats

-- The character that a trace file has for a request, and its line.
abbrev pub char_of : Request → ℕ
char_of alloc = b'a'
char_of realloc = b'r'
char_of free = b'f'

abbrev pub lines_of : List TraceOp → List Line
lines_of [] = []
lines_of (op ∷ ops) =
    record { type = char_of op.type; index = op.index; size = op.size } ∷ lines_of ops

-- The highest index that is allocated.
abbrev pub next_highest : Request → ℕ → ℕ → ℕ
next_highest alloc index m = max index m
next_highest realloc index m = max index m
next_highest free index m = m

abbrev pub highest : ℕ → List TraceOp → ℕ
highest m [] = m
highest m (op ∷ ops) = highest (next_highest op.type op.index m) ops

u32-small : (n : ℕ) → n < 2 ^ 31 → u32 n ≡ n
u32-small n h = omega arith

raised-max : (a b : ℕ) → raised a b ≡ max a b
unfolding raised
raised-max a b = ground arith

read_line-lines_of :
    (type : Request) (index size m : ℕ) (next : ℕ → Run (ℕ × List TraceOp)) (ops : List TraceOp)
    (h : ℕ)
    → index < 2 ^ 31
    → size < 2 ^ 31
    → next (next_highest type index m) ≡ ok (h, ops)
    → read_line
        (record { type = char_of type; index = index; size = size })
        m
        (request_of (char_of type))
        next
      ≡ ok (h, record { type = type; index = index; size = size } ∷ ops)
unfolding read_line request_of
read_line-lines_of alloc index size m next ops h i s e =
    rw (raised-max index m, e, u32-small index i, u32-small size s) refl
read_line-lines_of realloc index size m next ops h i s e =
    rw (raised-max index m, e, u32-small index i, u32-small size s) refl
read_line-lines_of free index size m next ops h i s e =
    rw (e, u32-small index i, u32-small size s) refl

-- The index and the size of each request are no negative `int`s.
abbrev pub IsInts : List TraceOp → Type 0
IsInts = All (λ (op : TraceOp). (op.index < 2 ^ 31) × (op.size < 2 ^ 31))

read_lines-lines_of :
    (m : ℕ) (ops : List TraceOp)
    → IsInts ops
    → read_lines m (lines_of ops) ≡ ok (highest m ops, ops)
unfolding read_lines
read_lines-lines_of m [] ints = refl
read_lines-lines_of m (op ∷ ops) ((i, s), ints) =
    read_line-lines_of op.type op.index op.size m (λ i. read_lines i (lines_of ops)) ops
      (highest m (op ∷ ops)) i s (read_lines-lines_of (next_highest op.type op.index m) ops ints)

-- `read_trace` on the request lines of a list of requests gives these requests, when their indexes
-- and sizes are below 2^31, the header has their number and one more than the highest index that
-- is allocated, both below 2^31, and `malloc` does not return NULL for the trace record, for 12
-- bytes for each request and for 8 bytes for each index.
pub read_trace-lines_of :
    (can_malloc : ℕ → Bool) (num_ids : ℕ) (ops : List TraceOp)
    → num_ids < 2 ^ 31
    → length ops < 2 ^ 31
    → IsInts ops
    → highest 0 ops + 1 ≡ num_ids
    → can_malloc trace_bytes ≡ true
    → can_malloc (traceop_bytes * length ops) ≡ true
    → can_malloc (pointer_bytes * num_ids) ≡ true
    → read_trace can_malloc num_ids (length ops) (lines_of ops) ≡ ok ops
unfolding read_trace has_arrays
read_trace-lines_of can_malloc num_ids ops few short ints exact first second third =
    let last : u32 (num_ids + 2 ^ 32 - 1) ≡ highest 0 ops = omega arith in
    let requests : array_bytes (length ops) traceop_bytes ≡ traceop_bytes * length ops =
      omega (arith, size_t_of-small (length ops) short) in
    let blocks : array_bytes num_ids pointer_bytes ≡ pointer_bytes * num_ids =
      omega (arith, size_t_of-small num_ids few) in
    rw
      (
        requests,
        blocks,
        first,
        second,
        third,
        read_lines-lines_of 0 ops ints,
        last,
        u32-small (length ops) short,
        (==_iff (highest 0 ops) (highest 0 ops)).1 refl,
        (==_iff (length ops) (length ops)).1 refl,
      )
      refl
