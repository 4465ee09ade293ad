-- ===== src/Driver/Trace.antt =====
-- The requests of a trace, and what the driver keeps while it replays them.
use orga_del_computador.Base.{ℕ, ◌+◌, ◌-◌, ◌^◌, ◌<◌, ◌≡◌, arith, List, ltb, ◌==◌, if◌then◌else◌}
use orga_del_computador.Driver.Package.{Package}

pub data Request : Type 0 where
  alloc free realloc : Request

-- `index` and `size` are `int`s, as bit patterns.
pub record TraceOp : Type 0 where
  pub type : Request
  pub index : ℕ
  pub size : ℕ

-- The extent of a payload, both ends included.
pub record Range : Type 0 where
  pub lo : ℕ
  pub hi : ℕ

-- `blocks` and `block_sizes` are the arrays of the trace; `errors` counts the calls of
-- `malloc_error`.
pub record Driver (p : Package) : Type 0 where
  pub mem : p.State
  pub ranges : List Range
  pub blocks : ℕ → ℕ
  pub block_sizes : ℕ → ℕ
  pub errors : ℕ

-- An `int` that is passed as a `size_t`: the sign is extended.
unfoldable pub size_t_of : ℕ → ℕ
size_t_of x = if ltb x (2 ^ 31) then x else x + (2 ^ 64 - 2 ^ 32)

pub size_t_of-small : (x : ℕ) → x < 2 ^ 31 → size_t_of x ≡ x
unfolding size_t_of
size_t_of-small x h = ground arith

unfoldable pub assign : (ℕ → ℕ) → ℕ → ℕ → ℕ → ℕ
assign a i v j = if j == i then v else a j

module _ {p : Package} where
  abbrev pub malloc_error : Driver p → Driver p
  malloc_error d = record d { errors = d.errors + 1 }

  -- `trace->blocks[index] = p; trace->block_sizes[index] = size;`
  unfoldable pub remember : Driver p → ℕ → ℕ → ℕ → Driver p
  unfolding assign
  remember d index ptr size = record d {
    blocks = assign d.blocks index ptr;
    block_sizes = assign d.block_sizes index size;
  }
