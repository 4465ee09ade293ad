-- ===== src/Base/Words.antt =====
-- C integers: a value is a plain number, and every conversion to a fixed width is written out.
use Prim.Native.Nat.{ℕ, zero, suc, ◌%◌, ◌^◌}
use mathlib.Core.Bool.{Bool, true, false}

-- A conversion to `uint8_t`, `unsigned` (also `uint32_t`), `size_t`.
abbrev pub u8 : ℕ → ℕ
u8 n = n % 2 ^ 8

abbrev pub u32 : ℕ → ℕ
u32 n = n % 2 ^ 32

abbrev pub u64 : ℕ → ℕ
u64 n = n % 2 ^ 64

-- A number as a condition.
abbrev pub is_true : ℕ → Bool
is_true n = elim n [ zero ↦ false | suc k ↦ true ]
