-- ===== src/DataLab/Ints.antt =====
-- The operators of C on a 32-bit `int` or `unsigned`, on bit patterns: numbers below 2 ^ 32.
use orga_del_computador.Base.{ℕ, ◌+◌, ◌-◌, ◌*◌, ◌/◌, ◌^◌, Bool, ltb, ◌==◌, u32, if◌then◌else◌}

-- `~x`
abbrev pub inv : ℕ → ℕ
inv x = 2 ^ 32 - 1 - x

-- `!x`
abbrev pub lnot : ℕ → ℕ
lnot x = if x == 0 then 1 else 0

-- `x + y`
abbrev pub add : ℕ → ℕ → ℕ
add x y = u32 (x + y)

-- `x << k`
abbrev pub shl : ℕ → ℕ → ℕ
shl x k = u32 (x * 2 ^ k)

-- `x >> k` on an `int`: the sign bit is copied.
abbrev pub sar : ℕ → ℕ → ℕ
sar x k = if ltb x (2 ^ 31) then x / 2 ^ k else x / 2 ^ k + (2 ^ 32 - 2 ^ 32 / 2 ^ k)

-- `x < y` on `int`s.
abbrev pub slt : ℕ → ℕ → Bool
slt x y = ltb (u32 (x + 2 ^ 31)) (u32 (y + 2 ^ 31))
