-- ===== src/Clock.antt =====
-- Tp2/clock.c on x86: the cycle counter, which is read in two words. What `rdtsc` gives is a
-- parameter, by the number of times that it was read before.
mod Tests
use orga_del_computador.Base.{
  ℕ, zero, suc, ◌+◌, ◌-◌, ◌*◌, ◌/◌, ◌%◌, ◌^◌, ◌≤◌, ◌<◌, ◌≡◌, ◌⊎◌, inl, inr, ◌&&◌, ◌||◌, ◌==◌, refl,
  Bool, true, false, arith, ltb, u32, if◌then◌else◌,
}
use native.Mathlib.Nat.{div-add-mod, mod-lt}

-- The static variables, with the number of readings.
pub record Counter : Type 0 where
  pub cyc_hi : ℕ
  pub cyc_lo : ℕ
  pub readings : ℕ

-- The high and the low word, by `movl` from %edx and %eax.
unfoldable pub access_counter : (ℕ → ℕ) → ℕ → ℕ × ℕ
access_counter rdtsc i = (u32 (rdtsc i / 2 ^ 32), u32 (rdtsc i))

unfoldable pub start_counter : (ℕ → ℕ) → Counter → Counter
unfolding access_counter
start_counter rdtsc c =
    let (hi, lo) = access_counter rdtsc c.readings in
    record { cyc_hi = hi; cyc_lo = lo; readings = c.readings + 1 }

-- How far apart the `double`s around `n` are, from 2^53 on; `fuel` bounds the halvings.
unfoldable pub spacing : ℕ → ℕ → ℕ
spacing zero n = 1
spacing (suc fuel) n = let rest = spacing fuel (n / 2) in if ltb n (2 ^ 53) then 1 else 2 * rest

-- The `double` nearest to a number below 2^64, the one with an even significand between two: a sum of
-- two whole `double`s is rounded once.
unfoldable pub to_double : ℕ → ℕ
unfolding spacing
to_double n =
    let gap = spacing 11 n in
    let low = n / gap in
    let rest = n % gap in
    (if ltb gap (2 * rest) || (gap == 2 * rest) && low % 2 == 1 then low + 1 else low) * gap

-- The subtraction in two words: `hi * 2^32 + lo` as a number.
unfoldable pub subtract : Counter → ℕ × ℕ → ℕ
subtract c (ncyc_hi, ncyc_lo) =
    let lo = u32 (ncyc_lo + 2 ^ 32 - c.cyc_lo) in
    let borrow = if ltb ncyc_lo lo then 1 else 0 in
    let hi = u32 (ncyc_hi + 2 * 2 ^ 32 - c.cyc_hi - borrow) in hi * 2 ^ 30 * 4 + lo

-- The result: `hi * 2^32` and `lo` are `double`s, and their sum is rounded to one.
unfoldable pub difference : Counter → ℕ × ℕ → ℕ
unfolding subtract to_double
difference c reading = to_double (subtract c reading)

unfoldable pub get_counter : (ℕ → ℕ) → Counter → ℕ × Counter
unfolding access_counter difference
get_counter rdtsc c =
    (difference c (access_counter rdtsc c.readings), record c { readings = c.readings + 1 })

-- The rounds of the loop of `ovhd`, with the result so far.
unfoldable pub ovhd_loop : (ℕ → ℕ) → ℕ → ℕ → Counter → ℕ × Counter
unfolding start_counter get_counter
ovhd_loop rdtsc zero result c = (result, c)
ovhd_loop rdtsc (suc rounds) result c =
    let (result, c) = get_counter rdtsc (start_counter rdtsc c) in ovhd_loop rdtsc rounds result c

unfoldable pub ovhd : (ℕ → ℕ) → Counter → ℕ × Counter
unfolding ovhd_loop
ovhd rdtsc c = ovhd_loop rdtsc 2 0 c

-- The number of cycles from one reading of a counter of 64 bits to another, when it may have
-- started again from 0 between them.
abbrev pub elapsed : ℕ → ℕ → ℕ
elapsed old new = (new + 2 ^ 64 - old) % 2 ^ 64

-- A gap is 1 or even, and half of it is at most what is left of the number above 2^53.
spacing-le :
    (fuel n : ℕ)
    → ((spacing fuel n ≡ 1) ⊎ (spacing fuel n % 2 ≡ 0))
      × (0 < spacing fuel n)
      × (spacing fuel n ≤ 2 * (n / 2 ^ 53) + 1)
unfolding spacing
spacing-le zero n = (inl refl, omega arith, omega arith)
spacing-le (suc fuel) n =
    let (even, pos, h) = spacing-le fuel (n / 2) in (ground arith, ground arith, ground arith)

-- The nearest of the numbers a gap apart is half a gap away at most.
near :
    (gap low rest n spare : ℕ)
    → (gap ≡ 1) ⊎ (gap % 2 ≡ 0)
    → gap ≤ 2 * spare + 1
    → rest < gap
    → gap * low + rest ≡ n
    → (up : Bool) → up ≡ (ltb gap (2 * rest) || (gap == 2 * rest) && low % 2 == 1)
    → ((if up then low + 1 else low) * gap ≤ n + spare)
      × (n ≤ (if up then low + 1 else low) * gap + spare)
near gap low rest n spare even h below parts true e =
    let half : gap ≤ 2 * rest = ground arith in (omega arith, omega arith)
near gap low rest n spare even h below parts false e =
    let half : 2 * rest ≤ gap = ground arith in (omega arith, omega arith)

-- The rounded number is as near as half a gap.
pub to_double-near : (n : ℕ) → (to_double n ≤ n + n / 2 ^ 53) × (n ≤ to_double n + n / 2 ^ 53)
unfolding to_double
to_double-near n =
    let (even, pos, h) = spacing-le 11 n in
    near (spacing 11 n) (n / spacing 11 n) (n % spacing 11 n) n (n / 2 ^ 53) even h (mod-lt n pos)
      (div-add-mod n (spacing 11 n)) _ refl

subtract-elapsed :
    (old new readings : ℕ)
    → old < 2 ^ 64
    → new < 2 ^ 64
    → subtract
        (record { cyc_hi = u32 (old / 2 ^ 32); cyc_lo = u32 old; readings = readings })
        (u32 (new / 2 ^ 32), u32 new)
      ≡ elapsed old new
unfolding subtract
subtract-elapsed old new readings h k = ground arith

module _ (rdtsc : ℕ → ℕ) (wide : (i : ℕ) → rdtsc i < 2 ^ 64) (c : Counter) where
  -- When `rdtsc` gives numbers below 2^64, `get_counter` behind `start_counter` gives the cycles
  -- between the two readings of the counter of 64 bits, also when the low words or the counter
  -- itself wrap around, up to the rounding to a `double`: the result differs from them by their
  -- 2^53rd part at most, rounded down, and so by nothing below 2^53.
  pub get_counter-start_counter :
      ((get_counter rdtsc (start_counter rdtsc c)).0
        ≤ elapsed (rdtsc c.readings) (rdtsc (c.readings + 1))
          + elapsed (rdtsc c.readings) (rdtsc (c.readings + 1)) / 2 ^ 53)
      × (elapsed (rdtsc c.readings) (rdtsc (c.readings + 1))
          ≤ (get_counter rdtsc (start_counter rdtsc c)).0
            + elapsed (rdtsc c.readings) (rdtsc (c.readings + 1)) / 2 ^ 53)
  unfolding get_counter start_counter access_counter difference
  get_counter-start_counter =
      rw
        (subtract-elapsed (rdtsc c.readings) (rdtsc (c.readings + 1)) (c.readings + 1)
          (wide c.readings) (wide (c.readings + 1)))
        (to_double-near (elapsed (rdtsc c.readings) (rdtsc (c.readings + 1))))
