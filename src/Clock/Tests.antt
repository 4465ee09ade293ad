-- ===== src/Clock/Tests.antt =====
-- A counter whose low word wraps around between two readings.
use orga_del_computador.Base.{ℕ, ◌+◌, ◌-◌, ◌*◌, ◌%◌, ◌^◌, ◌/◌, ◌≤◌, ◌≡◌, refl, arith}
use orga_del_computador.Clock.{
  Counter, to_double, spacing, start_counter, get_counter, get_counter-start_counter, elapsed,
}

abbrev rdtsc : ℕ → ℕ
rdtsc i = (2 ^ 32 - 5 + 100 * i) % 2 ^ 64

abbrev new_counter : Counter
new_counter = record { cyc_hi = 0; cyc_lo = 0; readings = 0 }

-- The cycles are 100: less than 2^53, and so without a rounding.
get_counter-start_counter_example :
    ((get_counter rdtsc (start_counter rdtsc new_counter)).0
      ≤ elapsed (rdtsc 0) (rdtsc 1) + elapsed (rdtsc 0) (rdtsc 1) / 2 ^ 53)
    × (elapsed (rdtsc 0) (rdtsc 1)
        ≤ (get_counter rdtsc (start_counter rdtsc new_counter)).0
          + elapsed (rdtsc 0) (rdtsc 1) / 2 ^ 53)
get_counter-start_counter_example = get_counter-start_counter rdtsc (λ i. omega arith) new_counter

-- Between two `double`s the even one: 2^53 + 1 is rounded down and 2^53 + 3 is rounded up.
to_double_test :
    (to_double (2 ^ 53 + 1) ≡ 2 ^ 53)
    × (to_double (2 ^ 53 + 3) ≡ 2 ^ 53 + 4)
    × (to_double (2 ^ 64 - 1) ≡ 2 ^ 64)
unfolding to_double spacing
to_double_test = (refl, refl, refl)
