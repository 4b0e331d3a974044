-- ===== src/Timer/Calls.antt =====
-- The times that `timerHandler` sets.
use no_js.Base.{ℕ, zero, suc, ◌+◌, ◌*◌, ◌/◌, ◌%◌, ◌<◌, ◌≡◌, refl, true, not, ◌||◌, arith, ◌==◌}
use no_js.Base.Int.{ℤ, pos, negsuc, neg}
use no_js.Timer.{time_spec, times_million, interval_flag, is_nonzero}

-- A number of milliseconds is set exactly, with less than a second in the nanoseconds.
pub time_spec_exact :
    (n : ℕ)
    → (s m : ℕ) × (time_spec (pos n) ≡ record { tv_sec = pos s; tv_nsec = pos m })
      × (s * 1000000000 + m ≡ n * 1000000)
      × (m < 1000000000)
unfolding time_spec
time_spec_exact n = (n / 1000, n % 1000 * 1000 * 1000, refl, omega arith, omega arith)

is_nonzero-neg : (q : ℕ) → is_nonzero (neg q) ≡ not (q == 0)
unfolding is_nonzero
is_nonzero-neg zero = refl
is_nonzero-neg (suc q) = ground arith

is_nonzero-times_million : (r : ℕ) → is_nonzero (times_million (neg r)) ≡ not (r == 0)
unfolding is_nonzero times_million
is_nonzero-times_million zero = refl
is_nonzero-times_million (suc r) = ground arith

quotient_or_remainder : (n : ℕ) → (not (suc n / 1000 == 0) || not (suc n % 1000 == 0)) ≡ true
quotient_or_remainder n = ground arith

-- A timer repeats just when its interval is not 0, negative intervals included.
pub interval_flag-time_spec : (z : ℤ) → interval_flag (time_spec z) ≡ is_nonzero z
unfolding time_spec interval_flag is_nonzero
interval_flag-time_spec (pos n) = ground arith
interval_flag-time_spec (negsuc n) =
    rw (is_nonzero-neg (suc n / 1000), is_nonzero-times_million (suc n % 1000))
      (quotient_or_remainder n)
