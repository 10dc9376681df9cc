-- ===== src/Routine/Backoff/Tests.antt =====
-- Runs of the backoff of shared/routine/backoff.go at concrete ranges.
use anfra.Prelude.{ℕ, ◌+◌, ◌*◌, ◌/◌, ◌^◌, ◌≤◌, ◌<◌, ◌≡◌, refl, arith}
use anfra.Routine.Backoff.{Backoff, base_delay, next}
use anfra.Routine.Backoff.Growth.{capped, next_bounds, base_delay_collapse}

-- One second to thirty, at the third attempt.
abbrev third : Backoff
third = record { min = 1_000_000_000; max = 30_000_000_000; attempt = 2 }

-- Half of `n`, a value below it.
abbrev half : ℕ → ℕ
half n = n / 2

half-lt : (n : ℕ) → 0 < n → half n < n
half-lt n h = omega arith

next_bounds_example :
    (capped third / 2 ≤ (next half third).1)
    × ((next half third).1 ≤ capped third)
    × ((next half third).0.attempt ≡ third.attempt + 1)
next_bounds_example =
    next_bounds half third 1_953_125 9 half-lt (omega arith) refl (omega arith) (omega arith)

-- A minimum of 2 ^ 62 + 1 nanoseconds, at the third attempt.
abbrev wrapping : Backoff
wrapping = record { min = 4_611_686_018_427_387_905; max = 4_611_686_018_427_387_906; attempt = 2 }

base_delay_collapse_example : base_delay wrapping ≡ 1 * 2 ^ wrapping.attempt
base_delay_collapse_example =
    base_delay_collapse wrapping 1 1 (omega arith) (omega arith) refl (omega arith) (omega arith)
      (omega arith)
