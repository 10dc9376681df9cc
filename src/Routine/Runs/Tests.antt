-- ===== src/Routine/Runs/Tests.antt =====
-- Runs of the routines of shared/routine/routine.go, as report.go counts them.

use anfra.Prelude.{ℕ, ◌/◌, ◌<◌, true, false, List, [], ◌∷◌, arith}
use anfra.Routine.Runs.{Metrics, Ended, returned_nil, panicked, returned_error, Round, LoopState}

abbrev no_runs : Metrics
no_runs = record {
  ok_runs = 0;
  error_runs = 0;
  panic_runs = 0;
  recorded = 0;
  restarts = 0;
  active = 0;
}

abbrev mixed : List Ended
mixed = returned_nil ∷ panicked ∷ returned_error ∷ []

abbrev half : ℕ → ℕ
half n = n / 2

abbrev fresh : LoopState
fresh = record {
  metrics = no_runs;
  backoff = record { min = 4; max = 64; attempt = 0 };
  delays = [];
}

abbrev rounds : List Round
rounds =
    record { ctx_ended = false; lasted = 1; wait_ended = false }
    ∷ record { ctx_ended = false; lasted = 100; wait_ended = false }
    ∷ record { ctx_ended = true; lasted = 3; wait_ended = false }
    ∷ []

half-lt : (n : ℕ) → 0 < n → half n < n
half-lt n h = omega arith
