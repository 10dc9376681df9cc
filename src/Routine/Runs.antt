-- ===== src/Routine/Runs.antt =====
-- shared/routine/routine.go and report.go: how a routine's function is run, restarted and counted.
-- What the function does, the clock and the contexts are the input: a list of what happened.
pub mod Counts
mod Tests
use anfra.Prelude.{ℕ, ◌+◌, Bool, true, false, List, [], ◌∷◌, ltb, if◌then◌else◌, Result, ok, err}
use anfra.Routine.Backoff.{Backoff, next, reset}

-- The counters of report.go for one routine's name; a gauge is the last value set.
pub record Metrics : Type 0 where
  pub ok_runs : ℕ
  pub error_runs : ℕ
  pub panic_runs : ℕ
  pub recorded : ℕ
  pub restarts : ℕ
  pub active : ℕ

pub data Outcome : Type 0 where
  outcome_ok outcome_error outcome_panic : Outcome

pub count_run : Outcome → Metrics → Metrics
count_run outcome_ok m = record m { ok_runs = m.ok_runs + 1 }
count_run outcome_error m = record m { error_runs = m.error_runs + 1 }
count_run outcome_panic m = record m { panic_runs = m.panic_runs + 1 }

-- `recordRun` also records the duration, and the time of a success.
pub record_run : Outcome → Metrics → Metrics
unfolding count_run
record_run o m = let m' = count_run o m in record m' { recorded = m'.recorded + 1 }

pub count_restart : Metrics → Metrics
count_restart m = record m { restarts = m.restarts + 1 }

-- How a call of the routine's function ended.
pub data Ended : Type 0 where
  returned_nil returned_error panicked : Ended

-- `call`: with recover a panic is an outcome, otherwise it passes on (`err`).
pub call : Bool → Ended → Result (Unit {0}) Outcome
call recover returned_nil = ok outcome_ok
call recover returned_error = ok outcome_error
call true panicked = ok outcome_panic
call false panicked = err tt

-- `run`, and `crashOnPanic` around it: the metrics, and whether the process crashed.
pub run : Bool → Ended → Metrics → Metrics × Bool
unfolding call record_run count_run
run recover e m = elim (call recover e) [
  | ok o ↦ (record_run o m, false)
  | err _ ↦ (count_run outcome_panic m, true)
]

-- `every`: each entry is a sleep that was not cut by `Stop`, and how the run after it ended.
pub every_loop : Bool → List Ended → Metrics → Metrics × Bool
unfolding run
every_loop recover [] m = (m, false)
every_loop recover (e ∷ es) m =
    let rest = every_loop recover es (run recover e m).0 in
    if (run recover e m).1 then ((run recover e m).0, true) else rest

-- A round of a loop: whether its function's context had ended when it returned, how long it
-- lasted, and whether the context ended during the backoff.
pub record Round : Type 0 where
  pub ctx_ended : Bool
  pub lasted : ℕ
  pub wait_ended : Bool

pub record LoopState : Type 0 where
  pub metrics : Metrics
  pub backoff : Backoff
  -- the delays waited, the last first
  pub delays : List ℕ

module _ (rand : ℕ → ℕ) (backoff_max : ℕ) where
  -- The part of a round before the restart: the failure counted, the backoff reset after a long
  -- run, and its next delay taken.
  pub fail_round : ℕ → LoopState → LoopState
  unfolding count_run next reset
  fail_round lasted s =
      let b = if ltb backoff_max lasted then reset s.backoff else s.backoff in
      let (b', d) = next rand b in
      record { metrics = count_run outcome_error s.metrics; backoff = b'; delays = d ∷ s.delays }

  -- `loop`, until its context ends: the state, and whether the loop returned.
  pub restart_loop : List Round → LoopState → LoopState × Bool
  unfolding count_restart
  restart_loop [] s = (s, false)
  restart_loop (r ∷ rs) s =
      let failed = fail_round r.lasted s in
      let rest = restart_loop rs (record failed { metrics = count_restart failed.metrics }) in
      if r.ctx_ended then (s, true) else if r.wait_ended then (failed, true) else rest
