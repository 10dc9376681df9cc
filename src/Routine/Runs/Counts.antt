-- ===== src/Routine/Runs/Counts.antt =====
-- shared/routine: the counters of a routine's runs, and the delays of a loop.
use anfra.Prelude.{
  ℕ, suc, ◌+◌, ◌/◌, ◌≤◌, ◌<◌, ◌≡◌, refl, ap, ◌↔◌, ◌⊎◌, inl, inr, true, false, List, [], ◌∷◌, arith,
  ltb, Bool-cases, length, All,
}
use anfra.Routine.Backoff.{Backoff, next, reset, base_delay}
use anfra.Routine.Runs.{
  Metrics, Ended, panicked, run, every_loop, Round, LoopState, restart_loop, fail_round,
  count_restart,
}

abbrev runs_counted : Metrics → ℕ
runs_counted m = m.ok_runs + m.error_runs + m.panic_runs

abbrev pub panics : List Ended → ℕ
panics [] = 0
panics (panicked ∷ es) = suc (panics es)
panics (_ ∷ es) = panics es

-- A periodic routine that recovers counts each run once, a panic as a panic, and never crashes.
pub every_loop-recover :
    (es : List Ended) (m : Metrics)
    → let (m', crashed) = every_loop true es m in
      (crashed ≡ false)
      × (m'.ok_runs + m'.error_runs + m'.panic_runs
          ≡ m.ok_runs + m.error_runs + m.panic_runs + length es)
      × (m'.panic_runs ≡ m.panic_runs + panics es)
unfolding every_loop run
every_loop-recover [] m = ground arith
every_loop-recover (e ∷ es) m = ground (arith, every_loop-recover es (run true e m).0)

-- Without recovery the process crashes exactly when some run panicked, and then just one panic is
-- counted; otherwise none is.
pub every_loop-crash :
    (es : List Ended) (m : Metrics)
    → let (m', crashed) = every_loop false es m in
      ((crashed ≡ true) ↔ (0 < panics es))
      × (crashed ≡ true → m'.panic_runs ≡ m.panic_runs + 1)
      × (crashed ≡ false → m'.panic_runs ≡ m.panic_runs)
unfolding every_loop run
every_loop-crash [] m = ground arith
every_loop-crash (e ∷ es) m = ground (arith, every_loop-crash es (run false e m).0)

base_delay-le : (b : Backoff) → base_delay b ≤ b.max
unfolding base_delay
base_delay-le b = ground arith

abbrev AtMost : ℕ → List ℕ → Type 0
AtMost n = All (λ d. d ≤ n)

-- The relation between the state before and after some rounds of a loop.
pub record Follows (s t : LoopState) : Type 0 where
  pub same_max : t.backoff.max ≡ s.backoff.max
  pub delays_capped : AtMost s.backoff.max t.delays
  pub delay_each : length t.delays + s.metrics.error_runs ≡ length s.delays + t.metrics.error_runs
  pub restart_each :
      (t.metrics.error_runs + s.metrics.restarts ≡ s.metrics.error_runs + t.metrics.restarts)
      ⊎ (t.metrics.error_runs + s.metrics.restarts ≡ s.metrics.error_runs + t.metrics.restarts + 1)

module _ (rand : ℕ → ℕ) (random : (n : ℕ) → 0 < n → rand n < n) (backoff_max : ℕ) where
  next-le : (b : Backoff) → (next rand b).1 ≤ b.max
  unfolding next
  next-le b = omega (arith, base_delay-le b, random (base_delay b / 2 + 1) (omega arith))

  fail_round-Follows :
      (l : ℕ) (s : LoopState)
      → AtMost s.backoff.max s.delays
      → let t = fail_round rand backoff_max l s in
        (t.backoff.max ≡ s.backoff.max)
        × AtMost s.backoff.max t.delays
        × (length t.delays ≡ length s.delays + 1)
        × (t.metrics.error_runs ≡ s.metrics.error_runs + 1)
        × (t.metrics.restarts ≡ s.metrics.restarts)
  unfolding fail_round
  fail_round-Follows l s h = elim (Bool-cases (ltb backoff_max l)) [
    | inl long ↦ rw long (refl, (next-le (reset s.backoff), h), omega arith, refl, refl)
    | inr short ↦ rw short (refl, (next-le s.backoff, h), omega arith, refl, refl)
  ]

  Follows-trans :
      (s t u v : LoopState)
      → t.backoff.max ≡ s.backoff.max
      → t.metrics.error_runs ≡ s.metrics.error_runs + 1
      → length t.delays ≡ length s.delays + 1
      → t.metrics.restarts ≡ s.metrics.restarts
      → u ≡ record t { metrics = count_restart t.metrics }
      → Follows u v
      → Follows s v
  unfolding count_restart
  Follows-trans s t u v same counted delay kept e f = record {
    same_max = ground arith;
    delays_capped = rw (← same, ← ap (λ (w : LoopState). w.backoff.max) e) f.delays_capped;
    delay_each = omega (
      arith,
      f.delay_each,
      ap (λ (w : LoopState). w.metrics.error_runs) e,
      ap (λ (w : LoopState). length w.delays) e,
    );
    restart_each = omega (
      arith,
      f.restart_each,
      ap (λ (w : LoopState). w.metrics.error_runs) e,
      ap (λ (w : LoopState). w.metrics.restarts) e,
    );
  }

  -- Over any rounds of a loop, each failed run is counted once and takes one delay, no delay
  -- passes the backoff's maximum, which is kept, and each counted failure but possibly the last is
  -- followed by one counted restart. The random source gives values below its bound, and the
  -- delays before were within the maximum.
  pub restart_loop-Follows :
      (rs : List Round) (s : LoopState)
      → AtMost s.backoff.max s.delays
      → Follows s (restart_loop rand backoff_max rs s).0
  unfolding restart_loop
  restart_loop-Follows [] s h = ground arith
  restart_loop-Follows (r ∷ rs) s h =
      let t : LoopState = fail_round rand backoff_max r.lasted s in
      let (same, capped, delay, counted, kept) = fail_round-Follows r.lasted s h in
      let u : LoopState = record t { metrics = count_restart t.metrics } in
      let later : Follows u (restart_loop rand backoff_max rs u).0 =
        restart_loop-Follows rs u (rw same capped) in
      elim (Bool-cases r.ctx_ended) [
        | inl stopped ↦ rw stopped (ground arith)
        | inr going ↦ rw going (elim (Bool-cases r.wait_ended) [
          | inl cut ↦ rw cut (ground arith)
          | inr waited ↦ rw waited (Follows-trans s t u _ same counted delay kept refl later)
        ])
      ]
