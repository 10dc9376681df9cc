-- ===== src/Appserve/Limiter/Tests.antt =====
-- Runs of the limiter of internal/appserve/log.go on a path whose window is full.
use anfra.Prelude.{◌+◌, ◌≡◌, true, [], ◌∷◌, arith, if◌then◌else◌}
use anfra.Appserve.Limiter.{Limiter, allow}
use anfra.Appserve.Limiter.Heap.{pending}
use anfra.Appserve.Limiter.Conserved.{IsSound, told_drops, allow-IsSound}

-- A window that has allowed its 300 reports and dropped two.
abbrev full : Limiter
full = record {
  made = record { start = 10; count = 300; dropped = 2; timed = true } ∷ [];
  windows = ("/v1/query", 0) ∷ [];
  last_sweep = 0;
  timers = record { due = 60_000_000_010; path = "/v1/query"; window = 0 } ∷ [];
}

full-IsSound : IsSound full
full-IsSound = record { known = ground (arith); capped = ground (arith) }

allow-IsSound_example :
    IsSound (allow "/v1/query" 20 full).0
    × (pending (allow "/v1/query" 20 full).0.made + told_drops (allow "/v1/query" 20 full).2
        ≡ pending full.made + (if (allow "/v1/query" 20 full).1 then 0 else 1))
allow-IsSound_example = allow-IsSound "/v1/query" 20 full full-IsSound
