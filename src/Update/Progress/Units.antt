-- ===== src/Update/Progress/Units.antt =====
-- internal/update/update.go: the units of `humanBytes`.
use anfra.Prelude.{ℕ, ◌+◌, ◌/◌, ◌^◌, ◌≤◌, ◌<◌, ◌≡◌, arith}
use anfra.Update.Progress.{units, scale}

-- For every int64 of at least one unit the index lies in "KMGTPE", the divisor is 1024 to the
-- power one above it, and the size divided by it is at least 1 and below 1024.
pub scale_bounds :
    (n : ℕ)
    → 1024 ≤ n
    → n < 2 ^ 63
    → let (d, e) = scale n in (e < 6) × (d ≡ 1024 ^ (e + 1)) × (d ≤ n) × (n / d < 1024)
unfolding scale units
scale_bounds n lo hi = ground arith
