-- ===== src/Routine/Backoff.antt =====
-- shared/routine/backoff.go: the retry delay. A `time.Duration` is an int64 of nanoseconds; the
-- random source is an argument, `rand n` standing for `rand.Int64N(n)`, a value below `n`.
pub mod Growth
mod Tests
use anfra.Prelude.{ℕ, ◌+◌, ◌*◌, ◌/◌, ◌%◌, ◌^◌, Bool, ◌&&◌, ltb, leb, if◌then◌else◌, Result, ok, err}

pub record Backoff : Type 0 where
  pub min : ℕ
  pub max : ℕ
  pub attempt : ℕ

-- The panic of `checkBackoff`.
pub data Panic : Type 0 where
  bad_range : ℕ → ℕ → Panic

unfoldable pub check_backoff : ℕ → ℕ → Result Panic (Unit {0})
check_backoff lo hi =
    if leb lo 0 then err (bad_range lo hi) else if ltb hi lo then err (bad_range lo hi) else ok tt

pub new_backoff : ℕ → ℕ → Result Panic Backoff
unfolding check_backoff
new_backoff lo hi = elim (check_backoff lo hi) [
  | ok _ ↦ ok (record { min = lo; max = hi; attempt = 0 })
  | err e ↦ err e
]

-- `x << k` on an int64: the low 64 bits, to be read as two's complement.
abbrev shl64 : ℕ → ℕ → ℕ
shl64 x k = x * 2 ^ k % 2 ^ 64

-- `grown > 0` of such a pattern: not zero, and the sign bit clear.
abbrev is_positive : ℕ → Bool
is_positive g = ltb 0 g && ltb g (2 ^ 63)

-- The delay before jitter: `min << attempt` where that is positive and below `max`, else `max`.
unfoldable pub base_delay : Backoff → ℕ
base_delay b =
    if ltb b.attempt 62 && is_positive (shl64 b.min b.attempt) && ltb (shl64 b.min b.attempt) b.max
    then shl64 b.min b.attempt
    else b.max

unfoldable pub next : (ℕ → ℕ) → Backoff → Backoff × ℕ
next rand b =
    let d = base_delay b in (record b { attempt = b.attempt + 1 }, d / 2 + rand (d / 2 + 1))

unfoldable pub reset : Backoff → Backoff
reset b = record b { attempt = 0 }
