-- ===== src/Update/Tests.antt =====
-- Runs of the cached check of internal/update/update.go.
use anfra.Prelude.{ℕ, ◌≡◌, refl, true, some, arith, eq_iff}
use anfra.Update.{Release, Cache, stale, check}
use anfra.Update.Fresh.{check_future}

abbrev latest : Release
latest = record { version = "0.4.3"; tag = "v0.4.3" }

abbrev now : ℕ
now = 1_000_000_000_000

abbrev half_hour : ℕ
half_hour = 1_800_000_000_000

abbrev old : Cache
old = record {
  checked_at = 5;
  latest_version = "0.4.2";
  latest_tag = "v0.4.2";
  skills_latest = "";
  skills_checked_at = 0;
  failed_at = 0;
}

check_future_example :
    (stale 3 (some old) ≡ true)
    × (check 3 (some latest) (some old)
        ≡ (some (record { version = "0.4.2"; tag = "v0.4.2" }), some old))
check_future_example =
    check_future 3 old (some latest) refl (λ e. ground (arith, (eq_iff "0.4.2" "").1 e))
      (omega arith)
