-- ===== src/Update/Fresh.antt =====
-- internal/update/update.go: how long a check counts, and what it leaves in the cache.
use anfra.Prelude.{
  ℕ, ◌-◌, ◌≤◌, ◌<◌, String, ◌≡◌, ◌≢◌, ◌↔◌, true, false, Option, none, some, arith, eq_iff, is_some,
}
use anfra.Update.{
  Release, Cache, File, check_ttl, retry_after, stale, refresh, cached, check, cached_skills,
}

-- After a refresh that found a release, the cache is stale exactly once more than an hour has
-- passed, whatever it held before and whether or not the skills were found; after one that did not,
-- it is not stale for ten minutes. The clock is past zero and has not gone back.
pub refresh-stale :
    (now t : ℕ) (r : Release) (skills : Option String) (f : File)
    → 0 < now
    → now ≤ t
    → ((stale t (refresh now (some r) skills f).0 ≡ true) ↔ (check_ttl < t - now))
      × (t - now ≤ retry_after → stale t (refresh now none skills f).0 ≡ false)
unfolding refresh stale
refresh-stale now t r skills f pos le = ground arith

-- A refresh records the release it found, if that has a version, and keeps the cached one when it
-- found none; with the skills' version not found, it is recorded as unknown. It fails unless both
-- were found.
pub refresh-cached :
    (now : ℕ) (r : Release) (rel : Option Release) (skills : Option String) (f : File)
    → r.version ≢ ""
    → (cached (refresh now (some r) skills f).0 ≡ some r)
      × (cached (refresh now none skills f).0 ≡ cached f)
      × (cached_skills (refresh now rel none f).0 ≡ none)
      × (((refresh now rel skills f).1 ≡ false) ↔ ((is_some rel ≡ true) × (is_some skills ≡ true)))
unfolding refresh cached cached_skills
refresh-cached now r rel skills none named = ground (arith, eq_iff r.version "")
refresh-cached now r rel skills (some c) named = ground (arith, eq_iff r.version "")

-- A check without a cache file that finds a release with a version answers every check until an
-- hour later from the cache, whatever a lookup would find then, and such a check leaves the cache
-- as it is.
pub check-check :
    (now t : ℕ) (r : Release) (later : Option Release)
    → r.version ≢ ""
    → t - now ≤ check_ttl
    → check t later (check now (some r) none).1 ≡ (some r, (check now (some r) none).1)
unfolding check
check-check now t r later named fresh = ground (arith, eq_iff r.version "")

-- A check time in the future makes a cache with a version stale, as long as no failure was
-- recorded, and yet a check answers from it without a lookup.
pub check_future :
    (now : ℕ) (c : Cache) (later : Option Release)
    → c.failed_at ≡ 0
    → c.latest_version ≢ ""
    → now < c.checked_at
    → (stale now (some c) ≡ true)
      × (check now later (some c)
          ≡ (some (record { version = c.latest_version; tag = c.latest_tag }), some c))
unfolding stale check
check_future now c later ok_ named ahead = ground (arith, eq_iff c.latest_version "")
