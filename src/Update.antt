-- ===== src/Update.antt =====
-- internal/update/update.go: the cached check for a newer release, and the download's progress.
-- `Progress` is the progress line's byte counts. The network and the file system are arguments:
-- what a lookup returned, and whether the cache file could be read. A time is nanoseconds since the
-- zero time, which is 0; the clock is the argument `now`.
pub mod Fresh
mod Tests
pub mod Progress
use anfra.Prelude.{
  ℕ, ◌-◌, String, Bool, true, false, not, ◌&&◌, ◌||◌, Option, none, some, str_eq, leb, ◌==◌,
  if◌then◌else◌, is_some, cat, trim_prefix, text_contains,
}

pub record Release : Type 0 where
  pub version : String
  pub tag : String

pub record Cache : Type 0 where
  pub checked_at : ℕ
  pub latest_version : String
  pub latest_tag : String
  pub skills_latest : String
  pub skills_checked_at : ℕ
  pub failed_at : ℕ

abbrev pub check_ttl : ℕ
check_ttl = 3_600_000_000_000

abbrev pub retry_after : ℕ
retry_after = 600_000_000_000

abbrev pub empty_cache : Cache
empty_cache = record {
  checked_at = 0;
  latest_version = "";
  latest_tag = "";
  skills_latest = "";
  skills_checked_at = 0;
  failed_at = 0;
}

-- The cache file: none when it is missing or cannot be read.
abbrev pub File : Type 0
File = Option Cache

-- `within`: set, not in the future, and at most `d` ago.
abbrev pub within : ℕ → ℕ → ℕ → Bool
within now t d = not (t == 0) && leb t now && leb (now - t) d

-- `Stale`
pub stale : ℕ → File → Bool
stale now none = true
stale now (some c) =
    if within now c.failed_at retry_after
    then false
    else not (within now c.checked_at check_ttl) || not (within now c.skills_checked_at check_ttl)

-- `cached`
abbrev pub cached_or_empty : File → Cache
cached_or_empty (some c) = c
cached_or_empty none = empty_cache

-- `RecordCheck`; the file is written.
pub record_check : ℕ → Release → File → File
record_check now r f = some (record (cached_or_empty f) {
  checked_at = now;
  latest_version = r.version;
  latest_tag = r.tag;
  failed_at = 0;
})

-- `RefreshSkills`: a failed lookup gives the empty version.
pub refresh_skills : ℕ → Option String → File → File
refresh_skills now skills f = some (record (cached_or_empty f) {
  skills_latest = elim skills [ some v ↦ v | none ↦ "" ];
  skills_checked_at = now;
})

-- `Refresh`: the two lookups, and whether there was an error.
pub refresh : ℕ → Option Release → Option String → File → File × Bool
unfolding record_check refresh_skills
refresh now rel skills f =
    let f1 : File = elim rel [
      | some r ↦ record_check now r f
      | none ↦ some (record (cached_or_empty f) { failed_at = now })
    ] in
    (refresh_skills now skills f1, not (is_some rel) || not (is_some skills))

-- `CachedSkills`
pub cached_skills : File → Option (String × ℕ)
cached_skills none = none
cached_skills (some c) =
    if str_eq c.skills_latest "" then none else some (c.skills_latest, c.skills_checked_at)

-- `Cached`
pub cached : File → Option Release
cached none = none
cached (some c) =
    if str_eq c.latest_version ""
    then none
    else some (record { version = c.latest_version; tag = c.latest_tag })

-- The test of `Check`: a version is cached, and `time.Since(c.CheckedAt) <= checkTTL`, which a time
-- in the future passes. A difference beyond what a duration holds is cut to its limit, so the zero
-- time fails it.
abbrev is_fresh : ℕ → Cache → Bool
is_fresh now c = not (str_eq c.latest_version "") && leb (now - c.checked_at) check_ttl

-- `Check`: the release or an error, and the cache file.
pub check : ℕ → Option Release → File → Option Release × File
unfolding record_check
check now found f =
    let live : Option Release × File = elim found [
      | some r ↦ (some r, record_check now r f)
      | none ↦ (none, f)
    ] in
    elim f [
      | none ↦ live
      | some c ↦
          if is_fresh now c
          then (some (record { version = c.latest_version; tag = c.latest_tag }), some c)
          else live
    ]

abbrev legacy_tag_prefix : String
legacy_tag_prefix = "anfra-v"

-- `tagVersion` and `canonicalVersion`
pub tag_version : String → String
tag_version tag = trim_prefix (trim_prefix tag legacy_tag_prefix) "v"

pub canonical_version : String → String
unfolding tag_version
canonical_version v = cat "v" (tag_version v)

-- `IsNewer`, with the comparison of golang.org/x/mod/semver as an argument: whether the first
-- version is greater. `version` is the binary's own, from source if it has build metadata.
pub is_newer : (String → String → Bool) → String → Release → Bool
unfolding canonical_version
is_newer greater version r =
    if text_contains version "+"
    then false
    else greater (canonical_version r.version) (canonical_version version)

-- `Notice`; none for the empty message.
pub notice : (String → String → Bool) → String → Option Release → Option String
unfolding is_newer
notice greater version none = none
notice greater version (some r) =
    if is_newer greater version r
    then some (
        cat "anfra "
          (cat r.version (cat " is available (you have " (cat version "). Run `anfra update`."))))
    else none
