-- ===== src/Cliauth/Manager.antt =====
-- internal/cliauth/oauth_manager.go: `loadAccessToken`, `renewLogin` and `Logout`; and oauth_login.go:
-- how `Login` saves the login it was granted. Each runs under the machine's one lock.
use anfra.Prelude.{
  ℕ, ◌+◌, String, Bool, true, false, not, ◌&&◌, ◌||◌, Option, none, some, List, [], ◌∷◌, ◌++◌, ltb,
  if◌then◌else◌, Result, ok, err,
}
use anfra.Cliauth.{
  Org, credential_key, StoredCredential, Checks, Disk, Outcome, mark, save, clear, is_usable,
  TokenResponse, validate, same_org,
}

-- What the server was told, newest last: a refresh token traded in, one given up because its login
-- could not be saved, or one revoked on signing out; each with its org's key.
pub data Request : Type 0 where
  refreshed abandoned signed_out : String → String → Request

pub record Machine : Type 0 where
  pub disk : Disk
  pub requests : List Request

pub data AuthError : Type 0 where
  login_required not_written still_active unsaved unsaved_still_active : AuthError

-- What one renewal meets: how each write goes, and what the server answers, if it does, at a time.
pub record Renewal : Type 0 where
  pub marking : Outcome
  pub pending_save : Outcome
  pub successor_save : Outcome
  pub removal : Outcome
  pub remarking : Outcome
  pub reply : Option TokenResponse
  pub started : ℕ
  pub replied : ℕ

abbrev pub tell : Request → Machine → Machine
tell r m = record m { requests = m.requests ++ r ∷ [] }

abbrev pub on_disk : Machine → Disk → Machine
on_disk m d = record m { disk = d }

-- The reply that continues a login: `validateTokenResponse`, with the endpoints it had.
abbrev pub successor_of : Checks → Renewal → StoredCredential → Option StoredCredential
successor_of k w e = elim w.reply [
  | none ↦ none
  | some r ↦ elim (validate k r e.org.origin w.started w.replied (some e)) [
    | none ↦ none
    | some s ↦ some (record s {
      token_endpoint = e.token_endpoint;
      revocation_endpoint = e.revocation_endpoint;
    })
  ]
]

-- `renewLogin`, from the reply on.
unfoldable pub keep_successor :
    Renewal
    → StoredCredential
    → Option StoredCredential
    → Machine
    → Machine × Result AuthError StoredCredential
keep_successor w e none m = (m, err login_required)
keep_successor w e (some s) m =
    let key = credential_key e.org in
    let (saved, kept) = save w.successor_save key (some s) m.disk in
    let (cleared, clean) = clear w.removal w.remarking key saved in
    if not kept
    then (on_disk m saved, err not_written)
    else if not clean
    then (on_disk m cleared, err not_written)
    else (on_disk m cleared, ok s)

-- `renewLogin`
unfoldable pub renew_login :
    Checks → Renewal → StoredCredential → Machine → Machine × Result AuthError StoredCredential
unfolding keep_successor
renew_login k w e m =
    let key = credential_key e.org in
    let (marked, is_marked) = mark w.marking key m.disk in
    let e' = record e { pending = true } in
    let (saved, is_saved) = save w.pending_save key (some e') marked in
    if not is_marked
    then (on_disk m marked, err not_written)
    else if not is_saved
    then (on_disk m saved, err not_written)
    else keep_successor w e' (successor_of k w e')
        (tell (refreshed key e.refresh_token) (on_disk m saved))

abbrev pub access_token_of :
    Machine × Result AuthError StoredCredential → Machine × Result AuthError String
access_token_of (m, ok e) = (m, ok e.access_token)
access_token_of (m, err x) = (m, err x)

-- `loadAccessToken`, at a time.
unfoldable pub load_access_token :
    Checks → ℕ → Renewal → Org → Machine → Machine × Result AuthError String
unfolding renew_login
load_access_token k now w org m =
    let key = credential_key org in
    elim (m.disk.entries key) [
      | none ↦ (m, err login_required)
      | some e ↦
          if m.disk.markers key || not (is_usable k now org e)
          then (m, err login_required)
          else if ltb e.access_expiry (now + 300)
          then access_token_of (renew_login k w e m)
          else (m, ok e.access_token)
    ]

-- What saving a new login meets; `revoked` is whether the server confirmed giving it up.
pub record Saving : Type 0 where
  pub marking : Outcome
  pub saving : Outcome
  pub removal : Outcome
  pub remarking : Outcome
  pub revoked : Bool

-- `Login` marks an org that is not marked yet.
unfoldable pub ensure_marked : Outcome → String → Disk → Disk × Bool
ensure_marked o key d = if d.markers key then (d, true) else mark o key d

-- The function that `Login` runs under the lock.
unfoldable pub save_login : Saving → StoredCredential → Disk → Disk × Bool
unfolding ensure_marked
save_login w e d =
    let key = credential_key e.org in
    let (marked, is_marked) = ensure_marked w.marking key d in
    let (saved, is_saved) = save w.saving key (some e) marked in
    if not is_marked
    then (marked, false)
    else if not is_saved
    then (saved, false)
    else clear w.removal w.remarking key saved

-- `Login`, once the server has granted a login: a login that is not saved is given up.
unfoldable pub finish_login : Saving → StoredCredential → Machine → Machine × Result AuthError Org
unfolding save_login
finish_login w e m =
    let (d, is_saved) = save_login w e m.disk in
    if is_saved then (on_disk m d, ok e.org) else (
      tell (abandoned (credential_key e.org) e.refresh_token) (on_disk m d),
      err (if w.revoked then unsaved else unsaved_still_active),
    )

pub record LogoutResult : Type 0 where
  pub local_removed : Bool
  pub remote_revocation_confirmed : Bool

pub record Removal : Type 0 where
  pub saving : Outcome
  pub removal : Outcome
  pub remarking : Outcome
  pub confirmed : Bool

-- Whether an entry's login may be revoked at its endpoint.
unfoldable pub is_revocable : Checks → Org → StoredCredential → Bool
is_revocable k org e =
    same_org e.org org
    && k.safe_endpoint e.revocation_endpoint org.origin
    && k.safe_token e.refresh_token

-- `Logout`
unfoldable pub logout :
    Checks → Removal → Org → Machine → Machine × LogoutResult × Result AuthError (Unit {0})
unfolding is_revocable
logout k w org m =
    let key = credential_key org in
    elim (m.disk.entries key) [
      | none ↦ (m, record { local_removed = true; remote_revocation_confirmed = false }, ok tt)
      | some e ↦
          let told =
            (if is_revocable k org e then tell (signed_out key e.refresh_token) m else m) in
          let confirmed = is_revocable k org e && w.confirmed in
          let (saved, is_saved) = save w.saving key none m.disk in
          let (cleared, is_clear) = clear w.removal w.remarking key saved in
          if not is_saved
          then (
            on_disk told saved,
            record { local_removed = false; remote_revocation_confirmed = false },
            err not_written,
          )
          else (
            on_disk told cleared,
            record { local_removed = true; remote_revocation_confirmed = confirmed },
            if not is_clear then err not_written else if confirmed then ok tt else err still_active,
          )
    ]
