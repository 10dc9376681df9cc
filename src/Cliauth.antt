-- ===== src/Cliauth.antt =====
-- internal/cliauth: the logins that are stored on this machine: credential_store.go, refresh_recovery.go
-- and what oauth_protocol.go checks of a token response. Times are in seconds. `Manager` has the
-- operations of oauth_manager.go and the saving half of oauth_login.go.
pub mod Manager
pub mod Spent
pub mod Renewal
pub mod Loads
pub mod Logins
pub mod Once
pub mod Signout
mod Tests
use anfra.Prelude.{
  ℕ, ◌+◌, ◌*◌, String, Bool, true, false, not, ◌&&◌, Option, none, some, str_eq, ltb, leb, ◌==◌,
  if◌then◌else◌, cat,
}

pub record Org : Type 0 where
  pub origin : String
  pub slug : String

-- `Org.String`, which is also the key of its entry.
abbrev pub credential_key : Org → String
credential_key o = cat o.origin (cat "/o/" o.slug)

abbrev pub same_org : Org → Org → Bool
same_org a b = str_eq a.origin b.origin && str_eq a.slug b.slug

-- `storedCredential`
pub record StoredCredential : Type 0 where
  pub org : Org
  pub org_name : String
  pub grant_id : String
  pub org_id : String
  pub grant_expiry : ℕ
  pub access_token : String
  pub refresh_token : String
  pub access_expiry : ℕ
  pub token_endpoint : String
  pub revocation_endpoint : String
  pub pending : Bool

-- The checks that rest on regular expressions and URLs: `validGrantUUID`, `safeOpaqueToken` and
-- `safeOAuthEndpoint`.
pub record Checks : Type 0 where
  pub valid_uuid : String → Bool
  pub safe_token : String → Bool
  pub safe_endpoint : String → String → Bool

-- The entries of the credential file, by key, and the orgs whose recovery marker is there.
pub record Disk : Type 0 where
  pub entries : String → Option StoredCredential
  pub markers : String → Bool

abbrev pub put {ℓ} : {A : Type ℓ} → String → A → (String → A) → String → A
put k a m j = if str_eq k j then a else m j

-- How a write went: done; failed, with nothing written; or failed after it was written, as when the
-- directory could not be synced. A process that is stopped leaves the disk as one of them does.
pub data Outcome : Type 0 where
  done failed unsynced : Outcome

abbrev pub written : Outcome → Bool
written failed = false
written _ = true

abbrev pub is_done : Outcome → Bool
is_done done = true
is_done _ = false

-- `markRefreshRecovery`: it fails where the marker is already there.
pub mark : Outcome → String → Disk → Disk × Bool
mark o key d =
    if d.markers key
    then (d, false)
    else (if written o then record d { markers = put key true d.markers } else d, is_done o)

-- `saveCredentialInventory`, of a changed entry.
pub save : Outcome → String → Option StoredCredential → Disk → Disk × Bool
save o key entry d =
    (if written o then record d { entries = put key entry d.entries } else d, is_done o)

-- `clearRefreshRecovery`: how the removal went, and how putting the marker back did, where that was
-- called for.
pub clear : Outcome → Outcome → String → Disk → Disk × Bool
unfolding mark
clear removal again key d =
    if not (d.markers key)
    then (d, true)
    else if is_done removal
    then (record d { markers = put key false d.markers }, true)
    else (
      (mark again key
          (if written removal then record d { markers = put key false d.markers } else d)).0,
      false,
    )

-- What an org's stored entry is usable by: the condition of `loadAccessToken`, less the marker's.
pub is_usable : Checks → ℕ → Org → StoredCredential → Bool
is_usable k now org e =
    not e.pending
    && same_org e.org org
    && ltb now e.grant_expiry
    && k.valid_uuid e.grant_id
    && k.valid_uuid e.org_id
    && k.safe_token e.access_token
    && k.safe_token e.refresh_token
    && k.safe_endpoint e.token_endpoint org.origin
    && k.safe_endpoint e.revocation_endpoint org.origin

-- `tokenResponse`, with the org that its address is parsed as, and whether its deadline is in UTC.
pub record TokenResponse : Type 0 where
  pub access_token : String
  pub refresh_token : String
  pub is_bearer : Bool
  pub scope : String
  pub resource : String
  pub expires_in : ℕ
  pub grant_id : String
  pub expires_at : ℕ
  pub in_utc : Bool
  pub org : Option Org
  pub org_url : String
  pub org_slug : String
  pub org_id : String
  pub org_name : String

abbrev pub oauth_clock_skew : ℕ
oauth_clock_skew = 5 * 60

-- Whether a grant goes on from the one before it.
unfoldable pub follows : StoredCredential → StoredCredential → Bool
follows e old =
    str_eq e.grant_id old.grant_id
    && str_eq e.org_id old.org_id
    && same_org e.org old.org
    && e.grant_expiry == old.grant_expiry
    && not (str_eq e.refresh_token old.refresh_token)
    && not (str_eq e.access_token old.access_token)

abbrev pub names_org : Org → TokenResponse → Bool
names_org org r = str_eq org.slug r.org_slug && str_eq r.org_url (credential_key org)

-- The checks of a response's grant and tokens, received at `now` for a request begun at `started`.
pub is_grant : Checks → TokenResponse → String → ℕ → ℕ → Bool
is_grant k r origin started now =
    k.valid_uuid r.grant_id
    && k.valid_uuid r.org_id
    && k.safe_token r.access_token
    && k.safe_token r.refresh_token
    && r.is_bearer
    && str_eq r.scope "all"
    && str_eq r.resource (cat origin "/api")
    && ltb 0 r.expires_in
    && leb r.expires_in 3_600
    && ltb now r.expires_at
    && leb r.expires_at (started + 180 * 24 * 3_600 + oauth_clock_skew)
    && leb (started + r.expires_in) (r.expires_at + oauth_clock_skew)
    && ltb now (started + r.expires_in)

abbrev pub earlier : ℕ → ℕ → ℕ
earlier a b = if ltb b a then b else a

-- What a grant is stored as.
abbrev pub stored : Org → TokenResponse → ℕ → StoredCredential
stored org r started = record {
  org = org;
  org_name = r.org_name;
  grant_id = r.grant_id;
  org_id = r.org_id;
  grant_expiry = r.expires_at;
  access_token = r.access_token;
  refresh_token = r.refresh_token;
  access_expiry = earlier (started + r.expires_in) r.expires_at;
  token_endpoint = "";
  revocation_endpoint = "";
  pending = false;
}

abbrev pub succeeding : Option StoredCredential → StoredCredential → Option StoredCredential
succeeding none e = some e
succeeding (some old) e =
    if follows e old
    then some (if str_eq e.org_name "" then record e { org_name = old.org_name } else e)
    else none

-- `validateTokenResponse`
unfoldable pub validate :
    Checks → TokenResponse → String → ℕ → ℕ → Option StoredCredential → Option StoredCredential
unfolding is_grant follows
validate k r origin started now old = elim r.org [
  | none ↦ none
  | some org ↦
      if r.in_utc && str_eq org.origin origin && names_org org r && is_grant k r origin started now
      then succeeding old (stored org r started)
      else none
]
