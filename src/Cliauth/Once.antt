-- ===== src/Cliauth/Once.antt =====
-- internal/cliauth: a refresh token is traded in once, whatever fails on the way.
use anfra.Prelude.{ℕ, ◌≡◌, sym, inl, inr, true, false, some, List, [], ◌∷◌, ◌++◌, str_eq}
use anfra.Cliauth.{Org, credential_key, StoredCredential, Checks, TokenResponse, written, Disk}
use anfra.Cliauth.Manager.{
  Request, Machine, Renewal, load_access_token, Saving, logout, finish_login, Removal,
}
use anfra.Cliauth.Spent.{Unspent, Safe}
use anfra.Cliauth.Renewal.{Change-Safe}
use anfra.Cliauth.Loads.{load_lem}
use anfra.Cliauth.Logins.{login_lem, logout_lem}
use mathlib.Core.Path.{subst}

-- A request that trades in no token that was spent before it.
abbrev pub IsFirst : List Request → Request → Type 0
IsFirst log (Request.refreshed key token) = Unspent key token log
IsFirst log (Request.abandoned key token) = Unit
IsFirst log (Request.signed_out key token) = Unit

-- Requests, each of which is first of its kind.
pub data Once : List Request → Type 0 where
  silent : Once []
  then_tell : {log : List Request} (r : Request) → Once log → IsFirst log r → Once (log ++ r ∷ [])

-- The machine's runs: each step asks for an access token, saves a login or signs out. The server
-- grants new refresh tokens only, and a marker can be put back where a login's could not be removed.
pub data Step (k : Checks) : Machine → Machine → Type 0 where
  loads :
      (now : ℕ) (w : Renewal) (org : Org) (m : Machine)
      → ((r : TokenResponse)
          → w.reply ≡ some r
          → Unspent (credential_key org) r.refresh_token m.requests)
      → Step k m (load_access_token k now w org m).0
  logs_in :
      (w : Saving) (e : StoredCredential) (m : Machine)
      → written w.remarking ≡ true
      → Unspent (credential_key e.org) e.refresh_token m.requests
      → ((x : StoredCredential)
          → m.disk.entries (credential_key e.org) ≡ some x
          → str_eq x.refresh_token e.refresh_token ≡ false)
      → Step k m (finish_login w e m).0
  signs_out : (w : Removal) (org : Org) (m : Machine) → Step k m (logout k w org m).0

pub data Reach (k : Checks) (start : Disk) : Machine → Type 0 where
  starts : Reach k start (record { disk = start; requests = [] })
  goes_on : {m m' : Machine} → Reach k start m → Step k m m' → Reach k start m'

Step-Safe :
    (k : Checks) (m m' : Machine)
    → Step k m m'
    → Safe m
    → Once m.requests
    → Safe m' × Once m'.requests
Step-Safe k _ _ (loads now w org m new) safe once =
    let (c, log) = load_lem k now w org m safe new in
    let m' = (load_access_token k now w org m).0 in
    (
      Change-Safe (credential_key org) m m' c safe,
      elim log [
        | inl same ↦ subst Once (sym same) once
        | inr (t, first, more) ↦
            subst Once (sym more) (then_tell (Request.refreshed (credential_key org) t) once first)
      ],
    )
Step-Safe k _ _ (logs_in w e m again new other) safe once =
    let (c, log) = login_lem w e m safe again new other in
    let m' = (finish_login w e m).0 in
    (
      Change-Safe (credential_key e.org) m m' c safe,
      elim log [
        | inl same ↦ subst Once (sym same) once
        | inr more ↦
            subst Once (sym more)
              (then_tell (Request.abandoned (credential_key e.org) e.refresh_token) once tt)
      ],
    )
Step-Safe k _ _ (signs_out w org m) safe once =
    let (c, log) = logout_lem k w org m safe in
    let m' = (logout k w org m).0 in
    (
      Change-Safe (credential_key org) m m' c safe,
      elim log [
        | inl same ↦ subst Once (sym same) once
        | inr (t, more) ↦
            subst Once (sym more) (then_tell (Request.signed_out (credential_key org) t) once tt)
      ],
    )

Reach-Safe : (k : Checks) (start : Disk) (m : Machine) → Reach k start m → Safe m × Once m.requests
Reach-Safe k start _ starts = (λ key e stored unmarked unpended. tt, silent)
Reach-Safe k start _ (goes_on {m} {m'} r s) =
    let (safe, once) = Reach-Safe k start m r in Step-Safe k m m' s safe once

-- From any disk, over any run of access tokens asked for, logins saved and logouts, with any of their
-- writes failing and any reply lost, no refresh token is traded in that was traded in before for its
-- org, or given up because its login could not be saved. The server grants no refresh token twice,
-- and a marker that was removed without a sync, for a login, is put back.
pub Reach-Once : (k : Checks) (start : Disk) (m : Machine) → Reach k start m → Once m.requests
Reach-Once k start m r = (Reach-Safe k start m r).1
