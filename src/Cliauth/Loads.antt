-- ===== src/Cliauth/Loads.antt =====
-- internal/cliauth/oauth_manager.go: what asking for an access token leaves.
use anfra.Prelude.{
  ℕ, ◌+◌, String, ◌≡◌, refl, sym, ap, ◌∙◌, ◌⊎◌, inl, inr, true, false, some, List, [], ◌∷◌, ◌++◌,
  arith, str_eq, eq_iff, ltb, Bool-cases, Option-cases, All-append, Result, ok, err,
}
use anfra.Cliauth.{
  Org, credential_key, same_org, StoredCredential, Checks, is_usable, TokenResponse,
}
use anfra.Cliauth.Manager.{
  Request, Machine, Renewal, renew_login, load_access_token, access_token_of, AuthError,
}
use anfra.Cliauth.Spent.{is_spend, Unspent, Safe}
use anfra.Cliauth.Renewal.{Change, renew_lem}
use mathlib.Core.Path.{subst}

log_off_lem :
    (key token : String) (log : List Request) (j t : String)
    → str_eq key j ≡ false
    → Unspent j t log
    → Unspent j t (log ++ Request.refreshed key token ∷ [])
log_off_lem key token log j t other h =
    All-append (λ q. is_spend j t q ≡ false) log _ h (rw other refl, tt)

-- A machine and what asking it for an access token makes of it.
abbrev pub Loaded : String → Machine → Machine → Type 0
Loaded key m m' =
    Change key m m'
    × ((m'.requests ≡ m.requests)
        ⊎ ((t : String) × Unspent key t m.requests
            × (m'.requests ≡ m.requests ++ Request.refreshed key t ∷ [])))

unchanged : (key : String) (m : Machine) → Safe m → Loaded key m m
unchanged key m safe =
    (record { off = λ j h. (refl, refl); at_key = safe key; log_off = λ j t h u. u }, inl refl)

usable_lem :
    (k : Checks) (now : ℕ) (org : Org) (e : StoredCredential)
    → is_usable k now org e ≡ true
    → (credential_key e.org ≡ credential_key org) × (e.pending ≡ false)
unfolding is_usable
usable_lem k now org e h =
    let same : same_org e.org org ≡ true = ground arith in
    let origin = (eq_iff e.org.origin org.origin).0 (ground arith) in
    let slug = (eq_iff e.org.slug org.slug).0 (ground arith) in (cc, ground arith)

access_token_of_lem :
    (p : Machine × Result AuthError StoredCredential) → (access_token_of p).0 ≡ p.0
access_token_of_lem (m, ok e) = refl
access_token_of_lem (m, err x) = refl

renewed :
    (k : Checks) (w : Renewal) (e : StoredCredential) (m : Machine)
    → Safe m
    → m.disk.entries (credential_key e.org) ≡ some e
    → m.disk.markers (credential_key e.org) ≡ false
    → e.pending ≡ false
    → ((r : TokenResponse)
        → w.reply ≡ some r
        → Unspent (credential_key e.org) r.refresh_token m.requests)
    → Loaded (credential_key e.org) m (renew_login k w e m).0
renewed k w e m safe held unmarked unpended new =
    let key = credential_key e.org in
    let m' = (renew_login k w e m).0 in
    let (off, at_key, log) = renew_lem k w e m (safe key) new in
    elim log [
      | inl same ↦ (
        record {
          off = off;
          at_key = at_key;
          log_off = λ j t h u. subst (λ l. Unspent j t l) (sym same) u;
        },
        inl same,
      )
      | inr more ↦ (
        record {
          off = off;
          at_key = at_key;
          log_off = λ j t h u.
              subst (λ l. Unspent j t l) (sym more)
                (log_off_lem key e.refresh_token m.requests j t h u);
        },
        inr (e.refresh_token, safe key e held unmarked unpended, more),
      )
    ]

-- Asking for an access token changes nothing, or renews a login that is usable.
load-cases :
    (k : Checks) (now : ℕ) (w : Renewal) (org : Org) (m : Machine)
    → ((load_access_token k now w org m).0 ≡ m)
      ⊎ ((e : StoredCredential) × (m.disk.entries (credential_key org) ≡ some e)
          × (m.disk.markers (credential_key org) ≡ false)
          × (is_usable k now org e ≡ true)
          × ((load_access_token k now w org m).0 ≡ (renew_login k w e m).0))
unfolding load_access_token
load-cases k now w org m = elim (Option-cases (m.disk.entries (credential_key org))) [
  | inl none_ ↦ inl (rw (none_, load_access_token) refl)
  | inr (e, held) ↦ elim (Bool-cases (m.disk.markers (credential_key org))) [
    | inl marked ↦ inl (rw (held, load_access_token) (rw marked refl))
    | inr unmarked ↦ elim (Bool-cases (is_usable k now org e)) [
      | inr unusable ↦ inl (rw (held, load_access_token) (rw unmarked (rw unusable refl)))
      | inl usable ↦ elim (Bool-cases (ltb e.access_expiry (now + 300))) [
        | inr fresh ↦ inl (rw (held, load_access_token) (rw unmarked (rw usable (rw fresh refl))))
        | inl stale ↦ inr (
          e,
          held,
          unmarked,
          usable,
          rw (held, load_access_token)
              (rw unmarked (rw usable (rw stale (access_token_of_lem (renew_login k w e m))))),
        )
      ]
    ]
  ]
]

-- What asking for an access token leaves.
pub load_lem :
    (k : Checks) (now : ℕ) (w : Renewal) (org : Org) (m : Machine)
    → Safe m
    → ((r : TokenResponse)
        → w.reply ≡ some r
        → Unspent (credential_key org) r.refresh_token m.requests)
    → Loaded (credential_key org) m (load_access_token k now w org m).0
load_lem k now w org m safe new = elim (load-cases k now w org m) [
  | inl same ↦
      subst (λ m'. Loaded (credential_key org) m m') (sym same)
        (unchanged (credential_key org) m safe)
  | inr (e, held, unmarked, usable, same) ↦
      let (its_key, unpended) = usable_lem k now org e usable in
      let l =
        renewed k w e m safe (ap m.disk.entries its_key ∙ held)
          (ap m.disk.markers its_key ∙ unmarked) unpended
          (λ r replied.
            subst (λ j. Unspent j r.refresh_token m.requests) (sym its_key) (new r replied)) in
      subst (λ m'. Loaded (credential_key org) m m') (sym same)
        (subst (λ j. Loaded j m (renew_login k w e m).0) its_key l)
]
