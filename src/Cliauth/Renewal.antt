-- ===== src/Cliauth/Renewal.antt =====
-- internal/cliauth/oauth_manager.go: what a renewal leaves on the disk and has told the server.
use anfra.Prelude.{
  ℕ, String, ◌≡◌, refl, sym, ap, ◌∙◌, ◌⊎◌, inl, inr, Bool, true, false, ◌&&◌, Option, none, some,
  List, [], ◌∷◌, ◌++◌, arith, str_eq, eq_iff, if◌then◌else◌, Bool-cases, All-append,
}
use mathlib.Core.Path.{subst}
use anfra.Cliauth.{
  credential_key, StoredCredential, Disk, save, clear, Checks, Outcome, validate, follows,
  TokenResponse, mark, succeeding, Org, names_org, is_grant, stored,
}
use anfra.Cliauth.Manager.{
  Request, Machine, Renewal, keep_successor, renew_login, successor_of, tell, on_disk,
}
use anfra.Cliauth.Spent.{
  Unspent, SafeAt, Safe, Off, Off-trans, save-Off, save-markers, save-done, clear-Off,
  clear-entries, mark-entries, mark-Off, mark-done, mark-markers, is_spend,
}

-- What an operation at one org changes, from a machine to another.
pub record Change (key : String) (m m' : Machine) : Type 0 where
  pub off : Off key m.disk m'.disk
  pub at_key : SafeAt m'.disk m'.requests key
  pub log_off :
      (j t : String) → str_eq key j ≡ false → Unspent j t m.requests → Unspent j t m'.requests

pub Change-Safe : (key : String) (m m' : Machine) → Change key m m' → Safe m → Safe m'
Change-Safe key m m' c safe j = elim (Bool-cases (str_eq key j)) [
  | inl same ↦ subst (λ k. SafeAt m'.disk m'.requests k) ((eq_iff key j).0 same) c.at_key
  | inr other ↦ λ e stored unmarked unpended.
      c.log_off j e.refresh_token other
        (safe j e (sym (c.off j other).0 ∙ stored) (sym (c.off j other).1 ∙ unmarked) unpended)
]

-- A marked org has nothing that may be used.
pub marked-SafeAt :
    (d : Disk) (log : List Request) (key : String) → d.markers key ≡ true → SafeAt d log key
marked-SafeAt d log key marked e stored unmarked unpended = absurd cc

pub entry-SafeAt :
    (d : Disk) (log : List Request) (key : String) (s : StoredCredential)
    → d.entries key ≡ some s
    → Unspent key s.refresh_token log
    → SafeAt d log key
entry-SafeAt d log key s e h x stored unmarked unpended =
    let same : x ≡ s = cc in
    subst (λ (y : StoredCredential). Unspent key y.refresh_token log) (sym same) h

-- A failed marking makes nothing usable.
pub unmarked-SafeAt :
    (o : Outcome) (d : Disk) (log : List Request) (key : String)
    → SafeAt d log key
    → SafeAt (mark o key d).0 log key
unmarked-SafeAt o d log key safe e stored unmarked unpended =
    safe e (sym (ap (λ f. f key) (mark-entries o key d)) ∙ stored) (mark-markers o key d unmarked)
      unpended

-- What `keep_successor` leaves.
keep_lem :
    (w : Renewal) (e : StoredCredential) (o : Option StoredCredential) (m : Machine)
    → m.disk.markers (credential_key e.org) ≡ true
    → ((s : StoredCredential)
        → o ≡ some s
        → Unspent (credential_key e.org) s.refresh_token m.requests)
    → Off (credential_key e.org) m.disk (keep_successor w e o m).0.disk
      × SafeAt (keep_successor w e o m).0.disk m.requests (credential_key e.org)
      × ((keep_successor w e o m).0.requests ≡ m.requests)
unfolding keep_successor
keep_lem w e none m marked fresh =
    (λ j h. (refl, refl), marked-SafeAt m.disk m.requests (credential_key e.org) marked, refl)
keep_lem w e (some s) m marked fresh =
    let key = credential_key e.org in
    let saved = (save w.successor_save key (some s) m.disk).0 in
    let saved-off = save-Off w.successor_save key (some s) m.disk in
    elim (Bool-cases (save w.successor_save key (some s) m.disk).1) [
      | inr lost ↦ rw lost (
        saved-off,
        marked-SafeAt saved m.requests key
            (ap (λ f. f key) (save-markers w.successor_save key (some s) m.disk) ∙ marked),
        refl,
      )
      | inl kept ↦
          let held =
            ap (λ f. f key) (clear-entries w.removal w.remarking key saved)
            ∙ save-done w.successor_save key (some s) m.disk kept in
          let off =
            Off-trans key m.disk saved _ saved-off (clear-Off w.removal w.remarking key saved) in
          let safe =
            entry-SafeAt (clear w.removal w.remarking key saved).0 m.requests key s held
              (fresh s refl) in
          elim (Bool-cases (clear w.removal w.remarking key saved).1) [
            | inl clean ↦ rw kept (rw clean (off, safe, refl))
            | inr left ↦ rw kept (rw left (off, safe, refl))
          ]
    ]

-- A guarded option that has a value.
guarded-some :
    {A : Type 0} (b : Bool) (x : Option A) {a : A}
    → (if b then x else none) ≡ some a
    → (b ≡ true) × (x ≡ some a)
guarded-some true x h = (refl, h)
guarded-some false x h = cc

some_inj : {A : Type 0} {a b : A} → some a ≡ some b → a ≡ b
some_inj h = cc

follows-new :
    (e old : StoredCredential)
    → follows e old ≡ true
    → str_eq e.refresh_token old.refresh_token ≡ false
unfolding follows
follows-new e old h = elim (Bool-cases (str_eq e.refresh_token old.refresh_token)) [
  | inr new ↦ new
  | inl same ↦ absurd (ground arith)
]

succeeding-follows :
    (old e s : StoredCredential)
    → succeeding (some old) e ≡ some s
    → (s.refresh_token ≡ e.refresh_token) × (str_eq e.refresh_token old.refresh_token ≡ false)
succeeding-follows old e s h =
    let (goes_on, is_s) = guarded-some (follows e old) _ h in
    let kept : (if str_eq e.org_name ""
          then record e { org_name = old.org_name }
          else e).refresh_token
        ≡ e.refresh_token =
      elim (Bool-cases (str_eq e.org_name "")) [
        | inl unnamed ↦ rw unnamed refl
        | inr named ↦ rw named refl
      ] in
    let same = some_inj is_s in
    (sym (ap (λ (x : StoredCredential). x.refresh_token) same) ∙ kept, follows-new e old goes_on)

-- A grant that goes on from an entry has its response's refresh token, which is not the entry's.
validate-follows :
    (k : Checks) (r : TokenResponse) (origin : String) (started now : ℕ) (old s : StoredCredential)
    → validate k r origin started now (some old) ≡ some s
    → (s.refresh_token ≡ r.refresh_token) × (str_eq r.refresh_token old.refresh_token ≡ false)
unfolding validate
validate-follows k r origin started now old s h = go r.org h
  where
    go :
        (org : Option Org)
        → (elim org as (λ _. Option StoredCredential) [
          | none ↦ none
          | some o ↦
              if r.in_utc
                && str_eq o.origin origin
                && names_org o r
                && is_grant k r origin started now
              then succeeding (some old) (stored o r started)
              else none
        ])
          ≡ some s
        → (s.refresh_token ≡ r.refresh_token) × (str_eq r.refresh_token old.refresh_token ≡ false)
    go none e = cc
    go (some o) e =
        succeeding-follows old (stored o r started) s
          (guarded-some
            (r.in_utc && str_eq o.origin origin && names_org o r && is_grant k r origin started now)
            _ e).1

successor-Unspent :
    (k : Checks) (w : Renewal) (e s : StoredCredential) (key : String) (log : List Request)
    → ((r : TokenResponse) → w.reply ≡ some r → Unspent key r.refresh_token log)
    → successor_of k w e ≡ some s
    → Unspent key s.refresh_token (log ++ Request.refreshed key e.refresh_token ∷ [])
successor-Unspent k w e s key log new h = told (replied-cases w.reply h)
  where
    told :
        (r : TokenResponse) × (w.reply ≡ some r)
          × (s' : StoredCredential) × (validate k r e.org.origin w.started w.replied (some e)
              ≡ some s')
          × (s'.refresh_token ≡ s.refresh_token)
        → Unspent key s.refresh_token (log ++ Request.refreshed key e.refresh_token ∷ [])
    told (r, replied, s', valid, same) =
        let (its, differs) = validate-follows k r e.org.origin w.started w.replied e s' valid in
        subst (λ t. Unspent key t (log ++ Request.refreshed key e.refresh_token ∷ []))
          (sym its ∙ same)
          (All-append (λ q. is_spend key r.refresh_token q ≡ false) log _ (new r replied)
            (ground (arith, differs), tt))

    validated-cases :
        (o : Option StoredCredential)
        → (elim o as (λ _. Option StoredCredential) [
          | none ↦ none
          | some s ↦ some (record s {
            token_endpoint = e.token_endpoint;
            revocation_endpoint = e.revocation_endpoint;
          })
        ])
          ≡ some s
        → (s' : StoredCredential) × (o ≡ some s') × (s'.refresh_token ≡ s.refresh_token)
    validated-cases none h = cc
    validated-cases (some s') h =
        (s', refl, ap (λ (x : StoredCredential). x.refresh_token) (some_inj h))

    replied-cases :
        (o : Option TokenResponse)
        → (elim o as (λ _. Option StoredCredential) [
          | none ↦ none
          | some r ↦ elim (validate k r e.org.origin w.started w.replied (some e)) [
            | none ↦ none
            | some s ↦ some (record s {
              token_endpoint = e.token_endpoint;
              revocation_endpoint = e.revocation_endpoint;
            })
          ]
        ])
          ≡ some s
        → (r : TokenResponse) × (o ≡ some r)
          × (s' : StoredCredential) × (validate k r e.org.origin w.started w.replied (some e)
              ≡ some s')
          × (s'.refresh_token ≡ s.refresh_token)
    replied-cases none h = cc
    replied-cases (some r) h =
        let (s', valid, same) =
          validated-cases (validate k r e.org.origin w.started w.replied (some e)) h in
        (r, refl, s', valid, same)

-- What a renewal leaves.
pub renew_lem :
    (k : Checks) (w : Renewal) (e : StoredCredential) (m : Machine)
    → SafeAt m.disk m.requests (credential_key e.org)
    → ((r : TokenResponse)
        → w.reply ≡ some r
        → Unspent (credential_key e.org) r.refresh_token m.requests)
    → Off (credential_key e.org) m.disk (renew_login k w e m).0.disk
      × SafeAt (renew_login k w e m).0.disk (renew_login k w e m).0.requests (credential_key e.org)
      × (((renew_login k w e m).0.requests ≡ m.requests)
          ⊎ ((renew_login k w e m).0.requests
              ≡ m.requests ++ Request.refreshed (credential_key e.org) e.refresh_token ∷ []))
unfolding renew_login
renew_lem k w e m safe new =
    let key = credential_key e.org in
    let e' : StoredCredential = record e { pending = true } in
    let marked = (mark w.marking key m.disk).0 in
    let saved = (save w.pending_save key (some e') marked).0 in
    let marked-off = mark-Off w.marking key m.disk in
    let off =
      Off-trans key m.disk marked saved marked-off (save-Off w.pending_save key (some e') marked) in
    elim (Bool-cases (mark w.marking key m.disk).1) [
      | inr unmarked ↦
          rw unmarked (marked-off, unmarked-SafeAt w.marking m.disk m.requests key safe, inl refl)
      | inl is_marked ↦
          let held =
            ap (λ f. f key) (save-markers w.pending_save key (some e') marked)
            ∙ mark-done w.marking key m.disk is_marked in
          elim (Bool-cases (save w.pending_save key (some e') marked).1) [
            | inr lost ↦
                rw is_marked (rw lost (off, marked-SafeAt saved m.requests key held, inl refl))
            | inl kept ↦
                let sent = tell (Request.refreshed key e.refresh_token) (on_disk m saved) in
                let (off', safe', log) =
                  keep_lem w e' (successor_of k w e') sent held
                    (λ s. successor-Unspent k w e' s key m.requests new) in
                rw is_marked (
                  rw kept (
                    Off-trans key m.disk saved _ off off',
                    subst
                        (λ l. SafeAt (keep_successor w e' (successor_of k w e') sent).0.disk l key)
                        (sym log) safe',
                    inr log,
                  ))
          ]
    ]
