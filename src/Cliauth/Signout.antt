-- ===== src/Cliauth/Signout.antt =====
-- internal/cliauth/oauth_manager.go: what signing out leaves on this machine.
use anfra.Prelude.{
  ℕ, ◌≡◌, refl, ap, ◌∙◌, inl, inr, true, false, none, Bool-cases, Option-cases, err,
}
use anfra.Cliauth.{Org, credential_key, Checks, Disk, save, clear}
use anfra.Cliauth.Manager.{Machine, Renewal, Removal, login_required, load_access_token, logout}
use anfra.Cliauth.Spent.{Off, Off-trans, save-Off, save-done, clear-Off, clear-entries}

-- What signing out leaves of an org's entry, where it was removed, and of the other orgs'.
logout-absent :
    (k : Checks) (w : Removal) (org : Org) (m : Machine)
    → (logout k w org m).1.local_removed ≡ true
    → ((logout k w org m).0.disk.entries (credential_key org) ≡ none)
      × Off (credential_key org) m.disk (logout k w org m).0.disk
unfolding logout
logout-absent k w org m removed = elim (Option-cases (m.disk.entries (credential_key org))) [
  | inl none_ ↦ rw (none_, logout) (none_, λ j h. (refl, refl))
  | inr (e, held) ↦ elim (Bool-cases (save w.saving (credential_key org) none m.disk).1) [
    | inr lost ↦ absurd (
        let not_removed : (logout k w org m).1.local_removed ≡ false =
          rw (held, logout) (rw lost refl) in
        cc)
    | inl kept ↦
        rw (held, logout)
          (rw kept (
            ap (λ f. f (credential_key org))
                  (clear-entries w.removal w.remarking (credential_key org) saved)
                ∙ save-done w.saving (credential_key org) none m.disk kept,
            Off-trans (credential_key org) m.disk saved
                (clear w.removal w.remarking (credential_key org) saved).0
                (save-Off w.saving (credential_key org) none m.disk)
                (clear-Off w.removal w.remarking (credential_key org) saved),
          ))
  ]
]
  where
    saved : Disk
    saved = (save w.saving (credential_key org) none m.disk).0

load-absent :
    (k : Checks) (now : ℕ) (w : Renewal) (org : Org) (m : Machine)
    → m.disk.entries (credential_key org) ≡ none
    → load_access_token k now w org m ≡ (m, err login_required)
unfolding load_access_token
load-absent k now w org m absent = rw (absent, load_access_token) refl

-- Where `Logout` answers that the login was removed, whatever its other writes and the server met,
-- asking for an access token for the org then is told to sign in, and tells the server nothing; and
-- the other orgs' entries and markers are as they were.
pub logout-removed :
    (k k' : Checks) (now : ℕ) (w : Removal) (w' : Renewal) (org : Org) (m : Machine)
    → (logout k w org m).1.local_removed ≡ true
    → (load_access_token k' now w' org (logout k w org m).0
        ≡ ((logout k w org m).0, err login_required))
      × Off (credential_key org) m.disk (logout k w org m).0.disk
logout-removed k k' now w w' org m removed =
    let (absent, off) = logout-absent k w org m removed in
    (load-absent k' now w' org (logout k w org m).0 absent, off)
