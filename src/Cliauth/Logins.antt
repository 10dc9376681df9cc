-- ===== src/Cliauth/Logins.antt =====
-- internal/cliauth: what saving a new login and signing out leave.
use anfra.Prelude.{
  String, ◌≡◌, refl, sym, ap, ◌∙◌, ◌⊎◌, inl, inr, true, false, none, some, List, [], ◌∷◌, ◌++◌,
  arith, str_eq, eq_refl, if◌then◌else◌, Bool-cases, Option-cases, All-append,
}
use anfra.Cliauth.{
  Org, credential_key, StoredCredential, Checks, written, Disk, Outcome, save, mark, clear, put,
}
use anfra.Cliauth.Manager.{
  is_revocable, Request, Machine, Saving, logout, finish_login, Removal, save_login, ensure_marked,
  tell,
}
use anfra.Cliauth.Spent.{
  is_spend, Unspent, Safe, Off, SafeAt, mark-Off, mark-entries, Off-trans, save-Off, mark-done,
  save-markers, clear-Off, clear-entries, save-done, clear-failed,
}
use anfra.Cliauth.Renewal.{Change, entry-SafeAt, marked-SafeAt, unmarked-SafeAt}
use mathlib.Core.Path.{subst}

ensure_marked-cases :
    (o : Outcome) (key : String) (d : Disk)
    → ((d.markers key ≡ true) × (ensure_marked o key d ≡ (d, true)))
      ⊎ (ensure_marked o key d ≡ mark o key d)
unfolding ensure_marked
ensure_marked-cases o key d = elim (Bool-cases (d.markers key)) [
  | inl there ↦ inl (there, rw there refl)
  | inr new ↦ inr (rw new refl)
]

ensure_marked_lem :
    (o : Outcome) (key : String) (d : Disk)
    → Off key d (ensure_marked o key d).0
      × ((ensure_marked o key d).0.entries ≡ d.entries)
      × ((log : List Request) → SafeAt d log key → SafeAt (ensure_marked o key d).0 log key)
      × ((ensure_marked o key d).1 ≡ true → (ensure_marked o key d).0.markers key ≡ true)
ensure_marked_lem o key d = elim (ensure_marked-cases o key d) [
  | inl (there, e) ↦ rw e (λ j h. (refl, refl), refl, λ log safe. safe, λ _. there)
  | inr e ↦ rw e (
    mark-Off o key d,
    mark-entries o key d,
    λ log safe. unmarked-SafeAt o d log key safe,
    mark-done o key d,
  )
]

-- What a login's saving leaves: the login, a marked org, or what there was.
save_login_lem :
    (w : Saving) (e : StoredCredential) (d : Disk)
    → written w.remarking ≡ true
    → Off (credential_key e.org) d (save_login w e d).0
      × ((save_login w e d).1 ≡ true → (save_login w e d).0.entries (credential_key e.org) ≡ some e)
      × ((save_login w e d).1 ≡ false
          → ((save_login w e d).0.markers (credential_key e.org) ≡ true)
            ⊎ (((save_login w e d).0.entries ≡ d.entries)
                × ((log : List Request)
                    → SafeAt d log (credential_key e.org)
                    → SafeAt (save_login w e d).0 log (credential_key e.org))))
unfolding save_login
save_login_lem w e d again =
    let key = credential_key e.org in
    let marked = (ensure_marked w.marking key d).0 in
    let saved = (save w.saving key (some e) marked).0 in
    let (marked-off, same, unmarked-safe, marked-done) = ensure_marked_lem w.marking key d in
    let off = Off-trans key d marked saved marked-off (save-Off w.saving key (some e) marked) in
    elim (Bool-cases (ensure_marked w.marking key d).1) [
      | inr unmarked ↦ rw unmarked (marked-off, λ t. absurd cc, λ _. inr (same, unmarked-safe))
      | inl is_marked ↦
          let held =
            ap (λ f. f key) (save-markers w.saving key (some e) marked) ∙ marked-done is_marked in
          elim (Bool-cases (save w.saving key (some e) marked).1) [
            | inr lost ↦ rw is_marked (rw lost (off, λ t. absurd cc, λ _. inl held))
            | inl kept ↦ rw is_marked (
                rw kept (
                  Off-trans key d saved _ off (clear-Off w.removal w.remarking key saved),
                  λ _.
                      ap (λ f. f key) (clear-entries w.removal w.remarking key saved)
                      ∙ save-done w.saving key (some e) marked kept,
                  λ f. inl (clear-failed w.removal w.remarking key saved again f),
                ))
          ]
    ]

-- What saving a new login leaves, where its marker can be put back.
pub login_lem :
    (w : Saving) (e : StoredCredential) (m : Machine)
    → Safe m
    → written w.remarking ≡ true
    → Unspent (credential_key e.org) e.refresh_token m.requests
    → ((x : StoredCredential)
        → m.disk.entries (credential_key e.org) ≡ some x
        → str_eq x.refresh_token e.refresh_token ≡ false)
    → Change (credential_key e.org) m (finish_login w e m).0
      × (((finish_login w e m).0.requests ≡ m.requests)
          ⊎ ((finish_login w e m).0.requests
              ≡ m.requests ++ Request.abandoned (credential_key e.org) e.refresh_token ∷ []))
unfolding finish_login
login_lem w e m safe again new other =
    let key = credential_key e.org in
    let d = (save_login w e m.disk).0 in
    let (off, there, lost) = save_login_lem w e m.disk again in
    elim (Bool-cases (save_login w e m.disk).1) [
      | inl saved ↦ rw saved (
        record {
          off = off;
          at_key = entry-SafeAt d m.requests key e (there saved) new;
          log_off = λ j t h u. u;
        },
        inl refl,
      )
      | inr unsaved ↦
          let log = m.requests ++ Request.abandoned key e.refresh_token ∷ [] in
          let kept : SafeAt d log key = elim (lost unsaved) [
            | inl marked ↦ marked-SafeAt d log key marked
            | inr (same, safe') ↦ λ x stored unmarked unpended.
                All-append (λ q. is_spend key x.refresh_token q ≡ false) m.requests _
                  (safe' m.requests (safe key) x stored unmarked unpended)
                  (ground (arith, other x (sym (ap (λ f. f key) same) ∙ stored)), tt)
          ] in
          rw unsaved (
            record {
              off = off;
              at_key = kept;
              log_off = λ j t h u.
                  All-append (λ q. is_spend j t q ≡ false) m.requests _ u (rw h refl, tt);
            },
            inr refl,
          )
    ]

absent-SafeAt :
    (d : Disk) (log : List Request) (key : String) → d.entries key ≡ none → SafeAt d log key
absent-SafeAt d log key absent e stored unmarked unpended = absurd cc

-- What removing an entry leaves, saved or not.
save_none_lem :
    (o : Outcome) (key : String) (d : Disk) (log log' : List Request)
    → ((j t : String) → Unspent j t log → Unspent j t log')
    → SafeAt d log key
    → SafeAt (save o key none d).0 log' key
unfolding save
save_none_lem Outcome.done key d log log' more safe e stored unmarked unpended =
    absent-SafeAt (record d { entries = put key none d.entries }) log' key (rw (eq_refl key) refl) e
      stored unmarked unpended
save_none_lem Outcome.failed key d log log' more safe e stored unmarked unpended =
    more key e.refresh_token (safe e stored unmarked unpended)
save_none_lem Outcome.unsynced key d log log' more safe e stored unmarked unpended =
    absent-SafeAt (record d { entries = put key none d.entries }) log' key (rw (eq_refl key) refl) e
      stored unmarked unpended

-- What signing out tells the server.
abbrev told : Checks → Org → StoredCredential → Machine → List Request
told k org e m =
    (if is_revocable k org e
      then tell (Request.signed_out (credential_key org) e.refresh_token) m
      else m).requests

told_lem :
    (k : Checks) (org : Org) (e : StoredCredential) (m : Machine)
    → (told k org e m ≡ m.requests)
      ⊎ ((t : String) × (told k org e m
            ≡ m.requests ++ Request.signed_out (credential_key org) t ∷ []))
told_lem k org e m = elim (Bool-cases (is_revocable k org e)) [
  | inl may ↦ inr (e.refresh_token, rw (may, told) refl)
  | inr not_ ↦ inl (rw (not_, told) refl)
]

logout-cases :
    (k : Checks) (w : Removal) (org : Org) (m : Machine)
    → ((logout k w org m).0 ≡ m)
      ⊎ ((log : List Request) × (d : Disk) × ((logout k w org m).0
            ≡ record { disk = d; requests = log })
          × ((log ≡ m.requests)
              ⊎ ((t : String) × (log
                    ≡ m.requests ++ Request.signed_out (credential_key org) t ∷ [])))
          × Off (credential_key org) m.disk d
          × ((log' : List Request)
              → ((j t : String) → Unspent j t m.requests → Unspent j t log')
              → SafeAt m.disk m.requests (credential_key org)
              → SafeAt d log' (credential_key org)))
unfolding logout
logout-cases k w org m = elim (Option-cases (m.disk.entries (credential_key org))) [
  | inl none_ ↦ inl (rw (none_, logout) refl)
  | inr (e, held) ↦ inr (elim (Bool-cases (save w.saving (credential_key org) none m.disk).1) [
    | inr lost ↦ (
      told k org e m,
      saved,
      rw (held, logout) (rw lost refl),
      told_lem k org e m,
      off,
      λ log more safe. save_none_lem w.saving (credential_key org) m.disk m.requests log more safe,
    )
    | inl kept ↦ (
      told k org e m,
      cleared,
      rw (held, logout) (rw kept refl),
      told_lem k org e m,
      Off-trans (credential_key org) m.disk saved cleared off
          (clear-Off w.removal w.remarking (credential_key org) saved),
      λ log more safe. absent-SafeAt cleared log (credential_key org) (
          ap (λ f. f (credential_key org))
            (clear-entries w.removal w.remarking (credential_key org) saved)
          ∙ save-done w.saving (credential_key org) none m.disk kept),
    )
  ])
]
  where
    saved : Disk
    saved = (save w.saving (credential_key org) none m.disk).0

    cleared : Disk
    cleared = (clear w.removal w.remarking (credential_key org) saved).0

    off : Off (credential_key org) m.disk saved
    off = save-Off w.saving (credential_key org) none m.disk

-- What signing out leaves.
pub logout_lem :
    (k : Checks) (w : Removal) (org : Org) (m : Machine)
    → Safe m
    → Change (credential_key org) m (logout k w org m).0
      × (((logout k w org m).0.requests ≡ m.requests)
          ⊎ ((t : String) × ((logout k w org m).0.requests
                ≡ m.requests ++ Request.signed_out (credential_key org) t ∷ [])))
logout_lem k w org m safe = elim (logout-cases k w org m) [
  | inl same ↦ rw same (
    record {
      off = λ j h. (refl, refl);
      at_key = safe (credential_key org);
      log_off = λ j t h u. u;
    },
    inl refl,
  )
  | inr (log, d, same, told, off, kept) ↦ rw same (
    record {
      off = off;
      at_key = kept log (told_Unspent log told) (safe (credential_key org));
      log_off = λ j t h u. told_Unspent log told j t u;
    },
    told,
  )
]
  where
    told_Unspent :
        (log : List Request)
        → (log ≡ m.requests)
          ⊎ ((t : String) × (log ≡ m.requests ++ Request.signed_out (credential_key org) t ∷ []))
        → (j t : String) → Unspent j t m.requests
        → Unspent j t log
    told_Unspent log (inl e) j t u = subst (λ l. Unspent j t l) (sym e) u
    told_Unspent log (inr (x, e)) j t u =
        subst (λ l. Unspent j t l) (sym e)
          (All-append (λ q. is_spend j t q ≡ false) m.requests _ u (refl, tt))
