-- ===== src/Cliauth/Spent.antt =====
-- internal/cliauth: which refresh tokens the server has been told, and what the disk may still use.
use anfra.Prelude.{
  String, ◌≡◌, refl, ◌∙◌, ◌⊎◌, inl, inr, Bool, true, false, ◌&&◌, Option, some, List, str_eq,
  eq_refl, if◌then◌else◌, Bool-cases, All,
}
use anfra.Cliauth.{StoredCredential, Disk, Outcome, put, written, is_done, mark, save, clear}
use anfra.Cliauth.Manager.{Request, Machine}

-- Whether a request traded in or gave up an org's refresh token.
abbrev pub is_spend : String → String → Request → Bool
is_spend key token (Request.refreshed k t) = str_eq k key && str_eq token t
is_spend key token (Request.abandoned k t) = str_eq k key && str_eq token t
is_spend key token (Request.signed_out k t) = false

abbrev pub Unspent : String → String → List Request → Type 0
Unspent key token log = All (λ r. is_spend key token r ≡ false) log

-- What the disk has at a key is spent by no request, where its marker and its entry let it be used.
abbrev pub SafeAt : Disk → List Request → String → Type 0
SafeAt d log key =
    (e : StoredCredential)
    → d.entries key ≡ some e
    → d.markers key ≡ false
    → e.pending ≡ false
    → Unspent key e.refresh_token log

abbrev pub Safe : Machine → Type 0
Safe m = (key : String) → SafeAt m.disk m.requests key

-- A disk that has changed at one key at most.
abbrev pub Off : String → Disk → Disk → Type 0
Off key d d' =
    (j : String)
    → str_eq key j ≡ false
    → (d'.entries j ≡ d.entries j) × (d'.markers j ≡ d.markers j)

pub Off-trans : (key : String) (a b c : Disk) → Off key a b → Off key b c → Off key a c
Off-trans key a b c f g j h = ((g j h).0 ∙ (f j h).0, (g j h).1 ∙ (f j h).1)

pub mark-Off : (o : Outcome) (key : String) (d : Disk) → Off key d (mark o key d).0
unfolding mark
mark-Off o key d j h = elim (Bool-cases (d.markers key)) [
  | inl there ↦ rw there (refl, refl)
  | inr new ↦ elim (Bool-cases (written o)) [
    | inl put_ ↦ rw new (rw put_ (refl, rw h refl))
    | inr kept ↦ rw new (rw kept (refl, refl))
  ]
]

pub mark-entries : (o : Outcome) (key : String) (d : Disk) → (mark o key d).0.entries ≡ d.entries
unfolding mark
mark-entries o key d = elim (Bool-cases (d.markers key)) [
  | inl there ↦ rw there refl
  | inr new ↦ elim (Bool-cases (written o)) [
    | inl put_ ↦ rw new (rw put_ refl)
    | inr kept ↦ rw new (rw kept refl)
  ]
]

pub mark-markers :
    (o : Outcome) (key : String) (d : Disk)
    → (mark o key d).0.markers key ≡ false
    → d.markers key ≡ false
unfolding mark
mark-markers o key d h = elim (Bool-cases (d.markers key)) [
  | inr new ↦ new
  | inl there ↦ absurd (kept there h)
]
  where
    kept : d.markers key ≡ true → (mark o key d).0.markers key ≡ false → ⊥
    kept there h = let e : (mark o key d).0.markers key ≡ true = rw there there in cc

-- A marker that is put, is there.
pub mark-written :
    (o : Outcome) (key : String) (d : Disk) → written o ≡ true → (mark o key d).0.markers key ≡ true
unfolding mark
mark-written o key d h = elim (Bool-cases (d.markers key)) [
  | inl there ↦ rw there there
  | inr new ↦ rw new (rw h (rw (eq_refl key) refl))
]

pub mark-done :
    (o : Outcome) (key : String) (d : Disk)
    → (mark o key d).1 ≡ true
    → (mark o key d).0.markers key ≡ true
unfolding mark
mark-done Outcome.done key d h = mark-written Outcome.done key d refl
mark-done Outcome.failed key d h = elim (Bool-cases (d.markers key)) [
  | inl there ↦ rw there there
  | inr new ↦ absurd (let e : (mark Outcome.failed key d).1 ≡ false = rw new refl in cc)
]
mark-done Outcome.unsynced key d h = mark-written Outcome.unsynced key d refl

pub save-Off :
    (o : Outcome) (key : String) (e : Option StoredCredential) (d : Disk)
    → Off key d (save o key e d).0
unfolding save
save-Off Outcome.done key e d j h = (rw h refl, refl)
save-Off Outcome.failed key e d j h = (refl, refl)
save-Off Outcome.unsynced key e d j h = (rw h refl, refl)

pub save-markers :
    (o : Outcome) (key : String) (e : Option StoredCredential) (d : Disk)
    → (save o key e d).0.markers ≡ d.markers
unfolding save
save-markers Outcome.done key e d = refl
save-markers Outcome.failed key e d = refl
save-markers Outcome.unsynced key e d = refl

pub save-done :
    (o : Outcome) (key : String) (e : Option StoredCredential) (d : Disk)
    → (save o key e d).1 ≡ true
    → (save o key e d).0.entries key ≡ e
unfolding save
save-done Outcome.done key e d h = rw (eq_refl key) refl
save-done Outcome.failed key e d h = cc
save-done Outcome.unsynced key e d h = cc

-- The disk whose marker has been removed.
abbrev removed : String → Disk → Disk
removed key d = record d { markers = put key false d.markers }

-- What `clear` puts a marker back on, where its removal was not done.
abbrev uncleared : Outcome → String → Disk → Disk
uncleared o key d = if written o then removed key d else d

uncleared-Off : (o : Outcome) (key : String) (d : Disk) → Off key d (uncleared o key d)
uncleared-Off Outcome.done key d j h = (refl, rw h refl)
uncleared-Off Outcome.failed key d j h = (refl, refl)
uncleared-Off Outcome.unsynced key d j h = (refl, rw h refl)

uncleared-entries :
    (o : Outcome) (key : String) (d : Disk) → (uncleared o key d).entries ≡ d.entries
uncleared-entries Outcome.done key d = refl
uncleared-entries Outcome.failed key d = refl
uncleared-entries Outcome.unsynced key d = refl

-- What `clear` does: nothing where there is no marker, and where there is one it removes it or may
-- have put it back.
clear-cases :
    (o p : Outcome) (key : String) (d : Disk)
    → (clear o p key d ≡ (d, true))
      ⊎ ((clear o p key d ≡ (removed key d, true))
          ⊎ (clear o p key d ≡ ((mark p key (uncleared o key d)).0, false)))
unfolding clear
clear-cases o p key d = elim (Bool-cases (d.markers key)) [
  | inr unmarked ↦ inl (rw unmarked refl)
  | inl there ↦ elim (Bool-cases (is_done o)) [
    | inl cleared ↦ inr (inl (rw there (rw cleared refl)))
    | inr kept ↦ inr (inr (rw there (rw kept refl)))
  ]
]

pub clear-Off : (o p : Outcome) (key : String) (d : Disk) → Off key d (clear o p key d).0
clear-Off o p key d = elim (clear-cases o p key d) [
  | inl e ↦ rw e (λ j h. (refl, refl))
  | inr (inl e) ↦ rw e (λ j h. (refl, rw h refl))
  | inr (inr e) ↦ rw e (
      Off-trans key d (uncleared o key d) _ (uncleared-Off o key d)
        (mark-Off p key (uncleared o key d)))
]

pub clear-entries :
    (o p : Outcome) (key : String) (d : Disk) → (clear o p key d).0.entries ≡ d.entries
clear-entries o p key d = elim (clear-cases o p key d) [
  | inl e ↦ rw e refl
  | inr (inl e) ↦ rw e refl
  | inr (inr e) ↦ rw e (mark-entries p key (uncleared o key d) ∙ uncleared-entries o key d)
]

-- A marker that could not be removed is there, where putting it back was not in vain.
pub clear-failed :
    (o p : Outcome) (key : String) (d : Disk)
    → written p ≡ true
    → (clear o p key d).1 ≡ false
    → (clear o p key d).0.markers key ≡ true
clear-failed o p key d h f = elim (clear-cases o p key d) [
  | inl e ↦ absurd cc
  | inr (inl e) ↦ absurd cc
  | inr (inr e) ↦ rw e (mark-written p key (uncleared o key d) h)
]
