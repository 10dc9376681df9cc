-- ===== src/Routine/Options/Checked.antt =====
-- shared/routine/options.go: the options of a registered routine.
use anfra.Prelude.{
  ℕ, ◌≤◌, ◌<◌, ◌≡◌, inl, inr, Bool, true, false, List, [], ◌∷◌, arith, Bool-cases, All, ok,
}
use anfra.Routine.Group.{Kind, every, loop}
use anfra.Routine.Options.{
  Options, RoutineOption, new_options, apply_all, allows, kind_eq, immediately_option,
  default_options, jitter_option, restart_backoff, recover_option,
}

-- The options that the package makes: the calls of its constructors that do not panic.
pub data Made {F : Type 0} (tenth : F) (in_unit : F → Bool) : RoutineOption F → Type 0 where
  immediately : {o : RoutineOption F} → o ≡ immediately_option tenth in_unit → Made tenth in_unit o
  jitter :
      {o : RoutineOption F} (f : F) → jitter_option tenth in_unit f ≡ ok o → Made tenth in_unit o
  restart :
      {o : RoutineOption F} (lo hi : ℕ)
      → restart_backoff tenth in_unit lo hi ≡ ok o
      → Made tenth in_unit o
  recover : {o : RoutineOption F} → o ≡ recover_option tenth in_unit → Made tenth in_unit o

-- What a routine relies on: a backoff range that `NewBackoff` accepts, a jitter in its range, and
-- each kind's own options alone changed from the defaults.
pub record IsFit {F : Type 0} (tenth : F) (in_unit : F → Bool) (k : Kind) (o : Options F)
    : Type 0 where
  pub positive : 0 < o.backoff_min
  pub ordered : o.backoff_min ≤ o.backoff_max
  pub jitter_in : in_unit o.jitter ≡ true
  pub loops :
      kind_eq k every ≡ false → (o.immediately ≡ false) × (o.recover ≡ false) × (o.jitter ≡ tenth)
  pub others :
      kind_eq k loop ≡ false → (o.backoff_min ≡ 1_000_000_000) × (o.backoff_max ≡ 30_000_000_000)

module _ {F : Type 0} (tenth : F) (in_unit : F → Bool) where
  apply-IsFit :
      (k : Kind) (opt : RoutineOption F) (o : Options F)
      → Made tenth in_unit opt
      → allows k opt.kinds false ≡ true
      → IsFit tenth in_unit k o
      → IsFit tenth in_unit k (opt.apply o)
  unfolding allows immediately_option jitter_option restart_backoff recover_option
  apply-IsFit k opt o (immediately e) a v = ground arith
  apply-IsFit k opt o (jitter f e) a v = ground arith
  apply-IsFit k opt o (restart lo hi e) a v = ground arith
  apply-IsFit k opt o (recover e) a v = ground arith

  apply_all-IsFit :
      (k : Kind) (opts : List (RoutineOption F)) (o : Options F) {out : Options F}
      → All (Made tenth in_unit) opts
      → IsFit tenth in_unit k o
      → apply_all tenth in_unit k opts o ≡ ok out
      → IsFit tenth in_unit k out
  unfolding apply_all
  apply_all-IsFit k [] o m v e = ground arith
  apply_all-IsFit k (opt ∷ opts) o (m, ms) v e = elim (Bool-cases (allows k opt.kinds false)) [
    | inl yes_ ↦
        apply_all-IsFit k opts (opt.apply o) ms (apply-IsFit k opt o m yes_ v) (ground arith)
    | inr no_ ↦ absurd (ground arith)
  ]

  -- Registration with options that the package made either panics, or gives options that fit the
  -- routine's kind: a backoff range with 0 < min ≤ max, a jitter in [0, 1), and the defaults in
  -- every field that does not apply to the kind. The default jitter is in its range.
  pub new_options-IsFit :
      (k : Kind) (opts : List (RoutineOption F)) {out : Options F}
      → in_unit tenth ≡ true
      → All (Made tenth in_unit) opts
      → new_options tenth in_unit k opts ≡ ok out
      → IsFit tenth in_unit k out
  unfolding new_options
  new_options-IsFit k opts j ms e =
      apply_all-IsFit k opts (default_options tenth in_unit) ms (ground arith) e
