-- ===== src/Routine/Options.antt =====
-- shared/routine/options.go: options and the kinds each applies to. A float64 is a parameter `F`,
-- with the test of `Jitter`; an option's `apply` is the function that the source gives it.
pub mod Checked
mod Tests
use anfra.Prelude.{
  ℕ, String, Bool, true, false, ◌||◌, List, [], ◌∷◌, if◌then◌else◌, Result, ok, err,
}
use anfra.Routine.Group.{Kind, every, loop, worker, task}
use anfra.Routine.Backoff.{check_backoff}

pub record Options (F : Type 0) : Type 0 where
  pub immediately : Bool
  pub jitter : F
  pub backoff_min : ℕ
  pub backoff_max : ℕ
  pub recover : Bool

pub record RoutineOption (F : Type 0) : Type 0 where
  pub name : String
  pub kinds : List Kind
  pub apply : Options F → Options F

pub data Panic : Type 0 where
  does_not_apply : String → Kind → Panic
  bad_jitter bad_backoff : Panic

abbrev pub kind_eq : Kind → Kind → Bool
kind_eq every every = true
kind_eq loop loop = true
kind_eq worker worker = true
kind_eq task task = true
kind_eq _ _ = false

-- The inner loop of `newOptions`: whether some allowed kind is the routine's.
pub allows : Kind → List Kind → Bool → Bool
allows k [] found = found
allows k (allowed ∷ rest) found = allows k rest (found || kind_eq allowed k)

module _ {F : Type 0} (tenth : F) (in_unit : F → Bool) where
  abbrev pub default_options : Options F
  default_options = record {
    immediately = false;
    jitter = tenth;
    backoff_min = 1_000_000_000;
    backoff_max = 30_000_000_000;
    recover = false;
  }

  apply_all : Kind → List (RoutineOption F) → Options F → Result Panic (Options F)
  unfolding allows
  apply_all k [] o = ok o
  apply_all k (opt ∷ opts) o =
      let rest = apply_all k opts (opt.apply o) in
      if allows k opt.kinds false then rest else err (does_not_apply opt.name k)

  pub new_options : Kind → List (RoutineOption F) → Result Panic (Options F)
  unfolding apply_all
  new_options k opts = apply_all k opts default_options

  pub immediately_option : RoutineOption F
  immediately_option = record {
    name = "Immediately";
    kinds = every ∷ [];
    apply = λ o. record o { immediately = true };
  }

  pub jitter_option : F → Result Panic (RoutineOption F)
  jitter_option f =
      if in_unit f
      then ok (record { name = "Jitter"; kinds = every ∷ []; apply = λ o. record o { jitter = f } })
      else err bad_jitter

  pub restart_backoff : ℕ → ℕ → Result Panic (RoutineOption F)
  unfolding check_backoff
  restart_backoff lo hi = elim (check_backoff lo hi) [
    | ok _ ↦ ok (record {
      name = "RestartBackoff";
      kinds = loop ∷ [];
      apply = λ o. record o { backoff_min = lo; backoff_max = hi };
    })
    | err _ ↦ err bad_backoff
  ]

  pub recover_option : RoutineOption F
  recover_option = record {
    name = "Recover";
    kinds = every ∷ [];
    apply = λ o. record o { recover = true };
  }
