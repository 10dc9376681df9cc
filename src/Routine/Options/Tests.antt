-- ===== src/Routine/Options/Tests.antt =====
-- Registrations with the options of shared/routine/options.go; a jitter is counted in hundredths.
use anfra.Prelude.{ℕ, ◌≡◌, refl, Bool, false, [], ◌∷◌, ltb, ok}
use anfra.Routine.Group.{loop}
use anfra.Routine.Options.{Options, RoutineOption, new_options, restart_backoff}
use anfra.Routine.Options.Checked.{Made, restart}

abbrev below_one : ℕ → Bool
below_one n = ltb n 100

abbrev one_to_five : RoutineOption ℕ
one_to_five = record {
  name = "RestartBackoff";
  kinds = loop ∷ [];
  apply = λ o. record o { backoff_min = 1; backoff_max = 5 };
}

abbrev fitted : Options ℕ
fitted = record {
  immediately = false;
  jitter = 10;
  backoff_min = 1;
  backoff_max = 5;
  recover = false;
}

one_to_five-Made : Made 10 below_one one_to_five
unfolding restart_backoff
one_to_five-Made = restart 1 5 refl

registration : new_options 10 below_one loop (one_to_five ∷ []) ≡ ok fitted
unfolding new_options
registration = refl
