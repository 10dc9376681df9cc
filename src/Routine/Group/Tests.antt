-- ===== src/Routine/Group/Tests.antt =====
-- Runs of the group of shared/routine/routine.go: a worker registered, started and stopped, and a
-- group stopped before it was started.
use anfra.Prelude.{◌≡◌, refl, ◌↔◌, true, false, [], ◌∷◌, ok, err}
use anfra.Routine.Group.{
  worker, Routine, Group, new_group, Reach, new, next, starts, stops, registers, returns, finishes,
  nil_cancel, add, start, stop, finish, deadline,
}
use anfra.Routine.Group.Lifecycle.{Steps, deadline_panics_iff, stop_completes}

abbrev serve : Routine
serve = record { name = "serve"; kind = worker }

abbrev registered : Group
registered = record {
  routines = serve ∷ [];
  started = false;
  stopped = false;
  has_contexts = false;
  loops_cancelled = false;
  drain_cancelled = false;
  stopping = false;
  done = false;
  running = [];
  waiting = false;
}

abbrev started : Group
started = record registered { started = true; has_contexts = true; running = serve ∷ [] }

abbrev stopping : Group
stopping = record started {
  stopped = true;
  stopping = true;
  loops_cancelled = true;
  waiting = true;
}

abbrev idle : Group
idle = record stopping { running = [] }

abbrev over : Group
over = record idle { drain_cancelled = true; done = true; waiting = false }

registered-Reach : Reach registered
unfolding new_group add
registered-Reach = next (new refl) (registers serve refl)

started-Reach : Reach started
unfolding start
started-Reach = next registered-Reach (starts refl)

stopping-Reach : Reach stopping
unfolding stop
stopping-Reach = next started-Reach (stops refl)

over-Reach : Reach over
unfolding finish
over-Reach = next (next stopping-Reach (returns [] [] serve refl refl)) (finishes refl refl refl)

-- `Stop`, then `Start`: no context was ever made.
abbrev never_run : Group
never_run = record registered { started = true; stopped = true; done = true }

never_run-Reach : Reach never_run
unfolding start stop
never_run-Reach = next (next registered-Reach (stops refl)) (starts refl)

deadline_panics_iff_example : (deadline never_run ≡ err nil_cancel) ↔ (never_run.stopping ≡ false)
deadline_panics_iff_example = deadline_panics_iff never_run never_run-Reach refl refl

stop_completes_example :
    (w h : Group) × (stop started ≡ ok (w, false)) × Steps w h × (h.done ≡ true)
stop_completes_example = stop_completes started started-Reach refl refl
