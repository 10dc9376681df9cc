-- ===== src/Routine/Group/Lifecycle.antt =====
-- shared/routine/routine.go: a group after any sequence of calls and returns.
use anfra.Prelude.{
  ◌≤◌, String, ◌≡◌, refl, sym, ap, ◌∙◌, ◌↔◌, ◌⊎◌, Bool, true, false, List, [], ◌∷◌, ◌++◌, arith,
  length, length-append, ok, err,
}
use mathlib.Core.Path.{subst}
use anfra.Routine.Group.{
  Routine, Group, new_group, add, start, run_task, stop, finish, deadline, Step, Reach, nil_cancel,
  new, registers, next, starts, tasks, stops, expires, finishes, returns,
}

pub record Inv (g : Group) : Type 0 where
  pub idle : g.started ≡ false → g.running ≡ []
  pub done_idle : g.done ≡ true → g.running ≡ []
  pub done_stopped : g.done ≡ true → (g.started ≡ true) × (g.stopped ≡ true) × (g.waiting ≡ false)
  pub contexts : g.has_contexts ≡ true → g.started ≡ true
  pub stopping_stopped : g.stopping ≡ true → (g.stopped ≡ true) × (g.has_contexts ≡ true)
  pub waits : g.waiting ≡ true → (g.stopping ≡ true) × (g.done ≡ false)
  pub running_contexts : g.started ≡ true → (g.has_contexts ≡ true) ⊎ (g.done ≡ true)
  pub open_contexts : g.has_contexts ≡ true → g.stopped ≡ true → g.stopping ≡ true
  pub loops : g.loops_cancelled ≡ true → g.stopping ≡ true
  pub loops_stop : g.stopping ≡ true → g.loops_cancelled ≡ true
  pub finishing : g.stopping ≡ true → (g.waiting ≡ true) ⊎ (g.done ≡ true)
  pub drain : g.drain_cancelled ≡ true → g.stopping ≡ true

new_group-Inv : Inv new_group
unfolding new_group
new_group-Inv = ground arith

add-Inv : (g h : Group) (r : Routine) → add r g ≡ ok h → Inv g → Inv h
unfolding add
add-Inv g h r e v = ground arith

start-Inv : (g h : Group) → start g ≡ ok h → Inv g → Inv h
unfolding start
start-Inv g h e v = ground arith

run_task-Inv : (g : Group) (name : String) → Inv g → Inv (run_task name g).0
unfolding run_task
run_task-Inv g name v = ground arith

stop-Inv : (g h : Group) (b : Bool) → stop g ≡ ok (h, b) → Inv g → Inv h
unfolding stop
stop-Inv g h b e v = ground arith

deadline-Inv :
    (g h : Group) → g.started ≡ true → g.stopped ≡ true → deadline g ≡ ok h → Inv g → Inv h
unfolding deadline
deadline-Inv g h s t e v = ground arith

finish-Inv : (g h : Group) → g.waiting ≡ true → g.running ≡ [] → finish g ≡ ok h → Inv g → Inv h
unfolding finish
finish-Inv g h w n e v = ground arith

append-ne-nil : (xs : List Routine) (r : Routine) (ys : List Routine) → ¬ (xs ++ r ∷ ys ≡ [])
append-ne-nil [] r ys e = cc
append-ne-nil (x ∷ xs) r ys e = cc

returns-Inv :
    (g : Group) (before after : List Routine) (r : Routine)
    → g.running ≡ before ++ r ∷ after
    → Inv g
    → Inv (record g { running = before ++ after })
returns-Inv g before after r e v = record {
  idle = λ i. absurd (busy (v.idle i));
  done_idle = λ d. absurd (busy (v.done_idle d));
  done_stopped = v.done_stopped;
  contexts = v.contexts;
  stopping_stopped = v.stopping_stopped;
  waits = v.waits;
  running_contexts = v.running_contexts;
  open_contexts = v.open_contexts;
  loops = v.loops;
  loops_stop = v.loops_stop;
  finishing = v.finishing;
  drain = v.drain;
}
  where
    busy : ¬ (g.running ≡ [])
    busy n = append-ne-nil before r after (sym e ∙ n)

Step-Inv : {g h : Group} → Step g h → Inv g → Inv h
Step-Inv {g} {h} (registers r e) v = add-Inv g h r e v
Step-Inv {g} {h} (starts e) v = start-Inv g h e v
Step-Inv {g} (tasks name e) v = subst Inv e (run_task-Inv g name v)
Step-Inv {g} {h} (stops {b} e) v = stop-Inv g h b e v
Step-Inv {g} {h} (expires s t e) v = deadline-Inv g h s t e v
Step-Inv {g} (returns before after r e f) v = subst Inv (sym f) (returns-Inv g before after r e v)
Step-Inv {g} {h} (finishes w n e) v = finish-Inv g h w n e v

Reach-Inv : {g : Group} → Reach g → Inv g
Reach-Inv (new e) = subst Inv (sym e) new_group-Inv
Reach-Inv (next r s) = Step-Inv s (Reach-Inv r)

-- Once a group's `done` channel is closed, which is what a waiting `Stop` returns on, every routine
-- and task has returned, and the loops' context is cancelled if the group ever ran.
pub done_idle :
    (g : Group)
    → Reach g
    → g.done ≡ true
    → (g.running ≡ []) × (g.has_contexts ≡ true → g.loops_cancelled ≡ true)
done_idle g r d = ground (arith, Reach-Inv r)

-- In a started and stopped group, the end of `Stop`'s context makes `Stop` call a nil cancel
-- function exactly when the `stopping` channel is open, as it is where the group was stopped before
-- it was started.
pub deadline_panics_iff :
    (g : Group)
    → Reach g
    → g.started ≡ true
    → g.stopped ≡ true
    → (deadline g ≡ err nil_cancel) ↔ (g.stopping ≡ false)
unfolding deadline
deadline_panics_iff g r s t = let v = Reach-Inv r in ground (arith, v)

-- A stopped group stays stopped and starts nothing more: no step adds to how many routines and
-- tasks run.
pub stopped_quiet :
    (g h : Group)
    → g.stopped ≡ true
    → Step g h
    → (h.stopped ≡ true) × (length h.running ≤ length g.running)
stopped_quiet g h s (registers r e) = unfold add in ground arith
stopped_quiet g h s (starts e) = unfold start in ground arith
stopped_quiet g h s (tasks name e) = unfold run_task in ground arith
stopped_quiet g h s (stops e) = unfold stop in ground arith
stopped_quiet g h s (expires a b e) = unfold deadline in ground arith
stopped_quiet g h s (returns before after r e f) =
    rw f
      (s, omega (arith, ap length e, length-append before (r ∷ after), length-append before after))
stopped_quiet g h s (finishes w n e) = unfold finish in ground arith

-- The steps of the rest of a stop: routines return, then the waiting goroutine finishes.
pub data Steps : Group → Group → Type 0 where
  here : {g h : Group} → g ≡ h → Steps g h
  and_then : {g h k : Group} → Step g h → Steps h k → Steps g k

finish_completes :
    (g : Group) → Inv g → g.waiting ≡ true → (h : Group) × (finish g ≡ ok h) × (h.done ≡ true)
unfolding finish
finish_completes g v w =
    (record g { drain_cancelled = true; done = true; waiting = false }, ground arith, refl)

drains :
    (rs : List Routine) (g : Group)
    → Inv g
    → g.running ≡ rs
    → g.waiting ≡ true
    → (h : Group) × Steps g h × (h.done ≡ true)
drains [] g v e w =
    let (h, f, d) = finish_completes g v w in (h, and_then (finishes w e f) (here refl), d)
drains (r ∷ rs) g v e w =
    let one : Step g (record g { running = rs }) = returns [] rs r e refl in
    let (h, later, d) = drains rs (record g { running = rs }) (returns-Inv g [] rs r e v) refl w in
    (h, and_then one later, d)

-- `Stop` can always end: from a reachable group that was started and not yet stopped, `Stop` waits,
-- and once each running routine returns, the steps lead to a closed `done` channel.
pub stop_completes :
    (g : Group)
    → Reach g
    → g.started ≡ true
    → g.stopped ≡ false
    → (w h : Group) × (stop g ≡ ok (w, false)) × Steps w h × (h.done ≡ true)
stop_completes g r s n =
    let (w, e) = stops_waiting in
    let (h, later, d) = drains w.running w (stop-Inv g w false e.0 (Reach-Inv r)) refl e.1 in
    (w, h, e.0, later, d)
  where
    stops_waiting : (w : Group) × ((stop g ≡ ok (w, false)) × (w.waiting ≡ true))
    stops_waiting =
        let v = Reach-Inv r in
        (
          record g { stopped = true; stopping = true; loops_cancelled = true; waiting = true },
          unfold stop in ground (arith, v),
        )
