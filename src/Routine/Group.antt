-- ===== src/Routine/Group.antt =====
-- shared/routine/routine.go: the group's lifecycle. Its fields are kept as the source's, with a
-- closed channel or a cancelled context as a Boolean, and the wait group as the list of what runs.
-- What a routine's function does is left open: a `Step` lets any running routine return.
pub mod Lifecycle
mod Tests
use anfra.Prelude.{
  ◌≡◌, Bool, true, false, ◌||◌, not, List, [], ◌∷◌, ◌++◌, if◌then◌else◌, Result, ok, err, ◌>>=◌,
  ◌>>◌, require, String,
}

pub data Kind : Type 0 where
  every loop worker task : Kind

pub record Routine : Type 0 where
  pub name : String
  pub kind : Kind

pub data Panic : Type 0 where
  late_registration started_twice close_of_closed nil_cancel : Panic

pub record Group : Type 0 where
  pub routines : List Routine
  pub started : Bool
  pub stopped : Bool
  -- `drainCtx`, `cancelLoops` and `cancelDrain` are set by `Start`
  pub has_contexts : Bool
  pub loops_cancelled : Bool
  pub drain_cancelled : Bool
  -- the two channels, closed or not
  pub stopping : Bool
  pub done : Bool
  -- the wait group: what was added and has not called `Done`
  pub running : List Routine
  -- the goroutine of `Stop` that waits for the wait group
  pub waiting : Bool

pub new_group : Group
new_group = record {
  routines = [];
  started = false;
  stopped = false;
  has_contexts = false;
  loops_cancelled = false;
  drain_cancelled = false;
  stopping = false;
  done = false;
  running = [];
  waiting = false;
}

-- `close(c)`, which panics on a closed channel.
abbrev pub close : Bool → Result Panic Bool
close true = err close_of_closed
close false = ok true

-- A call of a cancel function, which panics while it is nil.
abbrev pub cancel : Bool → Result Panic Bool
cancel true = ok true
cancel false = err nil_cancel

pub add : Routine → Group → Result Panic Group
add r g = do
  require (not (g.started || g.stopped)) late_registration
  ok (record g { routines = g.routines ++ r ∷ [] })

-- The loop of `Start`: each routine registered is added to the wait group.
spawn_all : List Routine → List Routine → List Routine
spawn_all [] running = running
spawn_all (r ∷ rs) running = spawn_all rs (running ++ r ∷ [])

pub start : Group → Result Panic Group
unfolding spawn_all
start g = do
  require (not g.started) started_twice
  let g' = record g { started = true }
  if g.stopped
      then (close g.done >>= λ c. ok (record g' { done = c }))
      else ok (record g' {
        has_contexts = true;
        loops_cancelled = false;
        drain_cancelled = false;
        running = spawn_all g.routines g.running;
      })

-- `Task`: whether it ran, and the group with it running.
pub run_task : String → Group → Group × Bool
run_task name g =
    if not g.started || g.stopped
    then (g, false)
    else (record g { running = g.running ++ record { name = name; kind = task } ∷ [] }, true)

-- What `Stop` does before it waits: whether it returned nil at once.
pub stop : Group → Result Panic (Group × Bool)
stop g =
    if not g.started
    then ok (record g { stopped = true }, true)
    else if g.stopped
    then ok (g, false)
    else do
      s ← close g.stopping
      l ← cancel g.has_contexts
      ok (record g { stopped = true; stopping = s; loops_cancelled = l; waiting = true }, false)

-- The goroutine that `Stop` started, once `wg.Wait` returned.
pub finish : Group → Result Panic Group
finish g = do
  c ← cancel g.has_contexts
  d ← close g.done
  ok (record g { drain_cancelled = c; done = d; waiting = false })

-- The branch of `Stop`'s select on its own context's end: what still runs is cancelled.
pub deadline : Group → Result Panic Group
deadline g = do c ← cancel g.has_contexts; ok (record g { drain_cancelled = c })

-- What can happen to a group: its owner's calls, a routine's return, and the waiting goroutine.
pub data Step (g : Group) : Group → Type 0 where
  registers : {h : Group} (r : Routine) → add r g ≡ ok h → Step g h
  starts : {h : Group} → start g ≡ ok h → Step g h
  tasks : {h : Group} (name : String) → (run_task name g).0 ≡ h → Step g h
  stops : {h : Group} {b : Bool} → stop g ≡ ok (h, b) → Step g h
  expires : {h : Group} → g.started ≡ true → g.stopped ≡ true → deadline g ≡ ok h → Step g h
  returns :
      {h : Group} (before after : List Routine) (r : Routine)
      → g.running ≡ before ++ r ∷ after
      → h ≡ record g { running = before ++ after }
      → Step g h
  finishes : {h : Group} → g.waiting ≡ true → g.running ≡ [] → finish g ≡ ok h → Step g h

pub data Reach : Group → Type 0 where
  new : {g : Group} → g ≡ new_group → Reach g
  next : {g h : Group} → Reach g → Step g h → Reach h
