-- ===== src/Appserve/Limiter.antt =====
-- internal/appserve/log.go: `limiter`. A `*window` is an index into the windows ever made, since a
-- timer holds on to a window that the map has forgotten. Times are nanoseconds; a difference that
-- is negative in the source is 0 here, and compares with a minute alike.
mod Heap
pub mod Conserved
mod Tests
use anfra.Prelude.{
  ℕ, ◌+◌, ◌-◌, String, Bool, true, false, none, some, List, [], ◌∷◌, ◌++◌, str_eq, ltb, leb, ◌==◌,
  if◌then◌else◌, length, lookup,
}
use anfra.Appserve.Limiter.Heap.{Window, window_at, set}

abbrev pub minute : ℕ
minute = 60_000_000_000

abbrev pub reports_per_minute : ℕ
reports_per_minute = 300

-- The timer of `afterFunc`: when it fires, for which path and window.
pub record Timer : Type 0 where
  pub due : ℕ
  pub path : String
  pub window : ℕ

pub record Limiter : Type 0 where
  pub made : List Window
  pub windows : List (String × ℕ)
  pub last_sweep : ℕ
  pub timers : List Timer

-- The calls of `onDropped`: a path, and how many of its reports were dropped.
abbrev pub Told : Type 0
Told = List (String × ℕ)

pub new_limiter : ℕ → Limiter
new_limiter now = record { made = []; windows = []; last_sweep = now; timers = [] }

abbrev pub expired : ℕ → Window → Bool
expired t w = leb minute (t - w.start)

-- `if w.dropped > 0 { told = append(told, l.tell(path, w)) }`
pub tell : String → ℕ → List Window → List Window × Told
tell path i made =
    let w = window_at made i in
    if ltb 0 w.dropped
    then (set made i (record w { dropped = 0 }), (path, w.dropped) ∷ [])
    else (made, [])

record Swept : Type 0 where
  kept : List (String × ℕ)
  made : List Window
  told : Told

-- The loop of `sweep` over the map.
sweep_entries : ℕ → List (String × ℕ) → List Window → Swept
unfolding tell
sweep_entries t [] made = record { kept = []; made = made; told = [] }
sweep_entries t ((path, i) ∷ es) made =
    let over = expired t (window_at made i) in
    let (made', told) = if over then tell path i made else (made, []) in
    let rest = sweep_entries t es made' in
    record {
      kept = if over then rest.kept else (path, i) ∷ rest.kept;
      made = rest.made;
      told = told ++ rest.told;
    }

pub sweep : ℕ → Limiter → Limiter × Told
unfolding sweep_entries
sweep t l =
    if leb minute (t - l.last_sweep)
    then (let s = sweep_entries t l.windows l.made in
        (record l { made = s.made; windows = s.kept; last_sweep = t }, s.told))
    else (l, [])

put : String → ℕ → List (String × ℕ) → List (String × ℕ)
put k i [] = (k, i) ∷ []
put k i ((j, v) ∷ m) = if str_eq j k then (k, i) ∷ m else (j, v) ∷ put k i m

remove : String → List (String × ℕ) → List (String × ℕ)
remove k [] = []
remove k ((j, v) ∷ m) = if str_eq j k then remove k m else (j, v) ∷ remove k m

-- The path's window for now: the one it has, or a new one where it has none or its minute is over.
pub current : String → ℕ → Limiter → Limiter × ℕ × Told
unfolding put tell
current path t l = elim (lookup path l.windows) [
  | none ↦ (
    record l {
      made = l.made ++ record { start = t; count = 0; dropped = 0; timed = false } ∷ [];
      windows = put path (length l.made) l.windows;
    },
    length l.made,
    [],
  )
  | some i ↦
      if expired t (window_at l.made i)
      then (let (made, told) = tell path i l.made in
          (
            record l {
              made = made ++ record { start = t; count = 0; dropped = 0; timed = false } ∷ [];
              windows = put path (length made) l.windows;
            },
            length made,
            told,
          ))
      else (l, i, [])
]

-- The count of one more report in a window: whether it is allowed.
pub count_report : String → ℕ → ℕ → Limiter → Limiter × Bool
count_report path t i l =
    let w = window_at l.made i in
    if leb reports_per_minute w.count
    then (
      record l {
        made = set l.made i (record w { dropped = w.dropped + 1; timed = true });
        timers =
            if w.timed
            then l.timers
            else record { due = t + (w.start + minute - t); path = path; window = i } ∷ l.timers;
      },
      false,
    )
    else (record l { made = set l.made i (record w { count = w.count + 1 }) }, true)

-- `allow`: whether the path may log one more report at `t`, and what is told once unlocked.
pub allow : String → ℕ → Limiter → Limiter × Bool × Told
allow path t l =
    let (l1, told1) = sweep t l in
    let (l2, i, told2) = current path t l1 in
    let (l3, allowed) = count_report path t i l2 in (l3, allowed, told1 ++ told2)

-- `flush`, a timer's call.
pub flush : String → ℕ → Limiter → Limiter × Told
unfolding tell remove
flush path i l =
    let (made, told) = tell path i l.made in
    let forget = elim (lookup path l.windows) as (λ _. Bool) [ some j ↦ j == i | none ↦ false ] in
    (record l { made = made; windows = if forget then remove path l.windows else l.windows }, told)
