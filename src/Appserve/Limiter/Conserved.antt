-- ===== src/Appserve/Limiter/Conserved.antt =====
-- internal/appserve/log.go: the drops that the limiter counts and tells.
use anfra.Prelude.{
  ℕ, zero, suc, ◌+◌, ◌-◌, ◌≤◌, ◌<◌, String, ◌≡◌, refl, inl, inr, Bool, true, false, some, List, [],
  ◌∷◌, ◌++◌, arith, leb, if◌then◌else◌, Bool-cases, Option-cases, length, length-append, All,
  All-append, lookup,
}
use anfra.Appserve.Limiter.{
  new_limiter, Told, tell, Limiter, sweep_entries, remove, put, reports_per_minute, expired,
  current, count_report, sweep, minute, flush, Timer, allow, set,
}
use anfra.Appserve.Limiter.Heap.{
  Window, window_at, pending, pending-set, length-set, AllCounts, AllCounts-set, AllCounts-at,
  pending-append,
}

-- The drops that calls of `onDropped` told.
abbrev pub told_drops : Told → ℕ
told_drops [] = 0
told_drops ((p, n) ∷ ts) = n + told_drops ts

told_drops-append : (xs ys : Told) → told_drops (xs ++ ys) ≡ told_drops xs + told_drops ys
told_drops-append [] ys = omega arith
told_drops-append ((p, n) ∷ xs) ys = omega (arith, told_drops-append xs ys)

tell-pending :
    (p : String) (i : ℕ) (ws : List Window)
    → i < length ws
    → (pending (tell p i ws).0 + told_drops (tell p i ws).1 ≡ pending ws)
      × (length (tell p i ws).0 ≡ length ws)
unfolding tell
tell-pending p i ws h = ground (
  arith,
  pending-set ws i (record (window_at ws i) { dropped = 0 }) h,
  length-set ws i (record (window_at ws i) { dropped = 0 }),
)

-- Every index of the map is one of a window made.
abbrev pub InRange : ℕ → List (String × ℕ) → Type 0
InRange n = All (λ (e : String × ℕ). e.1 < n)

InRange-le : (m n : ℕ) (es : List (String × ℕ)) → m ≤ n → InRange m es → InRange n es
InRange-le m n [] h r = tt
InRange-le m n (e ∷ es) h (p, r) = (omega arith, InRange-le m n es h r)

InRange-put :
    (n i : ℕ) (k : String) (es : List (String × ℕ)) → i < n → InRange n es → InRange n (put k i es)
unfolding put
InRange-put n i k [] h r = (h, tt)
InRange-put n i k ((j, v) ∷ es) h (p, r) = ground (arith, InRange-put n i k es h r)

InRange-remove :
    (n : ℕ) (k : String) (es : List (String × ℕ)) → InRange n es → InRange n (remove k es)
unfolding remove
InRange-remove n k [] r = tt
InRange-remove n k ((j, v) ∷ es) (p, r) = ground (arith, InRange-remove n k es r)

InRange-lookup :
    (n i : ℕ) (k : String) (es : List (String × ℕ)) → InRange n es → lookup k es ≡ some i → i < n
InRange-lookup n i k [] r e = cc
InRange-lookup n i k ((j, v) ∷ es) (p, r) e = ground (arith, InRange-lookup n i k es r)

pub record IsSound (l : Limiter) : Type 0 where
  pub known : InRange (length l.made) l.windows
  pub capped : AllCounts reports_per_minute l.made

tell-counts :
    (p : String) (i : ℕ) (ws : List Window)
    → AllCounts reports_per_minute ws
    → AllCounts reports_per_minute (tell p i ws).0
unfolding tell
tell-counts p i ws h = ground (
  arith,
  AllCounts-set reports_per_minute ws i (record (window_at ws i) { dropped = 0 }) h
      (AllCounts-at reports_per_minute ws i h),
)

-- One part of the limiter's work, from windows `ws` to `vs`: what it keeps, and what it tells.
record Keeps (ws vs : List Window) (told : Told) : Type 0 where
  balance : pending vs + told_drops told ≡ pending ws
  longer : length ws ≤ length vs
  capped : AllCounts reports_per_minute vs

tell-Keeps :
    (p : String) (i : ℕ) (ws : List Window)
    → i < length ws
    → AllCounts reports_per_minute ws
    → Keeps ws (tell p i ws).0 (tell p i ws).1
tell-Keeps p i ws h c = record {
  balance = (tell-pending p i ws h).0;
  longer = omega (arith, (tell-pending p i ws h).1);
  capped = tell-counts p i ws c;
}

Keeps-trans :
    (us vs ws : List Window) (x y : Told) → Keeps us vs x → Keeps vs ws y → Keeps us ws (x ++ y)
Keeps-trans us vs ws x y k l = record {
  balance = omega (arith, k.balance, l.balance, told_drops-append x y);
  longer = omega (arith, k.longer, l.longer);
  capped = l.capped;
}

sweep_entries-Keeps :
    (t : ℕ) (es : List (String × ℕ)) (ws : List Window)
    → InRange (length ws) es
    → AllCounts reports_per_minute ws
    → Keeps ws (sweep_entries t es ws).made (sweep_entries t es ws).told
      × InRange (length ws) (sweep_entries t es ws).kept
unfolding sweep_entries
sweep_entries-Keeps t [] ws r c = ground arith
sweep_entries-Keeps t ((p, i) ∷ es) ws (h, r) c = elim (Bool-cases (expired t (window_at ws i))) [
  | inl over ↦
      let one = tell-Keeps p i ws h c in
      let same = (tell-pending p i ws h).1 in
      let (k, kept) =
        sweep_entries-Keeps t es (tell p i ws).0 (InRange-le _ _ es one.longer r) one.capped in
      rw over (Keeps-trans ws (tell p i ws).0 _ _ _ one k, rw same at kept)
  | inr fresh ↦ let (k, kept) = sweep_entries-Keeps t es ws r c in rw fresh (k, (h, kept))
]

sweep-IsSound :
    (t : ℕ) (l : Limiter)
    → IsSound l
    → IsSound (sweep t l).0 × Keeps l.made (sweep t l).0.made (sweep t l).1
unfolding sweep
sweep-IsSound t l v = elim (Bool-cases (leb minute (t - l.last_sweep))) [
  | inl due ↦
      let (k, kept) = sweep_entries-Keeps t l.windows l.made v.known v.capped in
      rw due (record { known = InRange-le _ _ _ k.longer kept; capped = k.capped }, k)
  | inr early ↦
      rw early (v, record { balance = omega arith; longer = omega arith; capped = v.capped })
]

AllCounts-append :
    (n : ℕ) (ws : List Window) (w : Window)
    → AllCounts n ws
    → w.count ≤ n
    → AllCounts n (ws ++ w ∷ [])
AllCounts-append n ws w h k = All-append (λ (w : Window). w.count ≤ n) ws (w ∷ []) h (k, tt)

fresh_window : ℕ → Window
fresh_window t = record { start = t; count = 0; dropped = 0; timed = false }

renew-Keeps :
    (t : ℕ) (ws : List Window)
    → AllCounts reports_per_minute ws
    → Keeps ws (ws ++ fresh_window t ∷ []) []
unfolding fresh_window
renew-Keeps t ws c = record {
  balance = omega (arith, pending-append ws (fresh_window t));
  longer = omega (arith, length-append ws (fresh_window t ∷ []));
  capped = AllCounts-append _ ws (fresh_window t) c (omega arith);
}

renew-IsSound :
    (path : String) (t : ℕ) (l : Limiter) (ws : List Window)
    → InRange (length ws) l.windows
    → AllCounts reports_per_minute ws
    → IsSound
        (record l { made = ws ++ fresh_window t ∷ []; windows = put path (length ws) l.windows })
renew-IsSound path t l ws r c = record {
  known =
      InRange-put _ (length ws) path l.windows
        (omega (arith, length-append ws (fresh_window t ∷ [])))
        (InRange-le _ _ l.windows (renew-Keeps t ws c).longer r);
  capped = (renew-Keeps t ws c).capped;
}

current-IsSound :
    (path : String) (t : ℕ) (l : Limiter)
    → IsSound l
    → let (l', i, told) = current path t l in
      IsSound l' × Keeps l.made l'.made told × (i < length l'.made)
unfolding current fresh_window
current-IsSound path t l v = elim (Option-cases (lookup path l.windows)) [
  | inl none_yet ↦
      rw (none_yet, current)
        (
          renew-IsSound path t l l.made v.known v.capped,
          renew-Keeps t l.made v.capped,
          omega (arith, length-append l.made (fresh_window t ∷ [])),
        )
  | inr (i, found) ↦
      let h = InRange-lookup (length l.made) i path l.windows v.known found in
      elim (Bool-cases (expired t (window_at l.made i))) [
        | inl over ↦
            let ws : List Window = (tell path i l.made).0 in
            let one = tell-Keeps path i l.made h v.capped in
            let more = renew-Keeps t ws one.capped in
            rw (found, current)
              (rw over (
                renew-IsSound path t l ws (InRange-le _ _ l.windows one.longer v.known) one.capped,
                record {
                  balance = omega (arith, one.balance, more.balance);
                  longer = omega (arith, one.longer, more.longer);
                  capped = more.capped;
                },
                omega (arith, length-append ws (fresh_window t ∷ [])),
              ))
        | inr fresh ↦
            rw (found, current)
              (rw fresh
                (v, record { balance = omega arith; longer = omega arith; capped = v.capped }, h))
      ]
]

set-IsSound :
    (l : Limiter) (i : ℕ) (w : Window) {timers : List Timer}
    → IsSound l
    → w.count ≤ reports_per_minute
    → IsSound (record l { made = set l.made i w; timers = timers })
set-IsSound l i w v c = record {
  known = InRange-le _ _ l.windows (omega (arith, length-set l.made i w)) v.known;
  capped = AllCounts-set _ l.made i w v.capped c;
}

count_report-IsSound :
    (path : String) (t i : ℕ) (l : Limiter)
    → IsSound l
    → i < length l.made
    → let (l', allowed) = count_report path t i l in
      IsSound l' × (pending l'.made ≡ pending l.made + (if allowed then 0 else 1))
unfolding count_report
count_report-IsSound path t i l v h =
    elim (Bool-cases (leb reports_per_minute (window_at l.made i).count)) [
      | inl full ↦
          let w : Window = window_at l.made i in
          let w' : Window = record w { dropped = w.dropped + 1; timed = true } in
          rw full (
            set-IsSound l i w' v (AllCounts-at _ l.made i v.capped),
            omega (arith, pending-set l.made i w' h),
          )
      | inr room ↦
          let w : Window = window_at l.made i in
          let w' : Window = record w { count = w.count + 1 } in
          rw room (set-IsSound l i w' v (ground arith), omega (arith, pending-set l.made i w' h))
    ]

-- On a sound limiter, a report changes the drops not yet told by what it tells and by itself, if it is refused: a
-- refused report is told or pending exactly once. The limiter stays sound: no window ever counts
-- more than 300 reports, and every path's window is one that was made.
pub allow-IsSound :
    (path : String) (t : ℕ) (l : Limiter)
    → IsSound l
    → let (l', allowed, told) = allow path t l in
      IsSound l' × (pending l'.made + told_drops told ≡ pending l.made + (if allowed then 0 else 1))
unfolding allow
allow-IsSound path t l v =
    let (v1, k1) = sweep-IsSound t l v in
    let (v2, k2, h) = current-IsSound path t (sweep t l).0 v1 in
    let (v3, e) =
      count_report-IsSound path t (current path t (sweep t l).0).1 (current path t (sweep t l).0).0
        v2 h in
    (
      v3,
      omega (
        arith,
        k1.balance,
        k2.balance,
        e,
        told_drops-append (sweep t l).1 (current path t (sweep t l).0).2,
      ),
    )

InRange-if :
    (n : ℕ) (b : Bool) (k : String) (es : List (String × ℕ))
    → InRange n es
    → InRange n (if b then remove k es else es)
InRange-if n true k es r = InRange-remove n k es r
InRange-if n false k es r = r

window_at-set :
    (ws : List Window) (i : ℕ) (w : Window) → i < length ws → window_at (set ws i w) i ≡ w
window_at-set [] i w h = absurd (omega arith)
window_at-set (x ∷ ws) zero w h = refl
window_at-set (x ∷ ws) (suc i) w h = window_at-set ws i w (omega arith)

tell-cleared :
    (p : String) (i : ℕ) (ws : List Window)
    → i < length ws
    → (window_at (tell p i ws).0 i).dropped ≡ 0
unfolding tell
tell-cleared p i ws h =
    ground (arith, window_at-set ws i (record (window_at ws i) { dropped = 0 }) h)

-- On a sound limiter, a timer's call for a window that was made tells what the window dropped,
-- once, loses nothing of the others, and leaves the limiter sound.
pub flush-IsSound :
    (path : String) (i : ℕ) (l : Limiter)
    → IsSound l
    → i < length l.made
    → let (l', told) = flush path i l in
      IsSound l'
      × (pending l'.made + told_drops told ≡ pending l.made)
      × ((window_at l'.made i).dropped ≡ 0)
unfolding flush
flush-IsSound path i l v h =
    let one = tell-Keeps path i l.made h v.capped in
    (
      record {
        known = InRange-if _ _ path l.windows (InRange-le _ _ l.windows one.longer v.known);
        capped = one.capped;
      },
      one.balance,
      tell-cleared path i l.made h,
    )

-- A new limiter is sound, and nothing is pending in it.
pub new_limiter-IsSound :
    (now : ℕ) → IsSound (new_limiter now) × (pending (new_limiter now).made ≡ 0)
unfolding new_limiter
new_limiter-IsSound now = (record { known = tt; capped = tt }, refl)
