-- ===== src/Appserve/Limiter/Heap.antt =====
-- The windows that a limiter has made, by their index, and what they have dropped in all.
use anfra.Prelude.{
  ℕ, zero, suc, ◌+◌, ◌≤◌, ◌<◌, ◌≡◌, refl, ap, Bool, false, List, [], ◌∷◌, ◌++◌, arith, length, All,
}

pub record Window : Type 0 where
  pub start : ℕ
  pub count : ℕ
  pub dropped : ℕ
  pub timed : Bool

-- The window at an index; an empty one where there is none.
abbrev pub window_at : List Window → ℕ → Window
window_at [] i = record { start = 0; count = 0; dropped = 0; timed = false }
window_at (w ∷ ws) zero = w
window_at (w ∷ ws) (suc i) = window_at ws i

abbrev pub set : List Window → ℕ → Window → List Window
set [] i v = []
set (w ∷ ws) zero v = v ∷ ws
set (w ∷ ws) (suc i) v = w ∷ set ws i v

-- The drops that are counted and not yet told.
abbrev pub pending : List Window → ℕ
pending [] = 0
pending (w ∷ ws) = w.dropped + pending ws

pub pending-set :
    (ws : List Window) (i : ℕ) (v : Window)
    → i < length ws
    → pending (set ws i v) + (window_at ws i).dropped ≡ pending ws + v.dropped
pending-set [] i v h = absurd (omega arith)
pending-set (w ∷ ws) zero v h = omega arith
pending-set (w ∷ ws) (suc i) v h = omega (arith, pending-set ws i v (omega arith))

pub pending-append :
    (ws : List Window) (w : Window) → pending (ws ++ w ∷ []) ≡ pending ws + w.dropped
pending-append [] w = omega arith
pending-append (x ∷ ws) w = omega (arith, pending-append ws w)

pub length-set : (ws : List Window) (i : ℕ) (v : Window) → length (set ws i v) ≡ length ws
length-set [] i v = refl
length-set (w ∷ ws) zero v = refl
length-set (w ∷ ws) (suc i) v = ap suc (length-set ws i v)

abbrev pub AllCounts : ℕ → List Window → Type 0
AllCounts n = All (λ (w : Window). w.count ≤ n)

pub AllCounts-set :
    (n : ℕ) (ws : List Window) (i : ℕ) (v : Window)
    → AllCounts n ws
    → v.count ≤ n
    → AllCounts n (set ws i v)
AllCounts-set n [] i v h k = tt
AllCounts-set n (w ∷ ws) zero v h k = (k, h.1)
AllCounts-set n (w ∷ ws) (suc i) v h k = (h.0, AllCounts-set n ws i v h.1 k)

pub AllCounts-at : (n : ℕ) (ws : List Window) (i : ℕ) → AllCounts n ws → (window_at ws i).count ≤ n
AllCounts-at n [] i h = omega arith
AllCounts-at n (w ∷ ws) zero h = h.0
AllCounts-at n (w ∷ ws) (suc i) h = AllCounts-at n ws i h.1
