-- ===== src/Update/Progress.antt =====
-- internal/update/update.go: `humanBytes`, and the progress line's redraws.
pub mod Units
use anfra.Prelude.{
  ℕ, zero, suc, ◌+◌, ◌-◌, ◌*◌, ◌/◌, ◌^◌, Bool, true, not, ◌&&◌, Option, none, some, List, ◌∷◌, ltb,
  leb, ◌==◌, if◌then◌else◌,
}

-- The loop of `humanBytes`, on fuel: the divisor and the unit's index for `x = n / unit`.
units : ℕ → ℕ → ℕ → ℕ → ℕ × ℕ
units zero x div exp = (div, exp)
units (suc fuel) x div exp =
    let rest = units fuel (x / 1024) (div * 1024) (exp + 1) in
    if leb 1024 x then rest else (div, exp)

-- The divisor and the index into "KMGTPE" for a size of at least a unit. An int64 is below
-- 2 ^ 63, so six rounds are enough.
pub scale : ℕ → ℕ × ℕ
unfolding units
scale n = units 6 (n / 1024) 1024 0

pub record Reader : Type 0 where
  -- the total, none if the server sent no length
  pub total : Option ℕ
  pub read : ℕ
  pub last_pct : ℕ
  pub last_n : ℕ
  pub done : Bool
  -- the lines drawn, by the bytes read at each, the last first
  pub drawn : List ℕ

render : Reader → Reader
render p = record p { drawn = p.read ∷ p.drawn }

-- `maybeRender`; a total that is zero counts as unknown.
maybe_render : Reader → Reader
unfolding render
maybe_render p = elim p.total [
  | none ↦ if leb (2 ^ 20) (p.read - p.last_n) then render (record p { last_n = p.read }) else p
  | some zero ↦
      if leb (2 ^ 20) (p.read - p.last_n) then render (record p { last_n = p.read }) else p
  | some (suc t) ↦
      if p.read * 100 / suc t == p.last_pct
      then p
      else render (record p { last_pct = p.read * 100 / suc t })
]

-- `Read` of `n` bytes, and whether the stream ended.
pub read_bytes : ℕ → Bool → Reader → Reader
unfolding maybe_render render
read_bytes n eof p =
    let p1 = if ltb 0 n then maybe_render (record p { read = p.read + n }) else p in
    if eof && not p1.done then render (record p1 { done = true }) else p1
