-- ===== src/Routine/Backoff/Growth.antt =====
-- shared/routine/backoff.go: the size of a delay.
use Prim.Native.Nat.{◌∣◌}
use native.Mathlib.Decide.{dec_le}
use native.Mathlib.Nat.{
  pow-suc, pow-zero, mul-one, add-zero, add-suc, mul_assoc, dvd-mul_right, dvd_trans, dvd-mul_left,
  dvd-mod_iff, mod-eq-zero_of_dvd, le_of_dvd, mod-eq_of_lt, one-le-pow, pow-le-pow_right,
}
use anfra.Prelude.{
  ℕ, zero, suc, ◌+◌, ◌-◌, ◌*◌, ◌/◌, ◌%◌, ◌^◌, ◌≤◌, ◌<◌, ◌≡◌, refl, arith, ltb, if◌then◌else◌, inl,
  inr, ◌∙◌, ap, ◌⊎◌, sym,
}
use anfra.Routine.Backoff.{Backoff, base_delay, next}

pow-add : (m n : ℕ) → 2 ^ (m + n) ≡ 2 ^ m * 2 ^ n
pow-add m zero = rw (pow-zero, add-zero, mul-one) refl
pow-add m (suc n) = rw (add-suc, pow-suc, pow-suc, pow-add m n) (mul_assoc _ _ _)

pow-dvd : (m n : ℕ) → m ≤ n → 2 ^ m ∣ 2 ^ n
pow-dvd m n h = let e : n ≡ m + (n - m) = omega arith in rw (e, pow-add) (dvd-mul_right (2 ^ m) _)

-- A multiple of a power of two, cut to 64 bits, is zero or at least that power.
mod-pow : (q e : ℕ) → (q * 2 ^ e % 2 ^ 64 ≡ 0) ⊎ (2 ^ e ≤ q * 2 ^ e % 2 ^ 64)
mod-pow q e = elim (dec_le e 64) [
  | yes h ↦
      small (q * 2 ^ e % 2 ^ 64) ((dvd-mod_iff (2 ^ e) (pow-dvd e 64 h)).1 (dvd-mul_left (2 ^ e) q))
  | no h ↦ inl (
      mod-eq-zero_of_dvd (2 ^ 64)
        (dvd_trans (2 ^ 64) (pow-dvd 64 e (omega arith)) (dvd-mul_left (2 ^ e) q)))
]
  where
    small : (g : ℕ) → 2 ^ e ∣ g → (g ≡ 0) ⊎ (2 ^ e ≤ g)
    small zero d = inl refl
    small (suc g) d = inr (le_of_dvd (omega arith) d)

-- What the documentation says of the delay: `min` doubled once per attempt, capped at `max`.
abbrev pub capped : Backoff → ℕ
capped b = if ltb (b.min * 2 ^ b.attempt) b.max then b.min * 2 ^ b.attempt else b.max

le_of_scaled : (q p m : ℕ) → 0 < q → 2 ^ 63 ≤ q * p → q * m ≤ 2 ^ 63 → m ≤ p
le_of_scaled q p m h k l = elim (dec_le m p) [ yes x ↦ x | no x ↦ absurd (grind (arith)) ]

base_delay_wrapped :
    (b : Backoff)
    → (b.min * 2 ^ b.attempt % 2 ^ 64 ≡ 0) ⊎ (b.max ≤ b.min * 2 ^ b.attempt % 2 ^ 64)
    → b.max ≤ b.min * 2 ^ b.attempt
    → base_delay b ≡ capped b
unfolding base_delay
base_delay_wrapped b z h = ground arith

base_delay_small :
    (b : Backoff)
    → b.attempt < 62
    → b.min * 2 ^ b.attempt < 2 ^ 63
    → 0 < b.min * 2 ^ b.attempt
    → base_delay b ≡ capped b
unfolding base_delay
base_delay_small b a h p = ground (arith, mod-eq_of_lt {n = b.min * 2 ^ b.attempt} {m = 2 ^ 64})

base_delay_late :
    (b : Backoff) → 62 ≤ b.attempt → b.max ≤ b.min * 2 ^ b.attempt → base_delay b ≡ capped b
unfolding base_delay
base_delay_late b a h = ground arith

-- The delay before jitter is the documented one: the factor of `min` beside a power of two bounds
-- how far the shift may wrap before the product passes `max`.
pub base_delay-eq-capped :
    (b : Backoff) (q k : ℕ)
    → 0 < q
    → b.min ≡ q * 2 ^ k
    → q * b.max ≤ 2 ^ 63
    → b.max ≤ 2 ^ 62
    → base_delay b ≡ capped b
base_delay-eq-capped b q k pos e room top = elim (dec_le 62 b.attempt) [
  | yes late ↦ base_delay_late b late (omega (arith, le_of_pow))
  | no early ↦ elim (dec_le (2 ^ 63) (b.min * 2 ^ b.attempt)) [
    | yes over ↦ base_delay_wrapped b (wrapped over) (omega (arith, wide over, le_product))
    | no under ↦ base_delay_small b (omega arith) (omega arith) (
        omega (
          arith,
          le_product,
          one-le-pow b.attempt 2 (omega arith),
          one-le-pow (k + b.attempt) 2 (omega arith),
        ))
  ]
]
  where
    product : b.min * 2 ^ b.attempt ≡ q * 2 ^ (k + b.attempt)
    product = rw (e, pow-add) (mul_assoc _ _ _)

    le_product : 2 ^ (k + b.attempt) ≤ b.min * 2 ^ b.attempt
    le_product = rw product (grind arith)

    le_of_pow : 62 ≤ b.attempt → b.max ≤ b.min * 2 ^ b.attempt
    le_of_pow h = omega (
      arith,
      le_product,
      pow-le-pow_right {n = 2} (omega arith) {i = 62} {j = k + b.attempt} (omega arith),
    )

    wide : 2 ^ 63 ≤ b.min * 2 ^ b.attempt → b.max ≤ 2 ^ (k + b.attempt)
    wide h = le_of_scaled q (2 ^ (k + b.attempt)) b.max pos (rw product at h) room

    wrapped :
        2 ^ 63 ≤ b.min * 2 ^ b.attempt
        → (b.min * 2 ^ b.attempt % 2 ^ 64 ≡ 0) ⊎ (b.max ≤ b.min * 2 ^ b.attempt % 2 ^ 64)
    wrapped h =
        rw product
          (elim (mod-pow q (k + b.attempt)) [ inl z ↦ inl z | inr l ↦ inr (omega (arith, wide h)) ])

-- For a range whose minimum is a positive `q` times a power of two, with `q` times the maximum at
-- most 2 ^ 63 and the maximum at most 2 ^ 62, each delay lies between half and all of the minimum
-- doubled once per attempt before it, capped at the maximum, and the attempt is counted. The random
-- source gives values below its bound.
pub next_bounds :
    (rand : ℕ → ℕ) (b : Backoff) (q k : ℕ)
    → ((n : ℕ) → 0 < n → rand n < n)
    → 0 < q
    → b.min ≡ q * 2 ^ k
    → q * b.max ≤ 2 ^ 63
    → b.max ≤ 2 ^ 62
    → (capped b / 2 ≤ (next rand b).1)
      × ((next rand b).1 ≤ capped b)
      × ((next rand b).0.attempt ≡ b.attempt + 1)
unfolding next
next_bounds rand b q k random pos e room top =
    let same = base_delay-eq-capped b q k pos e room top in
    rw same (omega arith, omega (arith, random (capped b / 2 + 1) (omega arith)), refl)

-- At an attempt above 0 and below 62, for a minimum that is a multiple of 2 ^ (64 - attempt) and a
-- positive rest, the delay before jitter is the rest shifted by the attempt, whatever the multiple
-- is, where that is below the maximum, an int64.
pub base_delay_collapse :
    (b : Backoff) (t r : ℕ)
    → 0 < b.attempt
    → b.attempt < 62
    → b.min ≡ t * 2 ^ (64 - b.attempt) + r
    → 0 < r
    → r * 2 ^ b.attempt < b.max
    → b.max < 2 ^ 63
    → base_delay b ≡ r * 2 ^ b.attempt
unfolding base_delay
base_delay_collapse b t r low high e pos fits top =
    ground (arith, shifted, one-le-pow b.attempt 2 (omega arith), prod_pos)
  where
    whole : 2 ^ (64 - b.attempt) * 2 ^ b.attempt ≡ 2 ^ 64
    whole = sym (pow-add (64 - b.attempt) b.attempt) ∙ ap (λ n. 2 ^ n) {y = 64} (omega arith)

    split : b.min * 2 ^ b.attempt ≡ t * 2 ^ 64 + r * 2 ^ b.attempt
    split = rw e (omega (arith, ap (λ n. t * n) whole))

    shifted : b.min * 2 ^ b.attempt % 2 ^ 64 ≡ r * 2 ^ b.attempt
    shifted = rw split (omega arith)

    prod_pos : 0 < r * 2 ^ b.attempt
    prod_pos = grind (arith, one-le-pow b.attempt 2 (omega arith))
