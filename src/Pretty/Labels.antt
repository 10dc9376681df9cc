-- ===== src/Pretty/Labels.antt =====
-- Where values align (`runLabelWidths` of internal/pretty/pretty.go): within a run of key/value
-- lines, under its longest label.
use anfra.Prelude.{
  ℕ, zero, suc, ◌+◌, ◌≤◌, ◌<◌, String, ◌≡◌, refl, sym, ap, inl, inr, Bool, true, false, Option,
  none, some, List, [], ◌∷◌, ◌++◌, arith, if◌then◌else◌, Bool-cases,
}
use Prim.Native.Nat.{max}
use anfra.Pretty.{Value, Entries, no_entry, entry, Terminal}
use mathlib.Core.Option

-- `keyValue`
unfoldable pub key_value : Value → Bool
key_value (Value.text _) = true
key_value (Value.lines _) = true
key_value _ = false

-- `hasRows`
unfoldable pub has_rows : Value → Bool
has_rows (Value.listed _ _) = true
has_rows (Value.rows _ _) = true
has_rows (Value.block _) = true
has_rows _ = false

abbrev pub count : Entries → ℕ
count no_entry = 0
count (entry l v es) = suc (count es)

replicate {ℓ} : {A : Type ℓ} → ℕ → A → List A
replicate zero a = []
replicate (suc n) a = a ∷ replicate n a

-- The inner loop: the run's length, its width and the entries after it.
run_count : Entries → ℕ
unfolding key_value
run_count no_entry = 0
run_count (entry l v es) = if key_value v then suc (run_count es) else 0

run_width : Terminal → Entries → ℕ
unfolding key_value
run_width t no_entry = 0
run_width t (entry l v es) = if key_value v then max (t.columns l + 1) (run_width t es) else 0

run_rest : Entries → Entries
unfolding key_value
run_rest no_entry = no_entry
run_rest (entry l v es) = if key_value v then run_rest es else entry l v es

-- The outer loop, with fuel; none is out of fuel.
widths_from : ℕ → Terminal → Entries → Option (List ℕ)
widths_from zero t es = none
widths_from (suc n) t no_entry = some []
widths_from (suc n) t (entry l v es) =
    let run = entry l v es in
    let skipped = Option.map (◌∷◌ 0) (widths_from n t es) in
    let aligned =
      Option.map (λ ws. replicate (run_count run) (run_width t run) ++ ws)
        (widths_from n t (run_rest run)) in
    if key_value v then aligned else skipped

unfoldable pub run_label_widths : Terminal → Entries → Option (List ℕ)
unfolding widths_from run_count run_width run_rest replicate key_value
run_label_widths t es = widths_from (suc (count es)) t es

-- The specification, in one pass: a key/value entry has the width of the longest label, and its
-- colon, of the run before it (`before`), its own and the run after it; any other entry has none and
-- ends the run.
unfoldable pub run_widths : Terminal → ℕ → Entries → List ℕ
unfolding key_value run_width
run_widths t before no_entry = []
run_widths t before (entry l v es) =
    let here = max before (t.columns l + 1) in
    let within = max here (run_width t es) ∷ run_widths t here es in
    let outside = 0 ∷ run_widths t 0 es in if key_value v then within else outside

count-run_rest : (es : Entries) → count (run_rest es) ≤ count es
unfolding run_rest
count-run_rest no_entry = omega arith
count-run_rest (entry l v es) = ground (arith, count-run_rest es)

run_widths_run :
    (t : Terminal) (before : ℕ) (es : Entries)
    → run_widths t before es
      ≡ replicate (run_count es) (max before (run_width t es)) ++ run_widths t 0 (run_rest es)
unfolding run_widths run_count run_width run_rest replicate
run_widths_run t before no_entry = refl
run_widths_run t before (entry l v es) = elim (Bool-cases (key_value v)) [
  | inl h ↦ rw h (ground (arith, run_widths_run t (max before (t.columns l + 1)) es))
  | inr h ↦ rw h (rw h refl)
]

run_rest_step :
    (l : String) (v : Value) (es : Entries)
    → key_value v ≡ true
    → run_rest (entry l v es) ≡ run_rest es
unfolding run_rest
run_rest_step l v es k = rw k refl

run_widths_step :
    (t : Terminal) (l : String) (v : Value) (es : Entries)
    → replicate (run_count (entry l v es)) (run_width t (entry l v es))
        ++ run_widths t 0 (run_rest (entry l v es))
      ≡ run_widths t 0 (entry l v es)
run_widths_step t l v es =
    let whole = run_widths_run t 0 (entry l v es) in
    let widest : max 0 (run_width t (entry l v es)) ≡ run_width t (entry l v es) = omega arith in
    sym (rw widest at whole)

widths_from_total :
    (n : ℕ) (t : Terminal) (es : Entries)
    → count es < n
    → widths_from n t es ≡ some (run_widths t 0 es)
unfolding widths_from
widths_from_total zero t es h = absurd (omega arith)
widths_from_total (suc n) t no_entry h = unfold run_widths in refl
widths_from_total (suc n) t (entry l v es) h = elim (Bool-cases (key_value v)) [
  | inl k ↦
      rw
        (
          k,
          widths_from_total n t (run_rest (entry l v es))
              (rw (run_rest_step l v es k) (omega (arith, count-run_rest es))),
        )
        (ap some (run_widths_step t l v es))
  | inr k ↦ rw (k, widths_from_total n t es (omega arith)) (unfold run_widths in rw k refl)
]

-- The loops over the entries end, and give each key/value entry the width of the longest label, and
-- its colon, among the key/value entries next to it on both sides, and any other entry none.
pub run_label_widths_total :
    (t : Terminal) (es : Entries) → run_label_widths t es ≡ some (run_widths t 0 es)
unfolding run_label_widths
run_label_widths_total t es = widths_from_total (suc (count es)) t es (omega arith)
