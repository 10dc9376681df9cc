-- ===== src/Appstep/Redaction.antt =====
-- shared/appstep/appstep.go: what reaches the log form of a step.
use anfra.Prelude.{
  String, ◌≡◌, refl, ap, inl, inr, false, List, [], ◌∷◌, map, Bool-cases, contains, cat,
}
use mathlib.Core.Path.{ap₂}
use anfra.Appstep.{StepDefinition, Param, logged_value, step_string, show_params}

-- Two parameter lists with the same keys, that agree on every key that is not sensitive.
abbrev pub Agree : List String → List Param → List Param → Type 0
Agree sensitive [] [] = Unit
Agree sensitive [] (_ ∷ _) = ⊥
Agree sensitive (_ ∷ _) [] = ⊥
Agree sensitive (p ∷ ps) (q ∷ qs) =
    (p.key ≡ q.key) × (contains sensitive p.key ≡ false → p.value ≡ q.value) × Agree sensitive ps qs

abbrev logged_all : List String → List Param → List Param
logged_all sensitive = map (λ (p : Param). record { key = p.key; value = logged_value sensitive p })

logged_value-Agree :
    (s : List String) (p q : Param)
    → p.key ≡ q.key
    → (contains s p.key ≡ false → p.value ≡ q.value)
    → logged_value s p ≡ logged_value s q
unfolding logged_value
logged_value-Agree s p q k v = elim (Bool-cases (contains s p.key)) [
  | inl hidden ↦ rw (hidden, ← k) (rw hidden refl)
  | inr shown ↦ rw (shown, ← k) (rw shown (v shown))
]

abbrev shown_as : List String → Param → Param
shown_as s p = record { key = p.key; value = logged_value s p }

shown_as-Agree :
    (s : List String) (p q : Param)
    → p.key ≡ q.key
    → (contains s p.key ≡ false → p.value ≡ q.value)
    → shown_as s p ≡ shown_as s q
shown_as-Agree s p q k v = λ i. record { key = k i; value = logged_value-Agree s p q k v i }

logged_all-Agree :
    (sensitive : List String) (ps qs : List Param)
    → Agree sensitive ps qs
    → logged_all sensitive ps ≡ logged_all sensitive qs
unfolding logged_value
logged_all-Agree s [] [] a = refl
logged_all-Agree s [] (q ∷ qs) a = absurd a
logged_all-Agree s (p ∷ ps) [] a = absurd a
logged_all-Agree s (p ∷ ps) (q ∷ qs) (k, v, a) =
    ap₂ (λ (x : Param) xs. x ∷ xs) (shown_as-Agree s p q k v) (logged_all-Agree s ps qs a)

-- Two occurrences of a step that differ only in the values of its sensitive parameters have the
-- same log form: the values do not reach it.
pub step_string-Agree :
    (def : StepDefinition) (ps qs : List Param)
    → Agree def.sensitive ps qs
    → step_string (record { def = def; params = ps })
      ≡ step_string (record { def = def; params = qs })
unfolding step_string
step_string-Agree def [] [] a = refl
step_string-Agree def (p ∷ ps) (q ∷ qs) a =
    ap (λ l. cat def.name (cat "(" (cat (show_params l) ")")))
      (logged_all-Agree def.sensitive (p ∷ ps) (q ∷ qs) a)
step_string-Agree def [] (q ∷ qs) a = absurd a
step_string-Agree def (p ∷ ps) [] a = absurd a
