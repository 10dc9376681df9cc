-- ===== src/Appstep/Describing.antt =====
-- shared/appstep/appstep.go: how a step describes itself to a user.
use anfra.Prelude.{
  String, ◌≡◌, refl, ap, ◌≢◌, inl, inr, some, List, [], ◌∷◌, map, arith, eq_iff, Option-cases, All,
}
use anfra.Appstep.{
  Param, Step, Piece, lit, hole, template_pieces, value_of, fill, Description, describe,
}

-- The keys that a template names, in its order.
abbrev pub holes : List Piece → List String
holes [] = []
holes (lit _ ∷ ps) = holes ps
holes (hole k ∷ ps) = k ∷ holes ps

abbrev keys : List Param → List String
keys = map (λ (p : Param). p.key)

fill-keys :
    (ps : List Param) (pieces : List Piece) {text : String} {used : List Param}
    → fill ps pieces ≡ some (text, used)
    → (keys used ≡ holes pieces) × All (λ (p : Param). value_of p.key ps ≡ some p.value) used
unfolding fill
fill-keys ps [] {text} {used} e = let same : used ≡ [] = ground arith in rw same (refl, tt)
fill-keys ps (lit t ∷ rest) {text} {used} e = elim (Option-cases (fill ps rest)) [
  | inl m ↦ absurd (ground arith)
  | inr ((t', u'), f) ↦ let same : used ≡ u' = ground arith in rw same (fill-keys ps rest f)
]
fill-keys ps (hole k ∷ rest) {text} {used} e = elim (Option-cases (value_of k ps)) [
  | inl missing ↦ absurd (ground arith)
  | inr (v, found) ↦ elim (Option-cases (fill ps rest)) [
    | inl m ↦ absurd (ground arith)
    | inr ((t', u'), f) ↦
        let same : used ≡ record { key = k; value = v } ∷ u' = ground arith in
        let (ks, vs) = fill-keys ps rest f in rw same (ap (λ l. k ∷ l) ks, (found, vs))
  ]
]

-- A description is never half filled: it names the value of each placeholder of the template, in
-- order, as the step's own parameters give it, and the template is not empty.
pub describe-keys :
    (s : Step) (d : Description)
    → describe s ≡ some d
    → (map (λ (p : Param). p.key) d.params ≡ holes (template_pieces s.def.template))
      × All (λ (p : Param). value_of p.key s.params ≡ some p.value) d.params
      × (s.def.template ≢ "")
unfolding describe
describe-keys s d e = elim (Option-cases (fill s.params (template_pieces s.def.template))) [
  | inl m ↦ absurd (ground arith)
  | inr ((text, used), f) ↦
      let same : d.params ≡ used = ground arith in
      let (ks, vs) = fill-keys s.params (template_pieces s.def.template) f in
      rw same (ks, vs, ground (arith, eq_iff s.def.template ""))
]
