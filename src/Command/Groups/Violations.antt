-- ===== src/Command/Groups/Violations.antt =====
-- Exactly-one groups: their schemas, and the violations of an input.
use anfra.Prelude.{
  ℕ, ◌+◌, String, ◌≡◌, refl, ap, ◌∙◌, ◌↔◌, inl, inr, true, none, some, List, [], ◌∷◌, ◌++◌, arith,
  eq_iff, if◌then◌else◌, Bool-cases, length, contains,
}
use anfra.Command.Groups.{
  schemas_of, fields_of, group_of, set_in, only_first, exactly_one, Violation,
}

fields_of-schemas_of : (fs : List String) → fields_of (schemas_of fs) ≡ some fs
unfolding fields_of schemas_of
fields_of-schemas_of [] = refl
fields_of-schemas_of (f ∷ fs) = ground (arith, fields_of-schemas_of fs, eq_iff f f)

-- A group that is not empty is read back from the schema that was written for it; an empty one is
-- not read as a group.
pub group_of-schemas_of :
    (f : String) (fs : List String)
    → (group_of (schemas_of (f ∷ fs)) ≡ some (f ∷ fs)) × (group_of (schemas_of []) ≡ none)
unfolding group_of schemas_of
group_of-schemas_of f fs = (fields_of-schemas_of (f ∷ fs), refl)

-- How many of a group's fields an object sets.
abbrev pub set_count : List String → List String → ℕ
set_count obj [] = 0
set_count obj (f ∷ fs) = (if contains obj f then 1 else 0) + set_count obj fs

length-set_in : (obj fs : List String) → length (set_in obj fs) ≡ set_count obj fs
unfolding set_in
length-set_in obj [] = refl
length-set_in obj (f ∷ fs) = ground (arith, length-set_in obj fs)

-- A violation for each field that an object sets, in order.
abbrev pub each_set : List String → List String → List Violation
each_set obj [] = []
each_set obj (f ∷ fs) =
    let rest = each_set obj fs in
    if contains obj f then record { field = f; code = "invalid" } ∷ rest else rest

only_first-set_in : (obj fs : List String) → only_first (set_in obj fs) ≡ each_set obj fs
unfolding only_first set_in
only_first-set_in obj [] = refl
only_first-set_in obj (f ∷ fs) = elim (Bool-cases (contains obj f)) [
  | inl e ↦ rw e (ap (◌∷◌ (record { field = f; code = "invalid" })) (only_first-set_in obj fs))
  | inr e ↦ rw e (only_first-set_in obj fs)
]

set_in_after :
    (obj before after : List String)
    → set_count obj before ≡ 0
    → set_in obj (before ++ after) ≡ set_in obj after
unfolding set_in
set_in_after obj [] after h = refl
set_in_after obj (f ∷ before) after h = elim (Bool-cases (contains obj f)) [
  | inl e ↦ absurd (ground (arith, h, e))
  | inr e ↦ rw e (set_in_after obj before after (ground (arith, h, e)))
]

set_in_first :
    (obj : List String) (x : String) (after : List String)
    → contains obj x ≡ true
    → set_in obj (x ∷ after) ≡ x ∷ set_in obj after
unfolding set_in
set_in_first obj x after e = rw e refl

-- Of a group's fields, the first one that an object sets has no violation, nor have those before it;
-- of those after it, each that is set has one, "invalid", in the group's order, and no other has.
pub exactly_one_others :
    (before : List String) (x : String) (after obj : List String)
    → set_count obj before ≡ 0
    → contains obj x ≡ true
    → exactly_one (before ++ x ∷ after) obj ≡ each_set obj after
unfolding exactly_one
exactly_one_others before x after obj none_before set =
    let e = set_in_after obj before (x ∷ after) none_before ∙ set_in_first obj x after set in
    rw (e, exactly_one) (only_first-set_in obj after)

-- A group that is not empty has no violation exactly when the object sets one of its fields; with
-- none set there is one alone, "required", at the group's first field.
pub exactly_one_iff :
    (f : String) (fs obj : List String)
    → ((exactly_one (f ∷ fs) obj ≡ []) ↔ (set_count obj (f ∷ fs) ≡ 1))
      × (set_count obj (f ∷ fs) ≡ 0
          → exactly_one (f ∷ fs) obj ≡ record { field = f; code = "required" } ∷ [])
unfolding exactly_one only_first
exactly_one_iff f fs obj = of_set (set_in obj (f ∷ fs)) refl
  where
    of_set :
        (l : List String)
        → set_in obj (f ∷ fs) ≡ l
        → ((exactly_one (f ∷ fs) obj ≡ []) ↔ (set_count obj (f ∷ fs) ≡ 1))
          × (set_count obj (f ∷ fs) ≡ 0
              → exactly_one (f ∷ fs) obj ≡ record { field = f; code = "required" } ∷ [])
    of_set [] e = ground (arith, length-set_in obj (f ∷ fs), ap length e)
    of_set (x ∷ []) e = ground (arith, length-set_in obj (f ∷ fs), ap length e)
    of_set (x ∷ y ∷ l) e = ground (arith, length-set_in obj (f ∷ fs), ap length e)
