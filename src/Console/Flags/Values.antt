-- ===== src/Console/Flags/Values.antt =====
-- The flags of a session after one is set.
use anfra.Prelude.{
  String, ◌≡◌, refl, ◌∙◌, ◌⊎◌, inl, inr, Bool, true, false, ◌&&◌, none, some, List, [], ◌∷◌, ◌++◌,
  arith, str_eq, eq_iff, eq_refl, if◌then◌else◌, Bool-cases, if_cases, contains,
}
use anfra.Console.Flags.{SessionFlag, flag_of, alternative_flags, dropped, sets, apart, assign}

-- Every flag is set once.
unfoldable pub Distinct : List SessionFlag → Type 0
Distinct [] = Unit {0}
Distinct (f ∷ fs) = (flag_of f.name fs ≡ none) × Distinct fs

-- Every flag is set once, and no two formats are set.
pub record IsSettled (fs : List SessionFlag) : Type 0 where
  pub distinct : Distinct fs
  pub one_format : (flag_of "json" fs ≡ none) ⊎ (flag_of "yaml" fs ≡ none)

contains_eq :
    (names : List String) (a b : String) → str_eq a b ≡ true → contains names a ≡ contains names b
contains_eq names a b h = rw ((eq_iff a b).0 h) refl

flag_of-dropped :
    (names : List String) (n : String) (fs : List SessionFlag)
    → flag_of n (dropped names fs) ≡ (if contains names n then none else flag_of n fs)
unfolding flag_of dropped
flag_of-dropped names n [] = ground arith
flag_of-dropped names n (f ∷ fs) =
    ground (arith, flag_of-dropped names n fs, contains_eq names f.name n)

flag_of-append :
    (n : String) (fs : List SessionFlag) (g : SessionFlag)
    → flag_of n (fs ++ g ∷ []) ≡ elim (flag_of n fs) [
      | none ↦ if str_eq g.name n then some g.value else none
      | some v ↦ some v
    ]
unfolding flag_of
flag_of-append n [] g = refl
flag_of-append n (f ∷ fs) g = ground (arith, flag_of-append n fs g)

pub Distinct-dropped :
    (names : List String) (fs : List SessionFlag) → Distinct fs → Distinct (dropped names fs)
unfolding Distinct dropped
Distinct-dropped names [] h = tt
Distinct-dropped names (f ∷ fs) (p, h) =
    if_cases Distinct (contains names f.name) (dropped names fs) (f ∷ dropped names fs)
      (λ _. Distinct-dropped names fs h)
      (λ c. (rw (flag_of-dropped names f.name fs, c) p, Distinct-dropped names fs h))

str_eq_flip : (a b : String) → str_eq a b ≡ true → str_eq b a ≡ true
str_eq_flip a b h = rw ((eq_iff a b).0 h) (eq_refl b)

flag_tail :
    (f : SessionFlag) (fs : List SessionFlag) (n : String)
    → flag_of n (f ∷ fs) ≡ none
    → (str_eq f.name n ≡ false) × (flag_of n fs ≡ none)
unfolding flag_of
flag_tail f fs n e = elim (Bool-cases (str_eq f.name n)) [
  | inl h ↦ absurd (ground (arith, e, h))
  | inr h ↦ (h, rw h at e)
]

str_ne_flip : (a b : String) → str_eq a b ≡ false → str_eq b a ≡ false
str_ne_flip a b h = elim (Bool-cases (str_eq b a)) [
  | inl e ↦ absurd (ground (arith, h, str_eq_flip b a e))
  | inr e ↦ e
]

flag_end :
    (f g : SessionFlag) (fs : List SessionFlag)
    → flag_of f.name fs ≡ none
    → str_eq f.name g.name ≡ false
    → flag_of f.name (fs ++ g ∷ []) ≡ none
flag_end f g fs p apart =
    flag_of-append f.name fs g ∙ ground (arith, p, str_ne_flip f.name g.name apart)

pub Distinct-append :
    (fs : List SessionFlag) (g : SessionFlag)
    → Distinct fs
    → flag_of g.name fs ≡ none
    → Distinct (fs ++ g ∷ [])
unfolding Distinct
Distinct-append [] g h e = (unfold flag_of in refl, tt)
Distinct-append (f ∷ fs) g (p, h) e =
    let (apart, rest) = flag_tail f fs g.name e in
    (flag_end f g fs p apart, Distinct-append fs g h rest)

pub flag_of-others :
    (name n : String) (fs : List SessionFlag)
    → flag_of n (dropped (name ∷ []) fs) ≡ (if str_eq name n then none else flag_of n fs)
flag_of-others name n fs = flag_of-dropped (name ∷ []) n fs ∙ ground arith

pub flag_of-apart :
    (name n : String) (fs : List SessionFlag)
    → flag_of n (apart name fs) ≡ (
        if contains alternative_flags name && contains alternative_flags n
        then none
        else flag_of n fs)
unfolding apart
flag_of-apart name n fs = elim (Bool-cases (contains alternative_flags name)) [
  | inl h ↦ rw h (flag_of-dropped alternative_flags n fs)
  | inr h ↦ rw h refl
]

-- A flag set is the value it was set to, a boolean's true empty; one unset is none. The other format
-- is unset with a format that is set, and any other flag is as it was.
pub flag_of-assign :
    (name : String) (is_bool : Bool) (value n : String) (fs : List SessionFlag)
    → flag_of n (assign name is_bool value fs) ≡ (
        if str_eq name n
        then (if sets is_bool value
            then some (if is_bool && str_eq value "true" then "" else value)
            else none)
        else if sets is_bool value
            && (contains alternative_flags name && contains alternative_flags n)
        then none
        else flag_of n fs)
unfolding assign
flag_of-assign name is_bool value n fs =
    let others = dropped (name ∷ []) fs in
    let shown = if is_bool && str_eq value "true" then "" else value in
    let g : SessionFlag = record { name = name; value = shown } in
    elim (Bool-cases (sets is_bool value)) [
      | inl h ↦ rw h (
          rw
            (
              flag_of-append n (apart name others) g,
              flag_of-apart name n others,
              flag_of-others name n fs,
            )
            (ground arith))
      | inr h ↦ rw h (flag_of-others name n fs ∙ ground arith)
    ]
