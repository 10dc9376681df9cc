-- ===== src/Console/Flags/Kept.antt =====
-- What setting flags keeps of a session's flags.
use anfra.Prelude.{
  ℕ, String, ◌≡◌, refl, ◌∙◌, ◌⊎◌, inl, inr, Bool, true, false, ◌&&◌, Option, none, some, List, [],
  ◌∷◌, ◌++◌, arith, str_eq, eq_iff, eq_refl, if◌then◌else◌, Bool-cases, if_cases, contains, Result,
  ok, err,
}
use anfra.Console.Flags.{
  SessionFlag, flag_of, alternative_flags, dropped, sets, apart, assign, set_flags, Refusal,
  set_tokens, apply_flag, Catalog, ModeCommand, Session, given_by_mode, split_args, next_flag,
  read_token, settle, same_words, switched, not_switched, last_flag, set_words,
}
use anfra.Console.Flags.Values.{
  Distinct, IsSettled, Distinct-dropped, Distinct-append, flag_of-others, flag_of-apart,
  flag_of-assign,
}

assign-Distinct :
    (name : String) (is_bool : Bool) (value : String) (fs : List SessionFlag)
    → Distinct fs
    → Distinct (assign name is_bool value fs)
unfolding assign apart
assign-Distinct name is_bool value fs h =
    let others = dropped (name ∷ []) fs in
    let shown = if is_bool && str_eq value "true" then "" else value in
    let g : SessionFlag = record { name = name; value = shown } in
    let without = Distinct-dropped (name ∷ []) fs h in
    let alone =
      if_cases Distinct (contains alternative_flags name) (dropped alternative_flags others) others
        (λ _. Distinct-dropped alternative_flags others without) (λ _. without) in
    let unset : flag_of name (apart name others) ≡ none =
      flag_of-apart name name others
      ∙ rw (flag_of-others name name fs, eq_refl name) (ground arith) in
    if_cases Distinct (sets is_bool value) (apart name others ++ g ∷ []) others
      (λ _. Distinct-append (apart name others) g alone unset) (λ _. without)

abbrev OneFormat : List SessionFlag → Type 0
OneFormat fs = (flag_of "json" fs ≡ none) ⊎ (flag_of "yaml" fs ≡ none)

-- Of a flag that is not the one set, and of the other format where a format is set.
assign_other :
    (name : String) (is_bool : Bool) (value n : String) (fs : List SessionFlag)
    → str_eq name n ≡ false
    → flag_of n fs ≡ none
    → flag_of n (assign name is_bool value fs) ≡ none
assign_other name is_bool value n fs h e =
    flag_of-assign name is_bool value n fs ∙ rw (h, e) (ground arith)

assign_alternative :
    (name : String) (is_bool : Bool) (value n : String) (fs : List SessionFlag)
    → str_eq name n ≡ false
    → contains alternative_flags name ≡ true
    → contains alternative_flags n ≡ true
    → sets is_bool value ≡ true
    → flag_of n (assign name is_bool value fs) ≡ none
assign_alternative name is_bool value n fs h c d s =
    flag_of-assign name is_bool value n fs ∙ rw (h, c, d, s) refl

assign_unset :
    (name : String) (is_bool : Bool) (value : String) (fs : List SessionFlag)
    → sets is_bool value ≡ false
    → flag_of name (assign name is_bool value fs) ≡ none
assign_unset name is_bool value fs s =
    flag_of-assign name is_bool value name fs ∙ rw (eq_refl name, s) refl

assign_json :
    (name : String) (is_bool : Bool) (value : String) (fs : List SessionFlag)
    → name ≡ "json"
    → OneFormat (assign name is_bool value fs)
assign_json name is_bool value fs e = elim (Bool-cases (sets is_bool value)) [
  | inl s ↦ inr (assign_alternative name is_bool value "yaml" fs (rw e refl) (rw e refl) refl s)
  | inr s ↦ inl (rw e (rw e at (assign_unset name is_bool value fs s)))
]

assign_yaml :
    (name : String) (is_bool : Bool) (value : String) (fs : List SessionFlag)
    → name ≡ "yaml"
    → OneFormat (assign name is_bool value fs)
assign_yaml name is_bool value fs e = elim (Bool-cases (sets is_bool value)) [
  | inl s ↦ inl (assign_alternative name is_bool value "json" fs (rw e refl) (rw e refl) refl s)
  | inr s ↦ inr (rw e (rw e at (assign_unset name is_bool value fs s)))
]

assign-OneFormat :
    (name : String) (is_bool : Bool) (value : String) (fs : List SessionFlag)
    → OneFormat fs
    → OneFormat (assign name is_bool value fs)
assign-OneFormat name is_bool value fs o = elim (Bool-cases (str_eq name "json")) [
  | inl j ↦ assign_json name is_bool value fs ((eq_iff name "json").0 j)
  | inr j ↦ elim (Bool-cases (str_eq name "yaml")) [
    | inl y ↦ assign_yaml name is_bool value fs ((eq_iff name "yaml").0 y)
    | inr y ↦ elim o [
      | inl e ↦ inl (assign_other name is_bool value "json" fs j e)
      | inr e ↦ inr (assign_other name is_bool value "yaml" fs y e)
    ]
  ]
]

apply_flag-IsSettled :
    (m : Option ModeCommand) (name : String) (is_bool : Bool) (value : String) (s : Session)
    → IsSettled s.flags
    → IsSettled (apply_flag m name is_bool value s).flags
unfolding apply_flag
apply_flag-IsSettled m name is_bool value s h = elim (Bool-cases (given_by_mode m name)) [
  | inl g ↦ rw g h
  | inr g ↦ rw g (record {
    distinct = assign-Distinct name is_bool value s.flags h.distinct;
    one_format = assign-OneFormat name is_bool value s.flags h.one_format;
  })
]

-- What a loop over tokens ends with, where it is not refused.
abbrev EndsSettled : Result Refusal Session → Type 0
EndsSettled (err e) = Unit {0}
EndsSettled (ok s) = IsSettled s.flags

last_flag-IsSettled :
    (m : Option ModeCommand) (s : Session) (r : Result Refusal (String × Bool × Option String))
    → IsSettled s.flags
    → EndsSettled (last_flag m s r)
unfolding last_flag
last_flag-IsSettled m s (err e) h = tt
last_flag-IsSettled m s (ok (name, is_bool, some v)) h = apply_flag-IsSettled m name is_bool v s h
last_flag-IsSettled m s (ok (name, true, none)) h = apply_flag-IsSettled m name true "true" s h
last_flag-IsSettled m s (ok (name, false, none)) h = tt

abbrev Keeps : (Session → Result Refusal Session) → Type 0
Keeps go = (s : Session) → IsSettled s.flags → EndsSettled (go s)

next_flag-IsSettled :
    (m : Option ModeCommand) (s : Session) (arg : String)
    (from_arg past_arg : Session → Result Refusal Session)
    (r : Result Refusal (String × Bool × Option String))
    → Keeps from_arg
    → Keeps past_arg
    → IsSettled s.flags
    → EndsSettled (next_flag m s arg from_arg past_arg r)
unfolding next_flag
next_flag-IsSettled m s arg from_arg past_arg (err e) f p h = tt
next_flag-IsSettled m s arg from_arg past_arg (ok (name, is_bool, some v)) f p h =
    f _ (apply_flag-IsSettled m name is_bool v s h)
next_flag-IsSettled m s arg from_arg past_arg (ok (name, true, none)) f p h =
    f _ (apply_flag-IsSettled m name true "true" s h)
next_flag-IsSettled m s arg from_arg past_arg (ok (name, false, none)) f p h =
    p _ (apply_flag-IsSettled m name false arg s h)

set_tokens-IsSettled :
    (known : Catalog) (m : Option ModeCommand) (tokens : List String)
    → Keeps (set_tokens known m tokens)
unfolding set_tokens
set_tokens-IsSettled known m [] s h = h
set_tokens-IsSettled known m (tok ∷ []) s h = last_flag-IsSettled m s (read_token known m tok) h
set_tokens-IsSettled known m (tok ∷ arg ∷ rest) s h =
    next_flag-IsSettled m s arg (set_tokens known m (arg ∷ rest)) (set_tokens known m rest)
      (read_token known m tok) (set_tokens-IsSettled known m (arg ∷ rest))
      (set_tokens-IsSettled known m rest) h

-- The flags are settled, and a line that is refused has changed nothing, or the flags alone.
abbrev SetOrSame : Session → Session × Option Refusal → Type 0
SetOrSame s r =
    IsSettled r.0.flags
    × ((r.1 ≡ none)
        ⊎ (r.0 ≡ s)
        ⊎ ((why : String) × (r.1 ≡ some (not_switched why)) × (r.0.mode ≡ s.mode)))

switched-IsSettled :
    (s s' : Session) (same : Bool) (why : Option String)
    → IsSettled s'.flags
    → SetOrSame s (switched s s' same why)
unfolding switched
switched-IsSettled s s' true why k = (k, inl refl)
switched-IsSettled s s' false none k = (k, inl refl)
switched-IsSettled s s' false (some why) k = (k, inr (inr (why, refl, refl)))

settle-IsSettled :
    (switches : List String → Option String) (s : Session) (r : Result Refusal Session)
    → IsSettled s.flags
    → EndsSettled r
    → SetOrSame s (settle switches s r)
unfolding settle
settle-IsSettled switches s (err e) h k = (h, inr (inl refl))
settle-IsSettled switches s (ok s') h k =
    switched-IsSettled s s' (same_words s'.mode s.mode) (switches s'.mode) k

set_words-IsSettled :
    (known : Catalog) (m : Option ModeCommand) (switches : List String → Option String)
    (s : Session) (words : Result ℕ (List String))
    → IsSettled s.flags
    → SetOrSame s (set_words known m switches s words)
unfolding set_words
set_words-IsSettled known m switches s (err q) h = (h, inr (inl refl))
set_words-IsSettled known m switches s (ok tokens) h =
    settle-IsSettled switches s (set_tokens known m tokens s) h
      (set_tokens-IsSettled known m tokens s h)

-- Whatever line of flags a session is given, each of its flags is set once and no two formats are
-- set, if that was so before. A line that is refused changes nothing, but for one whose flags are all
-- good and whose changed mode is not taken, which leaves the mode as it was.
pub set_flags-IsSettled :
    (known : Catalog) (m : Option ModeCommand) (switches : List String → Option String)
    (line : String) (s : Session)
    → IsSettled s.flags
    → IsSettled (set_flags known m switches line s).0.flags
      × (((set_flags known m switches line s).1 ≡ none)
          ⊎ ((set_flags known m switches line s).0 ≡ s)
          ⊎ ((why : String) × ((set_flags known m switches line s).1 ≡ some (not_switched why))
              × ((set_flags known m switches line s).0.mode ≡ s.mode)))
unfolding set_flags
set_flags-IsSettled known m switches line s h =
    set_words-IsSettled known m switches s (split_args line) h
