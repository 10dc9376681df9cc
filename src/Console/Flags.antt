-- ===== src/Console/Flags.antt =====
-- The flags set for a console's session (`setFlags` and `withoutFlag` of
-- cmd/anfra/console_session.go). The commands' flags, which cobra holds, are parameters.
use anfra.Prelude.{
  ℕ, String, Bool, true, false, not, ◌&&◌, ◌||◌, Option, none, some, List, [], ◌∷◌, ◌++◌, str_eq,
  ◌==◌, if◌then◌else◌, is_some, is_nil, contains, lookup, cat, has_prefix, Result, ok, err, ◌>>=◌,
  ◌>>◌, require,
}
use Prim.Native.Char.{Char, code}
use Prim.Native.String
use anfra.Console.{split_args}
pub mod Values
pub mod Kept

pub record SessionFlag : Type 0 where
  pub name : String
  -- empty for a boolean's true
  pub value : String

-- `flagCatalog`: a long name's flag, whether it is a boolean, and a letter's long names.
pub record Catalog : Type 0 where
  pub flag : String → Option Bool
  pub longs : String → List String

-- The mode's command, its flags parsed: whether it has a flag, and whether the mode gives it; a
-- letter's long name, and a flag's letter, empty for none.
pub record ModeCommand : Type 0 where
  pub lookup : String → Option Bool
  pub long_of : String → Option String
  pub letter_of : String → String

pub record Session : Type 0 where
  pub mode : List String
  pub flags : List SessionFlag

-- `flag`: the session's value of a flag, none when it isn't set.
unfoldable pub flag_of : String → List SessionFlag → Option String
flag_of name [] = none
flag_of name (f ∷ fs) =
    let rest = flag_of name fs in if str_eq f.name name then some f.value else rest

-- Why a line of flags is refused.
pub data Refusal : Type 0 where
  unclosed : ℕ → Refusal
  no_flag ambiguous unknown unsettable needs_value : String → Refusal
  -- The mode with its flag changed, which `switchMode` doesn't take, and its reason.
  not_switched : String → Refusal

trim_dashes : String → String
trim_dashes String.[] = ""
trim_dashes (String.◌∷◌ c s) =
    let rest = trim_dashes s in if code c == b'-' then rest else String.◌∷◌ c s

-- `strings.Cut(s, "=")`
cut_equals : String → String × Option String
cut_equals String.[] = ("", none)
cut_equals (String.◌∷◌ c s) =
    let (name, value) = cut_equals s in
    if code c == b'=' then ("", some s) else (String.◌∷◌ c name, value)

-- `strings.ReplaceAll(s, "_", "-")`
dashed : String → String
dashed String.[] = ""
dashed (String.◌∷◌ c s) = String.◌∷◌ (if code c == b'_' then "-" else c) (dashed s)

abbrev pub not_session_flags : List String
not_session_flags = "help" ∷ "version" ∷ "schema" ∷ []

abbrev pub alternative_flags : List String
alternative_flags = "json" ∷ "yaml" ∷ []

long_name : Catalog → Option ModeCommand → String → String → Result Refusal String
long_name known m tok name =
    let by_catalog : Result Refusal String = elim (known.longs name) [
      | [] ↦ err (unknown name)
      | long ∷ more ↦ if is_nil more then ok long else err (ambiguous name)
    ] in
    let by_mode : Option ModeCommand → Result Refusal String = λ o. elim o [
      | none ↦ by_catalog
      | some c ↦ elim (c.long_of name) [ none ↦ err (unknown name) | some long ↦ ok long ]
    ] in
    if not (has_prefix tok "-") || str_eq name ""
    then err (no_flag tok)
    else if has_prefix tok "--"
    then ok name
    else by_mode m

mode_takes : Option ModeCommand → String → Bool
mode_takes none name = true
mode_takes (some c) name = is_some (c.lookup name) && not (contains not_session_flags name)

-- The flag a token names, whether it is a boolean, and the value the token gives.
pub read_token :
    Catalog → Option ModeCommand → String → Result Refusal (String × Bool × Option String)
unfolding long_name trim_dashes cut_equals dashed mode_takes
read_token known m tok =
    let (written, value) = cut_equals (trim_dashes tok) in
    long_name known m tok (dashed written) >>= λ name.
    require (mode_takes m name) (unknown name)
    >> (require (not (contains not_session_flags name)) (unsettable name)
        >> (elim (known.flag name) [
          | none ↦ err (unsettable name)
          | some is_bool ↦ ok (name, is_bool, value)
        ]))

-- `slices.DeleteFunc` on the flags, by their names
pub dropped : List String → List SessionFlag → List SessionFlag
dropped names [] = []
dropped names (f ∷ fs) =
    let rest = dropped names fs in if contains names f.name then rest else f ∷ rest

-- `withoutFlag`
pub without_flag : List String → String → String → Bool → List String
without_flag [] name letter takes_value = []
without_flag (a ∷ []) name letter takes_value =
    if (str_eq a (cat "--" name) || (not (str_eq letter "") && str_eq a (cat "-" letter)))
      || (has_prefix a (cat (cat "--" name) "=")
          || (not (str_eq letter "") && (has_prefix a (cat "-" letter) && not (has_prefix a "--"))))
    then []
    else a ∷ []
without_flag (a ∷ b ∷ rest) name letter takes_value =
    let kept = a ∷ without_flag (b ∷ rest) name letter takes_value in
    let skipped = without_flag (b ∷ rest) name letter takes_value in
    let past_value = without_flag rest name letter takes_value in
    if str_eq a (cat "--" name) || (not (str_eq letter "") && str_eq a (cat "-" letter))
    then (if takes_value then past_value else skipped)
    else if has_prefix a (cat (cat "--" name) "=")
        || (not (str_eq letter "") && (has_prefix a (cat "-" letter) && not (has_prefix a "--")))
    then skipped
    else kept

-- Whether a value sets a flag, rather than unset it.
pub sets : Bool → String → Bool
sets is_bool value = not (str_eq value "") && not (is_bool && str_eq value "false")

-- A format's alternatives are unset with it.
pub apart : String → List SessionFlag → List SessionFlag
unfolding dropped
apart name fs = if contains alternative_flags name then dropped alternative_flags fs else fs

-- The session's flags, one of them set or unset.
pub assign : String → Bool → String → List SessionFlag → List SessionFlag
unfolding dropped apart sets
assign name is_bool value fs =
    let others = dropped (name ∷ []) fs in
    let alone = apart name others in
    let shown = if is_bool && str_eq value "true" then "" else value in
    if sets is_bool value then alone ++ record { name = name; value = shown } ∷ [] else others

given_by_mode : Option ModeCommand → String → Bool
given_by_mode none name = false
given_by_mode (some c) name = elim (c.lookup name) [ none ↦ false | some changed ↦ changed ]

letter_in : Option ModeCommand → String → String
letter_in none name = ""
letter_in (some c) name = c.letter_of name

-- A flag that the mode gives is changed in the mode that is switched to at the end, any other among the
-- flags that are set at the end.
pub apply_flag : Option ModeCommand → String → Bool → String → Session → Session
unfolding assign given_by_mode letter_in without_flag sets
apply_flag m name is_bool value s =
    let left = without_flag s.mode name (letter_in m name) (not is_bool) in
    let changed = cat (cat (cat "--" name) "=") value in
    if given_by_mode m name
    then record s { mode = if sets is_bool value then left ++ changed ∷ [] else left }
    else record s { flags = assign name is_bool value s.flags }

-- A token read, with no token after it to be its value.
last_flag :
    Option ModeCommand
    → Session
    → Result Refusal (String × Bool × Option String)
    → Result Refusal Session
unfolding apply_flag
last_flag m s (err e) = err e
last_flag m s (ok (name, is_bool, some v)) = ok (apply_flag m name is_bool v s)
last_flag m s (ok (name, true, none)) = ok (apply_flag m name true "true" s)
last_flag m s (ok (name, false, none)) = err (needs_value name)

-- A token read, before `arg`: `from_arg` goes on from there and `past_arg` after it.
next_flag :
    Option ModeCommand
    → Session
    → String
    → (Session → Result Refusal Session)
    → (Session → Result Refusal Session)
    → Result Refusal (String × Bool × Option String)
    → Result Refusal Session
unfolding apply_flag
next_flag m s arg from_arg past_arg (err e) = err e
next_flag m s arg from_arg past_arg (ok (name, is_bool, some v)) =
    from_arg (apply_flag m name is_bool v s)
next_flag m s arg from_arg past_arg (ok (name, true, none)) =
    from_arg (apply_flag m name true "true" s)
next_flag m s arg from_arg past_arg (ok (name, false, none)) =
    past_arg (apply_flag m name false arg s)

-- `setFlags`' loop over its tokens: a flag that needs a value takes the next token.
set_tokens : Catalog → Option ModeCommand → List String → Session → Result Refusal Session
unfolding read_token last_flag next_flag
set_tokens known m [] s = ok s
set_tokens known m (tok ∷ []) s = last_flag m s (read_token known m tok)
set_tokens known m (tok ∷ arg ∷ rest) s =
    next_flag m s arg (set_tokens known m (arg ∷ rest)) (set_tokens known m rest)
      (read_token known m tok)

-- `slices.Equal`
same_words : List String → List String → Bool
same_words [] [] = true
same_words [] (b ∷ bs) = false
same_words (a ∷ as_) [] = false
same_words (a ∷ as_) (b ∷ bs) = str_eq a b && same_words as_ bs

-- The session and what it becomes, whether their modes are the same, and why its mode is not taken.
switched : Session → Session → Bool → Option String → Session × Option Refusal
switched s s' true why = (s', none)
switched s s' false none = (s', none)
switched s s' false (some why) = (record s { flags = s'.flags }, some (not_switched why))

-- What the session becomes once its tokens are read: as it was where one is refused. Otherwise its
-- flags are set, and then a mode that has changed is switched to; where `switchMode` doesn't take it,
-- for the reason that `switches` gives, the mode stays and the flags are still set.
settle : (List String → Option String) → Session → Result Refusal Session → Session × Option Refusal
unfolding same_words switched
settle switches s (err e) = (s, some e)
settle switches s (ok s') = switched s s' (same_words s'.mode s.mode) (switches s'.mode)

set_words :
    Catalog
    → Option ModeCommand
    → (List String → Option String)
    → Session
    → Result ℕ (List String)
    → Session × Option Refusal
unfolding set_tokens settle
set_words known m switches s (err q) = (s, some (unclosed q))
set_words known m switches s (ok tokens) = settle switches s (set_tokens known m tokens s)

-- `setFlags` on a line that is not `--` alone: the session after it, and why it is refused if it is.
-- `switches` is cobra's answer to `switchMode`, which finds the mode's command and parses its flags:
-- why the mode is not taken, none if it is.
unfoldable pub set_flags :
    Catalog
    → Option ModeCommand
    → (List String → Option String)
    → String
    → Session
    → Session × Option Refusal
unfolding set_words
set_flags known m switches line s = set_words known m switches s (split_args line)
