-- ===== src/Console/Entries.antt =====
-- What an entry asks of the console, and whether it is whole (`dispatch`, `textArgs`, `ends`,
-- `terminated` and `withFlags` of cmd/anfra/console_session.go).
use anfra.Prelude.{
  ℕ, String, Bool, true, false, not, ◌&&◌, ◌||◌, Option, none, some, List, [], ◌∷◌, ◌++◌, str_eq,
  ◌==◌, if◌then◌else◌, is_nil, contains, lookup, cat, has_prefix, has_suffix, trim_prefix, Result,
  ok, err, trim_space,
}
use anfra.Console.{split_args}
use Prim.Native.Char.{Char, code}
use Prim.Native.String
use anfra.Console.Flags.{Session, SessionFlag}
pub mod Answers
pub mod Typed
pub mod Added

-- The mode's reading of its text: its language, and whether it is words or one text.
pub record Reading : Type 0 where
  pub lang : String
  pub words : Bool

-- What an entry asks for: an anfra command run, to leave, the commands listed, flags set, the mode
-- switched, or a quote that isn't closed said.
pub data Answer : Type 0 where
  run : List String → Answer
  leave help : Answer
  set_line : String → Answer
  switch : List String → Answer
  refused : ℕ → Answer

-- `strings.TrimSuffix`
pub trim_suffix : String → String → String
trim_suffix String.[] end = ""
trim_suffix (String.◌∷◌ c s) end =
    let rest = String.◌∷◌ c (trim_suffix s end) in if str_eq (String.◌∷◌ c s) end then "" else rest

-- The text that `textArgs` gives the mode's command.
unfoldable pub typed : String → String → String
unfolding trim_suffix trim_space
typed lang text =
    if str_eq lang "aql"
    then trim_suffix (trim_space text) ";;"
    else if str_eq lang "sql"
    then trim_suffix (trim_space text) ";"
    else text

in_words : List String → Result ℕ (List String) → Answer
in_words args (err q) = refused q
in_words args (ok ws) = run (args ++ ws)

-- `textArgs`
pub text_args : Session → Reading → String → Answer
unfolding typed in_words
text_args s r text =
    let args = s.mode ++ "--" ∷ [] in
    if r.words
    then in_words args (split_args (typed r.lang text))
    else run (args ++ typed r.lang text ∷ [])

-- A command's words; none is the first word of no words read.
worded : Result ℕ (List String) → Option Answer
worded (err q) = some (refused q)
worded (ok []) = none
worded (ok (a ∷ rest)) =
    if str_eq a "console" || str_eq a "c" then some (switch rest) else some (run (a ∷ rest))

commanded : Bool → String → Option Answer
unfolding worded
commanded slashed rest =
    if contains ("q" ∷ "exit" ∷ "quit" ∷ []) rest
    then some leave
    else if contains ("?" ∷ "" ∷ []) rest
    then some help
    else if slashed && has_prefix rest "-"
    then some (set_line rest)
    else worded (split_args rest)

-- `dispatch`; a session is in command mode when its mode is empty, nil.
unfoldable pub dispatch : Session → Reading → String → Option Answer
unfolding text_args commanded
dispatch s r entry =
    let slashed = has_prefix entry "\\" in
    if not (is_nil s.mode) && not slashed
    then some (text_args s r entry)
    else commanded slashed (trim_space (trim_prefix entry "\\"))

is_quote : ℕ → Bool
is_quote c = c == 39 || (c == 34 || c == b'`')

-- `terminated`'s loop: the quote it is in, 0 outside, whether it is in a comment, and whether the
-- character is one a backslash escapes.
closed_from : String → ℕ → Bool → Bool → String → Bool
unfolding is_quote has_prefix
closed_from comment q in_comment escaped String.[] = q == 0 && not in_comment
closed_from comment q in_comment escaped (String.◌∷◌ c s) =
    let starts = has_prefix (String.◌∷◌ c s) comment in
    let quoted = not (q == 0) in
    closed_from comment
      (if escaped || in_comment
        then q
        else if quoted
        then (if code c == q && not (code c == 92) then 0 else q)
        else if starts
        then q
        else if is_quote (code c)
        then code c
        else q)
      (if escaped
        then in_comment
        else if in_comment
        then not (code c == 10)
        else not quoted && starts)
      (not escaped && (not in_comment && (quoted && code c == 92))) s

-- `terminated`
pub terminated : String → String → String → Bool
unfolding closed_from has_suffix
terminated text end comment = closed_from comment 0 false false text && has_suffix text end

-- `ends`
unfoldable pub ends : Session → Reading → String → Bool
unfolding terminated trim_space
ends s r text =
    let t = trim_space text in
    if is_nil s.mode || (str_eq t "" || has_prefix t "\\")
    then true
    else if str_eq r.lang "aql"
    then terminated t ";;" "//"
    else if str_eq r.lang "sql"
    then terminated t ";" "--"
    else true

-- The command an entry is for, its flags parsed: whether it has a flag, and whether it is given; and
-- whether it writes an artifact.
pub record Found : Type 0 where
  pub lookup : String → Option Bool
  pub artifact : Bool

abbrev pub written : SessionFlag → String
written f = if str_eq f.value "" then cat "--" f.name else cat (cat (cat "--" f.name) "=") f.value

-- Whether `withFlags` adds a flag.
pub adds : Found → SessionFlag → Bool
adds c f = elim (c.lookup f.name) [
  | none ↦ false
  | some given ↦ not given && not (c.artifact && contains ("json" ∷ "yaml" ∷ "jq" ∷ []) f.name)
]

unfoldable pub added : Found → List SessionFlag → List String
unfolding adds
added c [] = []
added c (f ∷ fs) = if adds c f then written f ∷ added c fs else added c fs

-- The arguments with `more` before the first `--`, or last.
before_dashes : List String → List String → List String
before_dashes more [] = more
before_dashes more (a ∷ args) =
    let rest = a ∷ before_dashes more args in if str_eq a "--" then more ++ a ∷ args else rest

-- `withFlags`; none is no command, or flags it doesn't parse.
unfoldable pub with_flags : Option Found → List SessionFlag → List String → List String
unfolding added before_dashes
with_flags none fs args = args
with_flags (some c) fs args = before_dashes (added c fs) args
