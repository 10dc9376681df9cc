-- ===== src/Console/Tests.antt =====
-- Tests of the console's entries, and the theorems at concrete inputs.
use anfra.Prelude.{
  String, ◌≡◌, refl, ◌⊎◌, inr, true, false, Option, none, some, List, [], ◌∷◌, ◌++◌, str_eq,
  if◌then◌else◌, contains, has_prefix, has_suffix, trim_prefix, ok, err, trim_space, is_space,
}
use anfra.Console.Flags.Values.{Distinct, IsSettled}
use anfra.Console.Entries.Added.{NoDashes, AtDashes, Wanted, with_flags_added, text_entry}
use anfra.Console.{split_args}
use anfra.Console.Words.{shell_line, split_args-shell_line}
use anfra.Console.Flags.{Session, Catalog, ModeCommand, not_switched, set_flags, flag_of}
use anfra.Console.Flags.Kept.{set_flags-IsSettled}
use anfra.Console.Entries.{Reading, Answer, run, dispatch, ends, with_flags, Found}
use anfra.Console.Entries.Typed.{sql_end}
use anfra.Console.Entries.Answers.{dispatch_total}

abbrev words : List String
words = "query" ∷ "it's" ∷ "" ∷ "a \"b\" \\c" ∷ []

split_args-shell_line_example : split_args (shell_line words) ≡ ok words
split_args-shell_line_example = split_args-shell_line words

words_line : shell_line ("it's" ∷ "" ∷ []) ≡ "'it'\\''s' ''"
unfolding shell_line
words_line = refl

split_quotes :
    split_args "query \"a \\\"b\\\" \\c\"  d\\ e" ≡ ok ("query" ∷ "a \"b\" \\c" ∷ "d e" ∷ [])
unfolding split_args
split_quotes = refl

split_unclosed : split_args "query 'a" ≡ err 39
unfolding split_args
split_unclosed = refl

abbrev known : Catalog
known = record {
  flag = λ n.
      if contains ("json" ∷ "yaml" ∷ []) n
      then some true
      else if contains ("dataset" ∷ "limit" ∷ []) n
      then some false
      else none;
  longs = λ n. if str_eq n "d" then "dataset" ∷ [] else [];
}

abbrev session : Session
session = record {
  mode = "query" ∷ "--lang" ∷ "sql" ∷ [];
  flags = record { name = "json"; value = "" } ∷ record { name = "timezone"; value = "UTC" } ∷ [];
}

session-IsSettled : IsSettled session.flags
unfolding Distinct flag_of
session-IsSettled = record { distinct = (refl, (refl, tt)); one_format = inr refl }

-- A mode whose limit is no number is not taken.
abbrev switches : List String → Option String
switches mode = if contains mode "--limit=x" then some "invalid argument" else none

-- The mode's command, which gives its limit.
abbrev limited : ModeCommand
limited = record {
  lookup = λ n.
      if str_eq n "limit"
      then some true
      else if contains ("json" ∷ "yaml" ∷ "timezone" ∷ []) n
      then some false
      else none;
  long_of = λ _. none;
  letter_of = λ _. "";
}

abbrev limited_session : Session
limited_session = record session { mode = "query" ∷ "--limit=5" ∷ [] }

set_flags-IsSettled_example :
    IsSettled (set_flags known (some limited) switches "--yaml --limit=x" limited_session).0.flags
    × (((set_flags known (some limited) switches "--yaml --limit=x" limited_session).1 ≡ none)
        ⊎ ((set_flags known (some limited) switches "--yaml --limit=x" limited_session).0
            ≡ limited_session)
        ⊎ ((why : String) × ((set_flags known
                (some limited)
                switches
                "--yaml --limit=x"
                limited_session).1
              ≡ some (not_switched why))
            × ((set_flags known (some limited) switches "--yaml --limit=x" limited_session).0.mode
                ≡ limited_session.mode)))
set_flags-IsSettled_example =
    set_flags-IsSettled known (some limited) switches "--yaml --limit=x" limited_session
      session-IsSettled

-- The line is refused for its limit, and its format is set.
mode_not_taken : set_flags known (some limited) switches "--yaml --limit=x" limited_session ≡ (
  record limited_session {
    flags = record { name = "timezone"; value = "UTC" } ∷ record { name = "yaml"; value = "" } ∷ [];
  },
  some (not_switched "invalid argument"),
)
unfolding set_flags split_args has_prefix
mode_not_taken = refl

flags_set :
    (set_flags known none switches "-d sales --yaml" session).0.flags
    ≡ record { name = "timezone"; value = "UTC" }
      ∷ record { name = "dataset"; value = "sales" }
      ∷ record { name = "yaml"; value = "" }
      ∷ []
unfolding set_flags split_args has_prefix
flags_set = refl

abbrev reading : Reading
reading = record { lang = "sql"; words = false }

dispatch_total_example : (a : Answer) × (dispatch session reading "\\ 'q'" ≡ some a)
dispatch_total_example = dispatch_total session reading "\\ 'q'"

dispatch_runs : dispatch session reading "\\status --json" ≡ some (run ("status" ∷ "--json" ∷ []))
unfolding dispatch split_args trim_space trim_prefix has_prefix
dispatch_runs = refl

abbrev query_command : Found
query_command = record {
  lookup = λ n. if contains ("json" ∷ "timezone" ∷ []) n then some false else none;
  artifact = false;
}

with_flags_added_example :
    (before : List String) × (more : List String) × (after : List String) × ("query" ∷ "--"
        ∷ "--json" ∷ []
      ≡ before ++ after)
    × (with_flags (some query_command) session.flags ("query" ∷ "--" ∷ "--json" ∷ [])
        ≡ before ++ (more ++ after))
    × NoDashes before
    × AtDashes after
    × Wanted query_command session.flags more
with_flags_added_example =
    with_flags_added query_command session.flags ("query" ∷ "--" ∷ "--json" ∷ [])

text_entry_example :
    (args : List String) × (more : List String) × (dispatch session reading "select 1;"
      ≡ some (run args))
    × Wanted query_command session.flags more
    × (with_flags (some query_command) session.flags args
        ≡ "query" ∷ "--lang" ∷ "sql" ∷ [] ++ (more ++ "--" ∷ "select 1" ∷ []))
unfolding is_space NoDashes has_prefix
text_entry_example =
    text_entry session reading query_command ";" "s" "elect 1" refl sql_end refl
      (refl, (refl, (refl, tt))) refl refl

ends_in_text :
    (ends session reading "select ';" ≡ false) × (ends session reading "select ';' -- ;\n;" ≡ true)
unfolding ends trim_space has_prefix has_suffix
ends_in_text = (refl, refl)
