-- ===== src/Command/Args.antt =====
-- internal/command/args.go: `parseArgs`. Reflection's answer is the input: a struct's visible fields
-- with the type and the tags of each. A map from names is the list of its keys.
pub mod WellFormed
mod Tests
use anfra.Prelude.{
  ℕ, ◌+◌, String, Bool, true, false, not, ◌&&◌, ◌||◌, Option, none, some, List, [], ◌∷◌, ◌++◌,
  str_eq, ltb, leb, if◌then◌else◌, is_nil, contains, Result, ok, err, ◌>>=◌, ◌>>◌, require,
}

pub data ArgType : Type 0 where
  string_arg bool_arg string_array_arg int_arg object_arg object_array_arg : ArgType

-- A field's Go type, as far as `parseArgs` tells types apart; an object's visible fields are read
-- by `objectFields`.
pub data FieldType : Type 0 where
  go_string go_bool go_strings go_int go_struct go_struct_pointer go_structs go_other : FieldType

pub record Field : Type 0 where
  pub name : String
  pub anonymous : Bool
  pub type : FieldType
  -- the json tag, none where it is missing or "-"
  pub json : Option (String × List String)
  pub doc : String
  pub short : String
  pub alias : List String
  pub enum : List String
  pub default : String
  pub group : String
  pub cli : List String
  -- what `objectFields` says of an object's fields: false for its error
  pub object_ok : Bool

pub record Arg : Type 0 where
  pub name : String
  pub type : ArgType
  pub usage : String
  pub shorthand : String
  pub aliases : List String
  pub required : Bool
  pub enum : List String
  pub default : String
  pub group : String
  pub positional : Bool
  pub stdin : Bool

pub data Refusal : Type 0 where
  embedded_not_struct unsupported_type bad_object unknown_cli_option : String → Refusal
  needs_name_and_usage bad_positional only_string required_default : String → Refusal
  default_not_in_enum required_in_group bad_shorthand name_taken : String → Refusal
  many_positional : Refusal
  group_of_one : String → Refusal

-- The variables of the loop.
pub record ParseState : Type 0 where
  pub args : List Arg
  pub names : List String
  pub shorts : List String
  pub groups : List String
  pub positional : ℕ

abbrev pub initial : ParseState
initial = record { args = []; names = "help" ∷ []; shorts = []; groups = []; positional = 0 }

abbrev is_string : ArgType → Bool
is_string string_arg = true
is_string _ = false

abbrev is_string_array : ArgType → Bool
is_string_array string_array_arg = true
is_string_array _ = false

-- The switch on the field's type, for the arg of a name.
arg_type : String → Field → Result Refusal ArgType
arg_type name f =
    let object = if f.object_ok then ok object_arg else err (bad_object name) in
    elim f.type [
      | go_string ↦ ok string_arg
      | go_bool ↦ ok bool_arg
      | go_strings ↦ ok string_array_arg
      | go_int ↦ ok int_arg
      | go_struct ↦ object
      | go_struct_pointer ↦ object
      | go_structs ↦ ok object_array_arg
      | go_other ↦ err (unsupported_type name)
    ]

-- The loop over the cli options: positional, stdin, and how many were positional.
read_cli : String → List String → Arg × ℕ → Result Refusal (Arg × ℕ)
read_cli name [] (a, n) = ok (a, n)
read_cli name (o ∷ os) (a, n) =
    let rest = read_cli name os (
      if str_eq o "positional"
      then (record a { positional = true }, n + 1)
      else if str_eq o "stdin"
      then (record a { stdin = true }, n)
      else (a, n)) in
    if str_eq o "" || str_eq o "positional" || str_eq o "stdin"
    then rest
    else err (unknown_cli_option name)

-- `len(a.Shorthand) > 1`, in bytes: a tag of one character beyond ASCII is longer.
abbrev byte_len_gt_one : (String → ℕ) → String → Bool
byte_len_gt_one len s = ltb 1 (len s)

-- The switch of the checks on one arg.
check_arg : (String → ℕ) → String → Arg → List String → Result Refusal (Unit {0})
check_arg len field a shorts = do
  require (not (str_eq a.name "" || str_eq a.usage "")) (needs_name_and_usage field)
  require (not a.positional || is_string a.type || is_string_array a.type) (bad_positional a.name)
  require
      (not (a.required || not (is_nil a.enum) || not (str_eq a.default "") || a.stdin)
        || is_string a.type)
      (only_string a.name)
  require (not (a.required && not (str_eq a.default ""))) (required_default a.name)
  require (str_eq a.default "" || is_nil a.enum || contains a.enum a.default)
      (default_not_in_enum a.name)
  require (not (a.required && not (str_eq a.group ""))) (required_in_group a.name)
  require
      (not (
        byte_len_gt_one len a.shorthand
        || (not (str_eq a.shorthand "") && contains shorts a.shorthand)))
      (bad_shorthand a.name)

-- The loop that takes the arg's name and its aliases.
take_names : String → List String → List String → Result Refusal (List String)
take_names name [] names = ok names
take_names name (n ∷ ns) names =
    let rest = take_names name ns (n ∷ names) in
    if contains names n then err (name_taken name) else rest

-- The arg that the tags of a field declare, before its cli options are read.
abbrev pub declared : Field → String → List String → ArgType → Arg
declared f name opts type = record {
  name = name;
  type = type;
  usage = f.doc;
  shorthand = f.short;
  aliases = f.alias;
  required = not (contains opts "omitempty");
  enum = f.enum;
  default = f.default;
  group = f.group;
  positional = false;
  stdin = false;
}

-- The loop's variables with one more arg, given the names taken and how many were positional.
abbrev pub added : ParseState → Arg → List String → ℕ → ParseState
added s a names positional = record {
  args = s.args ++ a ∷ [];
  names = names;
  shorts = if str_eq a.shorthand "" then s.shorts else a.shorthand ∷ s.shorts;
  groups = if str_eq a.group "" then s.groups else a.group ∷ s.groups;
  positional = positional;
}

-- The end of one round: the checks on the arg, then its names, shorthand and group are taken.
take_arg : (String → ℕ) → Field → ParseState → Arg × ℕ → Result Refusal ParseState
unfolding check_arg take_names
take_arg len f s (a, positional) = do
  check_arg len f.name a s.shorts
  names ← take_names a.name (a.name ∷ a.aliases) s.names
  ok (added s a names positional)

-- One round of the loop over the fields.
parse_field : (String → ℕ) → Field → ParseState → Result Refusal ParseState
unfolding arg_type read_cli take_arg
parse_field len f s =
    if f.anonymous
    then elim f.type [ go_struct ↦ ok s | _ ↦ err (embedded_not_struct f.name) ]
    else elim f.json [
      | none ↦ ok s
      | some (name, opts) ↦ do
        type ← arg_type name f
        read ← read_cli name f.cli (declared f name opts type, s.positional)
        take_arg len f s read
    ]

parse_fields : (String → ℕ) → List Field → ParseState → Result Refusal ParseState
parse_fields len [] s = ok s
parse_fields len (f ∷ fs) s = parse_field len f s >>= λ s'. parse_fields len fs s'

-- `groups[g]`: how many args name the group.
abbrev pub count_name : List String → String → ℕ
count_name [] g = 0
count_name (x ∷ xs) g = (if str_eq x g then 1 else 0) + count_name xs g

check_groups : List String → List String → Result Refusal (Unit {0})
check_groups all [] = ok tt
check_groups all (g ∷ gs) =
    if ltb (count_name all g) 2 then err (group_of_one g) else check_groups all gs

-- `parseArgs`, of a struct's visible fields; `len` is Go's length of a string in bytes.
pub parse_args : (String → ℕ) → List Field → Result Refusal (List Arg)
unfolding check_groups parse_fields
parse_args len fields = do
  s ← parse_fields len fields initial
  require (leb s.positional 1) many_positional
  check_groups s.groups s.groups
  ok s.args
