-- ===== src/Command/Args/Tests.antt =====
-- The args of a struct like a command's, as internal/command/args.go reads them.
use anfra.Prelude.{
  ℕ, String, ◌≡◌, refl, Bool, true, false, some, List, [], ◌∷◌, str_eq, if◌then◌else◌, ok,
}
use anfra.Command.Args.{string_arg, go_string, Field, Arg, parse_args, parse_field}
use anfra.Command.Args.WellFormed.{IsAccepted, parse_args-IsAccepted}

abbrev text_field : String → String → List String → String → Field
text_field name short cli group = record {
  name = name;
  anonymous = false;
  type = go_string;
  json = some (name, "omitempty" ∷ []);
  doc = "what it is";
  short = short;
  alias = [];
  enum = [];
  default = "";
  group = group;
  cli = cli;
  object_ok = true;
}

abbrev fields : List Field
fields =
    text_field "query" "q" ("positional" ∷ []) ""
    ∷ text_field "dataset" "d" [] "target"
    ∷ text_field "source" "" [] "target"
    ∷ []

abbrev text_arg : String → String → Bool → String → Arg
text_arg name short positional group = record {
  name = name;
  type = string_arg;
  usage = "what it is";
  shorthand = short;
  aliases = [];
  required = false;
  enum = [];
  default = "";
  group = group;
  positional = positional;
  stdin = false;
}

abbrev args : List Arg
args =
    text_arg "query" "q" true ""
    ∷ text_arg "dataset" "d" false "target"
    ∷ text_arg "source" "" false "target"
    ∷ []

-- The length of a text, 1 here for any that is not empty.
abbrev short_len : String → ℕ
short_len s = if str_eq s "" then 0 else 1

fields-accepted : parse_args short_len fields ≡ ok args
unfolding parse_args parse_field
fields-accepted = refl

parse_args-IsAccepted_example : IsAccepted args
parse_args-IsAccepted_example = parse_args-IsAccepted short_len fields {out = args} fields-accepted
