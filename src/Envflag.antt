-- ===== src/Envflag.antt =====
-- internal/envflag/envflag.go: anfra's on/off environment variables. The environment is a function
-- from names to values, empty where a variable is unset.
pub mod Switches
use anfra.Prelude.{
  String, Bool, true, false, ◌||◌, Option, none, some, List, [], ◌∷◌, str_eq, if◌then◌else◌, Result,
  ok, err,
}

pub record InvalidError : Type 0 where
  pub name : String
  pub value : String

abbrev pub Environment : Type 0
Environment = String → String

abbrev pub switches : List String
switches =
    "ANFRA_LOG_STDERR" ∷ "ANFRA_SIDECAR_STDOUT" ∷ "ANFRA_NO_UPDATE_NOTIFIER" ∷ "ANFRA_AUTO_UPDATE"
    ∷ "ANFRA_HIDE_ERROR_CAUSES" ∷ "ANFRA_NO_APP_LOGS" ∷ []

unfoldable pub parse : Environment → String → Result InvalidError Bool
parse env name =
    let v = env name in
    if str_eq v "" || str_eq v "0"
    then ok false
    else if str_eq v "1"
    then ok true
    else err (record { name = name; value = v })

validate_from : Environment → List String → Option InvalidError
validate_from env [] = none
validate_from env (name ∷ names) = elim (parse env name) [
  | ok _ ↦ validate_from env names
  | err e ↦ some e
]

-- `Validate`: the first switch that is neither 1 nor 0.
unfoldable pub validate : Environment → Option InvalidError
unfolding validate_from
validate env = validate_from env switches

unfoldable pub is_on : Environment → String → Bool
is_on env name = elim (parse env name) [ ok on ↦ on | err _ ↦ false ]

unfoldable pub is_on_or : Environment → String → Bool → Bool
unfolding is_on
is_on_or env name def = if str_eq (env name) "" then def else is_on env name
