-- ===== src/Envflag/Switches.antt =====
-- internal/envflag/envflag.go: the values of switches.
use anfra.Prelude.{String, ◌≡◌, ◌↔◌, ◌⊎◌, Bool, true, none, List, [], ◌∷◌, arith, eq_iff, All, ok}
use anfra.Envflag.{Environment, switches, parse, validate, validate_from, is_on, is_on_or}

-- A switch holds one of the values that the package documents.
abbrev pub IsSwitch : Environment → String → Type 0
IsSwitch env name = (env name ≡ "") ⊎ ((env name ≡ "0") ⊎ (env name ≡ "1"))

parse-IsSwitch :
    (env : Environment) (name : String) {b : Bool} → parse env name ≡ ok b → IsSwitch env name
unfolding parse
parse-IsSwitch env name e =
    ground (arith, eq_iff (env name) "", eq_iff (env name) "0", eq_iff (env name) "1")

validate_from-IsSwitch :
    (env : Environment) (names : List String)
    → (validate_from env names ≡ none → All (IsSwitch env) names)
      × (All (IsSwitch env) names → validate_from env names ≡ none)
unfolding validate_from parse
validate_from-IsSwitch env [] = ground arith
validate_from-IsSwitch env (n ∷ ns) = ground (
  arith,
  eq_iff (env n) "",
  eq_iff (env n) "0",
  eq_iff (env n) "1",
  validate_from-IsSwitch env ns,
)

-- Validation passes exactly when each switch is unset, empty, 0 or 1.
pub validate_iff : (env : Environment) → (validate env ≡ none) ↔ All (IsSwitch env) switches
unfolding validate
validate_iff env = validate_from-IsSwitch env switches

-- A switch is on exactly when it is 1, and with a default, also when it is empty and the default
-- is on.
pub is_on_iff :
    (env : Environment) (name : String) (def : Bool)
    → ((is_on env name ≡ true) ↔ (env name ≡ "1"))
      × ((is_on_or env name def ≡ true) ↔ (((env name ≡ "") × (def ≡ true)) ⊎ (env name ≡ "1")))
unfolding is_on is_on_or parse
is_on_iff env name def = ground (
  arith,
  eq_iff (env name) "",
  eq_iff (env name) "0",
  eq_iff (env name) "1",
  eq_iff "1" "",
  eq_iff "1" "0",
)
