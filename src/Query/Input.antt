-- ===== src/Query/Input.antt =====
-- internal/command/query/input.go: what a query's input must be before anything runs. The `limit:`
-- directive's reader, the time zone database and whether a Query Input is empty are arguments.
pub mod Accepted
mod Tests
use anfra.Prelude.{
  ℕ, ◌*◌, String, Bool, true, false, not, ◌&&◌, ◌||◌, Option, none, some, List, [], ◌∷◌, str_eq,
  leb, ◌==◌, if◌then◌else◌, is_blank, Result, ok, err,
}

pub record QueryInput : Type 0 where
  pub query : String
  pub lang : String
  pub dataset : String
  pub data_source : String

pub record QueryRunInput : Type 0 where
  pub base : QueryInput
  pub open base use *
  -- `!in.Input.IsZero()`
  pub has_input : Bool
  pub page : ℕ
  pub page_size : ℕ
  pub timezone : String

-- A violation of one field, as `command.InvalidArg` makes it.
pub record Violation : Type 0 where
  pub field : String
  pub code : String

-- `query.ExtractLimit`'s answer: an error, no limit, or a limit; and `time.LoadLocation`'s.
pub record Outside : Type 0 where
  pub extract_limit : String → Result String (Option ℕ)
  pub is_location : String → Bool

unfoldable pub target : QueryInput → Option Violation
target q =
    if str_eq q.lang "sql"
    then (if not (str_eq q.dataset "")
        then some (record { field = "dataset"; code = "invalid" })
        else if is_blank q.data_source
        then some (record { field = "data_source"; code = "required" })
        else none)
    else if not (str_eq q.data_source "")
    then some (record { field = "data_source"; code = "unsupported" })
    else if is_blank q.dataset
    then some (record { field = "dataset"; code = "required" })
    else none

-- The loop over what applies to AQL alone, each by its name and whether it is set.
abbrev first_set : List (String × Bool) → Option Violation
first_set [] = none
first_set ((name, set) ∷ rest) =
    if set then some (record { field = name; code = "unsupported" }) else first_set rest

abbrev sql_extras : QueryRunInput → List (String × Bool)
sql_extras q =
    ("input", q.has_input)
    ∷ ("page", not (q.page == 0))
    ∷ ("page_size", not (q.page_size == 0))
    ∷ ("timezone", not (str_eq q.timezone ""))
    ∷ []

abbrev has_limit : Result String (Option ℕ) → Bool
has_limit (ok (some _)) = true
has_limit (ok none) = false
has_limit (err _) = false

check_paging : Outside → QueryRunInput → Option Violation
check_paging o q =
    if not (q.page == 0) && q.page_size == 0
    then some (record { field = "page_size"; code = "required" })
    else if not (q.page_size == 0) && has_limit (o.extract_limit q.query)
    then some (record { field = "page_size"; code = "invalid" })
    else none

check_timezone : Outside → QueryRunInput → Option Violation
check_timezone o q =
    if not (str_eq q.timezone "") && (not (o.is_location q.timezone) || str_eq q.timezone "Local")
    then some (record { field = "timezone"; code = "invalid" })
    else none

-- `check`
unfoldable pub check : Outside → QueryRunInput → Option Violation
unfolding target check_paging check_timezone
check o q = elim (target q.base) [
  | some v ↦ some v
  | none ↦
      if str_eq q.lang "sql"
      then first_set (sql_extras q)
      else elim (check_paging o q) [ some v ↦ some v | none ↦ check_timezone o q ]
]

-- `run`: what shapes the run, with the page and its size where the query is paged.
pub record Run : Type 0 where
  pub timezone : String
  pub has_input : Bool
  pub pagination : Option (ℕ × ℕ)

unfoldable pub run : QueryRunInput → Run
run q = record {
  timezone = q.timezone;
  has_input = q.has_input;
  pagination =
      if q.page_size == 0 then none else some (if leb 1 q.page then q.page else 1, q.page_size);
}

-- `aql`: the text without its `limit:`, or the violation of a malformed one. `strip` is the other
-- half of `ExtractLimit`'s answer.
unfoldable pub aql : Outside → (String → String) → QueryInput → Result Violation (String × Option ℕ)
aql o strip q = elim (o.extract_limit q.query) [
  | ok limit ↦ ok (strip q.query, limit)
  | err _ ↦ err (record { field = "query"; code = "invalid" })
]
