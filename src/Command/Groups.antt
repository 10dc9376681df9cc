-- ===== src/Command/Groups.antt =====
-- The exactly-one groups: internal/command/args.go's, and how shared/apikit/internal/decode writes
-- them into a schema, reads them back, and says what is wrong with an input.
pub mod Violations
mod Tests
use anfra.Prelude.{
  String, not, ◌&&◌, Option, none, some, List, [], ◌∷◌, ◌++◌, map, str_eq, ◌==◌, if◌then◌else◌,
  length, contains,
}
use anfra.Command.Args.{Arg}

-- A huma schema, as far as groups are written in it: its required and its listed properties.
pub record Schema : Type 0 where
  pub required : List String
  pub properties : List String

pub record Violation : Type 0 where
  pub field : String
  pub code : String

-- `groupNames`, in the order of each group's first arg.
group_names_from : List Arg → List String → List String
group_names_from [] out = out
group_names_from (a ∷ as_) out =
    group_names_from as_
      (if not (str_eq a.group "") && not (contains out a.group) then out ++ a.group ∷ [] else out)

pub group_names : List Arg → List String
unfolding group_names_from
group_names args = group_names_from args []

pub group_members : List Arg → String → List String
group_members [] g = []
group_members (a ∷ as_) g =
    let rest = group_members as_ g in if str_eq a.group g then a.name ∷ rest else rest

-- command's `ExactlyOne`
pub exactly_one_of : List Arg → List (List String)
unfolding group_names group_members
exactly_one_of args = map (group_members args) (group_names args)

-- decode's `ExactlyOne`: a schema for each field, which it requires and lists.
pub schemas_of : List String → List Schema
schemas_of [] = []
schemas_of (f ∷ fs) = record { required = f ∷ []; properties = f ∷ [] } ∷ schemas_of fs

-- One sub-schema of `groupOf`: its field, where it requires one and lists that one alone.
field_of : Schema → Option String
field_of s = elim s.required [
  | [] ↦ none
  | f ∷ [] ↦ if length s.properties == 1 && contains s.properties f then some f else none
  | _ ∷ _ ∷ _ ↦ none
]

fields_of : List Schema → Option (List String)
unfolding field_of
fields_of [] = some []
fields_of (s ∷ ss) = elim (field_of s) [
  | none ↦ none
  | some f ↦ elim (fields_of ss) [ some fs ↦ some (f ∷ fs) | none ↦ none ]
]

-- `groupOf`
pub group_of : List Schema → Option (List String)
unfolding fields_of
group_of [] = none
group_of (s ∷ ss) = fields_of (s ∷ ss)

-- The fields of a group that an object sets, in the group's order.
pub set_in : List String → List String → List String
set_in obj [] = []
set_in obj (f ∷ fs) = let rest = set_in obj fs in if contains obj f then f ∷ rest else rest

only_first : List String → List Violation
only_first [] = []
only_first (f ∷ fs) = record { field = f; code = "invalid" } ∷ only_first fs

-- `exactlyOne`: none set, at the group's first field, or more than one, at each after the first.
-- An empty group would be an index out of range, and none is written.
pub exactly_one : List String → List String → List Violation
unfolding set_in only_first
exactly_one group obj = elim (set_in obj group) [
  | [] ↦ elim group [ [] ↦ [] | f ∷ _ ↦ record { field = f; code = "required" } ∷ [] ]
  | f ∷ rest ↦ only_first rest
]
