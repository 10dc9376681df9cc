-- ===== src/Pretty/Listing.antt =====
-- A list of objects laid out, as blocks and as a table (`prettyListOf`, `prettyEntries` and
-- `scalarsOf` of internal/pretty/pretty.go).
use anfra.Prelude.{ℕ, suc, String, Bool, Option, none, some, List, [], ◌∷◌, map, if◌then◌else◌}
use mathlib.Core.Option
use anfra.Pretty.{Cell, Table, Value, Entries, no_entry, entry, Items, no_item, item}

-- What the view has of a field: whether it is left out, its value laid out, its text as a block's
-- heading if it can be one, its cell among an object's scalars, none where it is no scalar, and its
-- cell in a table, none where it doesn't fit in one.
pub record Seen : Type 0 where
  pub name : String
  pub label : String
  pub omitted : Bool
  pub truncate : Bool
  pub value : Value
  pub title : Option String
  pub scalar_of : Option (Option Cell)
  pub in_table : Option Cell

-- `scalarsOf`
unfoldable pub scalars_of : List Seen → Option (List Cell)
scalars_of [] = some []
scalars_of (f ∷ fs) = elim f.scalar_of [
  | none ↦ none
  | some none ↦ scalars_of fs
  | some (some c) ↦ Option.map (◌∷◌ c) (scalars_of fs)
]

-- `prettyEntries`
unfoldable pub entries_of : List Seen → Entries
entries_of [] = no_entry
entries_of (f ∷ fs) =
    let rest = entries_of fs in if f.omitted then rest else entry f.label f.value rest

-- An object's heading, its first scalar, and its other fields.
unfoldable pub titled : List Seen → String × List Seen
titled [] = ("", [])
titled (f ∷ fs) =
    let (title, rest) = titled fs in elim f.title [ none ↦ (title, f ∷ rest) | some s ↦ (s, fs) ]

unfoldable pub items_of : List (List Seen) → Items
unfolding titled entries_of
items_of [] = no_item
items_of (fs ∷ rest) = item (titled fs).0 (entries_of (titled fs).1) (items_of rest)

-- The last column that a hint lets be cut.
unfoldable pub last_truncated : ℕ → List Seen → Option ℕ
last_truncated i [] = none
last_truncated i (f ∷ fs) = elim (last_truncated (suc i) fs) [
  | none ↦ if f.truncate then some i else none
  | some k ↦ some k
]

-- One before others, where there are all of them.
unfoldable pub all_before {ℓ} : {A : Type ℓ} → Option A → Option (List A) → Option (List A)
all_before none o = none
all_before (some a) none = none
all_before (some a) (some l) = some (a ∷ l)

-- A row's cells, where each fits.
unfoldable pub row_of : List Seen → Option (List Cell)
unfolding all_before
row_of [] = some []
row_of (f ∷ fs) = all_before f.in_table (row_of fs)

unfoldable pub rows_of : List (List Seen) → Option (List (List Cell))
unfolding row_of all_before
rows_of [] = some []
rows_of (fs ∷ rest) = all_before (row_of fs) (rows_of rest)

unfoldable pub table_of : (String → String) → List (List Seen) → Option Table
unfolding rows_of last_truncated
table_of upper [] = some (record { header = []; rows = []; cuttable = none })
table_of upper (fs ∷ rest) =
    Option.map
      (λ rs. record {
        header = map (λ f. upper f.label) fs;
        rows = rs;
        cuttable = last_truncated 0 fs;
      })
      (rows_of (fs ∷ rest))

-- `prettyListOf`
unfoldable pub list_of : (String → String) → List (List Seen) → Value
unfolding table_of items_of
list_of upper items = Value.listed (table_of upper items) (items_of items)
