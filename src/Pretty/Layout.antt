-- ===== src/Pretty/Layout.antt =====
-- The view of a result laid out from its fields (`buildPrettyDoc`, `prettyFields`, `prettyEntries`,
-- `prettyValueOf`, `prettyListOf` and `cellOf` of internal/pretty/pretty.go).
use anfra.Prelude.{
  String, Bool, ◌&&◌, ◌||◌, Option, none, some, List, [], ◌∷◌, ◌++◌, str_eq, if◌then◌else◌,
  text_contains,
}
use Prim.Native.Char.{code}
use Prim.Native.String
use mathlib.Core.Option
use anfra.Pretty.{Terminal, Cell, Tone, Value, Doc, text_of, none_cell}
use anfra.Pretty.Csv.{first_line, joined_cell}
use anfra.Pretty.View.{
  Hint, Node, absent, scalar, object, scalars, objects, lists, opaque, Fields, no_field, field,
  Objects, no_object, one_object, no_row, one_row, is_object, scalar_cell, scalar_cells, text_lines,
  data_rows,
}
use anfra.Pretty.Listing.{Seen, scalars_of, entries_of, list_of}
pub mod Sound

-- The packages and the locale that the building of a view calls: the terminal's, `strings.ToUpper`,
-- and `treeLines`.
pub record Builder : Type 0 where
  pub terminal : Terminal
  pub upper : String → String
  pub tree_lines : List String → List Cell

texts : List Cell → List String
unfolding text_of
texts [] = []
texts (c ∷ cs) = text_of c ∷ texts cs

-- A list of scalars laid out.
scalar_list : Builder → Hint → List String → Value
unfolding scalar_cells texts
scalar_list b h ss =
    let cells = scalar_cells b.terminal h ss in
    if h.tree then Value.block (b.tree_lines (texts cells)) else Value.lines cells

scalar_value : Builder → Hint → String → Bool → Value
unfolding text_lines scalar_cell
scalar_value b h s is_string =
    if is_string && (h.block || text_contains s "\n")
    then Value.block (text_lines b.terminal s)
    else Value.text (scalar_cell b.terminal h s)

-- A scalar's part in its object: whether it can be a heading, and among scalars.
title_of : Terminal → Hint → Node → Option String
unfolding scalar_cell text_of
title_of t h (scalar s is_string empty) = if empty then none else some (text_of (scalar_cell t h s))
title_of t h n = none

own_scalar : Terminal → Hint → Node → Option (Option Cell)
unfolding scalar_cell
own_scalar t h absent = some none
own_scalar t h (scalar s is_string empty) =
    if empty then some none else some (some (scalar_cell t h s))
own_scalar t h n = none

first_item : List (List Seen) → Option (List Cell)
unfolding scalars_of
first_item (fs ∷ []) = scalars_of fs
first_item fss = none

seen : Builder → Hint → Node → Value → Option Cell → Seen
unfolding title_of own_scalar
seen b h n value in_table = record {
  name = h.name;
  label = h.label;
  omitted = h.omitted;
  truncate = h.truncate;
  value = value;
  title = title_of b.terminal h n;
  scalar_of = own_scalar b.terminal h n;
  in_table = in_table;
}

-- A field before the rest: hidden, its object's fields in its place, or itself.
placed : Hint → Node → Seen → List Seen → List Seen → List Seen
unfolding is_object
placed h n own inside rest =
    if h.hidden then rest else if h.inline && is_object n then inside ++ rest else own ∷ rest

-- `prettyFields`, `prettyValueOf` and `cellOf`, in one pass over the result.
mutual
  unfolding scalar_list scalar_value seen placed first_item list_of entries_of scalars_of data_rows
      scalar_cells first_line joined_cell

  pub see : Builder → Fields → List Seen
  see b no_field = []
  see b (field h n fs) =
      placed h n
        (seen b h n (elim h.view [ none ↦ value_of b h n | some v ↦ v ]) (table_cell b h n))
        (see_inside b n) (see b fs)

  pub value_of : Builder → Hint → Node → Value
  value_of b h absent = Value.text none_cell
  value_of b h (scalar s is_string empty) =
      if empty then Value.text none_cell else scalar_value b h s is_string
  value_of b h (object empty fs s) =
      if empty then Value.text none_cell else Value.section (entries_of (see b fs))
  value_of b h (scalars [] s) = Value.text none_cell
  value_of b h (scalars (x ∷ xs) s) = scalar_list b h (x ∷ xs)
  value_of b h (objects no_object s) = Value.text none_cell
  value_of b h (objects (one_object fs os) s) = list_of b.upper (see b fs ∷ see_items b os)
  value_of b h (lists no_row s) = Value.text none_cell
  value_of b h (lists (one_row r rs) s) =
      Value.rows (data_rows b.terminal h (one_row r rs)) h.labels
  value_of b h (opaque s) = Value.text (record { text = s; tone = Tone.plain } ∷ [])

  -- The fields of an object that is inlined.
  see_inside : Builder → Node → List Seen
  see_inside b (object empty fs s) = see b fs
  see_inside b n = []

  see_items : Builder → Objects → List (List Seen)
  see_items b no_object = []
  see_items b (one_object fs os) = see b fs ∷ see_items b os

  table_cell : Builder → Hint → Node → Option Cell
  table_cell b h absent = some none_cell
  table_cell b h (scalar s is_string empty) =
      some (if empty then none_cell else first_line (scalar_cell b.terminal h s))
  table_cell b h (object empty fs s) =
      if empty then some none_cell else joined_cell " " (scalars_of (see b fs))
  table_cell b h (scalars [] s) = some none_cell
  table_cell b h (scalars (x ∷ xs) s) = joined_cell "," (some (scalar_cells b.terminal h (x ∷ xs)))
  table_cell b h (objects no_object s) = some none_cell
  table_cell b h (objects (one_object fs os) s) =
      joined_cell " " (first_item (see b fs ∷ see_items b os))
  table_cell b h (lists no_row s) = some none_cell
  table_cell b h (lists (one_row r rs) s) = none
  table_cell b h (opaque s) = none

-- A result's fields other than its message and its hints.
body_of : List Seen → List Seen
body_of [] = []
body_of (f ∷ fs) =
    let rest = body_of fs in
    if str_eq f.name "message" || str_eq f.name "hints" then rest else f ∷ rest

-- `buildPrettyDoc`, given what reflection reads as a string in the result's message, and as strings in
-- its hints: it panics where the hints are no list.
unfoldable pub build_doc : Builder → String → List String → Fields → Doc
unfolding body_of entries_of see
build_doc b message hints fs = record {
  message = message;
  body = entries_of (body_of (see b fs));
  hints = hints;
}
