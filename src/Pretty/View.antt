-- ===== src/Pretty/View.antt =====
-- A result's values and fields, and the cells of them (`prettyField`, `shapeOf`, `scalarCell` and
-- `textLines` of internal/pretty/pretty.go). What reflection and the fields' tags say of a result is
-- given; so are a named view's answer and a tree's lines.
use anfra.Prelude.{
  String, Bool, true, false, ◌&&◌, ◌||◌, Option, none, some, List, [], ◌∷◌, str_eq, ◌==◌,
  if◌then◌else◌, lookup, has_prefix, split_on,
}
use Prim.Native.Char.{code}
use anfra.Pretty.{Terminal, Cell, Tone, Value, none_cell}
use anfra.Pretty.Csv.{first_line}

-- `prettyField`, but for its value: `omitted` is whether it is left out of key/values, `labels` is
-- what `pathStrings` finds, and `view` what a named view answers.
pub record Hint : Type 0 where
  pub name : String
  pub label : String
  pub omitted : Bool
  pub block : Bool
  pub tree : Bool
  pub truncate : Bool
  pub hidden : Bool
  pub inline : Bool
  pub labels : List String
  pub tones : List (String × Tone)
  pub view : Option Value

-- A value through its pointers: a nil one, a scalar by its text, whether it is a string and whether it
-- is empty, an object, empty if it is a map with no keys, a list by what `shapeOf` finds its elements
-- to be, scalars by their texts, objects or lists, or anything else. What is not a scalar comes with
-- what it is written as in a cell. A list that holds a nil among its scalars, objects or lists is no
-- value of these: laying it out panics.
mutual
  pub data Node : Type 0 where
    absent : Node
    scalar : String → Bool → Bool → Node
    object : Bool → Fields → String → Node
    scalars : List String → String → Node
    objects : Objects → String → Node
    lists : Rows → String → Node
    opaque : String → Node

  pub data Fields : Type 0 where
    no_field : Fields
    field : Hint → Node → Fields → Fields

  pub data Objects : Type 0 where
    no_object : Objects
    one_object : Fields → Objects → Objects

  pub data Rows : Type 0 where
    no_row : Rows
    one_row : Nodes → Rows → Rows

  pub data Nodes : Type 0 where
    no_node : Nodes
    node : Node → Nodes → Nodes

unfoldable pub is_object : Node → Bool
is_object (object empty fs s) = true
is_object n = false

-- `scalarCell`, from the value's text
unfoldable pub scalar_cell : Terminal → Hint → String → Cell
scalar_cell t h s =
    let text = t.safe s in
    let linked =
      if has_prefix text "https://" || has_prefix text "http://" then Tone.url else Tone.plain in
    let tone : Tone = elim (lookup text h.tones) [ none ↦ linked | some k ↦ k ] in
    record { text = text; tone = tone } ∷ []

-- `strings.TrimRight(s, "\n")`
unfoldable pub trim_breaks : String → String
trim_breaks String.[] = ""
trim_breaks (String.◌∷◌ c s) =
    let rest = trim_breaks s in if code c == 10 && str_eq rest "" then "" else String.◌∷◌ c rest

unfoldable pub safe_lines : Terminal → List String → List Cell
safe_lines t [] = []
safe_lines t (l ∷ ls) = (record { text = t.safe l; tone = Tone.plain } ∷ []) ∷ safe_lines t ls

-- `textLines`
unfoldable pub text_lines : Terminal → String → List Cell
unfolding safe_lines trim_breaks split_on
text_lines t s = safe_lines t (split_on (trim_breaks s) 10)

-- The elements of a list of scalars.
unfoldable pub scalar_cells : Terminal → Hint → List String → List Cell
unfolding scalar_cell
scalar_cells t h [] = []
scalar_cells t h (s ∷ ss) = scalar_cell t h s ∷ scalar_cells t h ss

-- A value in a row of data.
unfoldable pub data_cell : Terminal → Hint → Node → Cell
unfolding scalar_cell first_line
data_cell t h absent = none_cell
data_cell t h (scalar s is_string empty) = first_line (scalar_cell t h s)
data_cell t h (object empty fs s) = record { text = t.safe s; tone = Tone.plain } ∷ []
data_cell t h (scalars ss s) = record { text = t.safe s; tone = Tone.plain } ∷ []
data_cell t h (objects os s) = record { text = t.safe s; tone = Tone.plain } ∷ []
data_cell t h (lists rs s) = record { text = t.safe s; tone = Tone.plain } ∷ []
data_cell t h (opaque s) = record { text = t.safe s; tone = Tone.plain } ∷ []

unfoldable pub data_cells : Terminal → Hint → Nodes → List Cell
unfolding data_cell
data_cells t h no_node = []
data_cells t h (node n ns) = data_cell t h n ∷ data_cells t h ns

-- The rows of a list of lists.
unfoldable pub data_rows : Terminal → Hint → Rows → List (List Cell)
unfolding data_cells
data_rows t h no_row = []
data_rows t h (one_row ns rest) = data_cells t h ns ∷ data_rows t h rest
