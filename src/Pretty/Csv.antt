-- ===== src/Pretty/Csv.antt =====
-- Scalars on one line as the fields of a CSV record (`joinedCell`, `csvField` and `firstLine` of
-- internal/pretty/pretty.go, and what `csv.Writer` writes for them).
use anfra.Prelude.{
  ℕ, String, Bool, false, ◌||◌, Option, none, some, List, [], ◌∷◌, ◌++◌, str_eq, ◌==◌,
  if◌then◌else◌, cat, is_space,
}
use Prim.Native.Char.{Char, code}
use Prim.Native.String
use mathlib.Core.Option
use anfra.Pretty.{Cell, Span, Tone, text_of}
pub mod Reading
pub mod Joined

-- A character that makes a field quoted: a line break, a return, a quote or the separator.
is_special : ℕ → ℕ → Bool
is_special sep c = c == 10 || (c == 13 || (c == 34 || c == sep))

any_special : ℕ → String → Bool
unfolding is_special
any_special sep String.[] = false
any_special sep (String.◌∷◌ c s) = is_special sep (code c) || any_special sep s

leading_space : String → Bool
unfolding is_space
leading_space String.[] = false
leading_space (String.◌∷◌ c s) = is_space (code c)

-- `Writer.fieldNeedsQuotes`; no character of an empty field asks for them.
needs_quotes : ℕ → String → Bool
unfolding any_special leading_space
needs_quotes sep s = str_eq s "\\." || (any_special sep s || leading_space s)

abbrev pub quote : Char
quote = "\""

-- A field's text between its quotes: its own quotes doubled.
doubled : String → String
doubled String.[] = ""
doubled (String.◌∷◌ c s) =
    let rest = doubled s in
    if code c == 34 then String.◌∷◌ c (String.◌∷◌ c rest) else String.◌∷◌ c rest

-- `csvField`, for a separator that `csv.Writer` takes, as a comma and a space are.
unfoldable pub csv_field : ℕ → String → String
unfolding needs_quotes doubled
csv_field sep s =
    if needs_quotes sep s
    then String.◌∷◌ quote (cat (doubled s) (String.◌∷◌ quote String.[]))
    else s

-- `strings.Cut(s, "\n")`: what stands before the first line break, none when there is none.
before_break : String → Option String
before_break String.[] = none
before_break (String.◌∷◌ c s) =
    let rest = Option.map (String.◌∷◌ c) (before_break s) in if code c == 10 then some "" else rest

first_tone : Cell → Tone
first_tone [] = Tone.plain
first_tone (s ∷ c) = s.tone

-- `firstLine`
unfoldable pub first_line : Cell → Cell
unfolding before_break text_of first_tone
first_line c = elim (before_break (text_of c)) [
  | none ↦ c
  | some l ↦ record { text = cat l "…"; tone = first_tone c } ∷ []
]

-- A cell as it is joined: its text quoted where the field's is.
quoted_cell : ℕ → Cell → Cell
unfolding csv_field text_of first_tone
quoted_cell sep c =
    if str_eq (csv_field sep (text_of c)) (text_of c)
    then c
    else record { text = csv_field sep (text_of c); tone = first_tone c } ∷ []

abbrev separator : Char → Span
separator sep = record { text = String.◌∷◌ sep String.[]; tone = Tone.plain }

rest_joined : Char → List Cell → Cell
unfolding quoted_cell first_line
rest_joined sep [] = []
rest_joined sep (c ∷ cs) =
    separator sep ∷ (quoted_cell (code sep) (first_line c) ++ rest_joined sep cs)

-- `joinedCell`; no cells, rather than an empty list of them, can't be joined.
unfoldable pub joined_cell : Char → Option (List Cell) → Option Cell
unfolding rest_joined quoted_cell first_line
joined_cell sep none = none
joined_cell sep (some []) = some []
joined_cell sep (some (c ∷ cs)) = some (quoted_cell (code sep) (first_line c) ++ rest_joined sep cs)
