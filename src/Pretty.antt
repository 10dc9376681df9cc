-- ===== src/Pretty.antt =====
-- The pretty format (internal/pretty/pretty.go): the view model, and cells drawn as pieces of text,
-- each with its style.
use anfra.Prelude.{
  ℕ, zero, suc, ◌+◌, ◌%◌, String, Bool, false, not, Option, none, some, List, [], ◌∷◌, ◌++◌, str_eq,
  ◌==◌, if◌then◌else◌, length, cat, split_on, Returns, map-Returns,
}
use Prim.Native.Char.{code as char_code}
use Prim.Native.String
use Prim.Native.Nat.{max}
use package.text.Mathlib.TextLemmas.{nil-append, cons-append, append-nil}
use mathlib.Core.Option
mod Labels
mod Tables
mod Grid
pub mod Measured
pub mod Csv
pub mod Draw
pub mod View
pub mod Listing
pub mod Layout
mod Tests

-- The styles of `cliui.TerminalStyles` that the renderer uses.
pub data Tint : Type 0 where
  heading muted success warning error link code key : Tint

-- `prettyRenderer`, with the packages it calls: `render` is a style's `Render`, `columns` is
-- `ansi.StringWidth`, `cut` is `ansi.Truncate`, `safe` is `cliui.SafeText`, `is_number` is whether
-- `strconv.ParseFloat` reads a text and `utf8` is what `utf8Terminal` found.
pub record Terminal : Type 0 where
  pub width : ℕ
  pub render : Tint → String → String
  pub columns : String → ℕ
  pub cut : String → ℕ → String → String
  pub safe : String → String
  pub is_number : String → Bool
  pub utf8 : Bool

pub data Tone : Type 0 where
  plain faint good warn bad url : Tone

pub record Span : Type 0 where
  pub text : String
  pub tone : Tone

abbrev pub Cell : Type 0
Cell = List Span

pub record Table : Type 0 where
  pub header : List String
  pub rows : List (List Cell)
  -- none is -1: no column may be cut
  pub cuttable : Option ℕ

-- `prettyValue` by its kind, `prettyEntry` and `prettyItem`.
mutual
  pub data Value : Type 0 where
    text : Cell → Value
    lines : List Cell → Value
    block : List Cell → Value
    section : Entries → Value
    listed : Option Table → Items → Value
    rows : List (List Cell) → List String → Value

  pub data Entries : Type 0 where
    no_entry : Entries
    entry : String → Value → Entries → Entries

  pub data Items : Type 0 where
    no_item : Items
    item : String → Entries → Items → Items

pub record Doc : Type 0 where
  pub message : String
  pub body : Entries
  pub hints : List String

-- `prettyCell.plain`
unfoldable pub text_of : Cell → String
text_of [] = ""
text_of (s ∷ c) = cat s.text (text_of c)

-- `prettyCell.width`
abbrev pub wide : Terminal → Cell → ℕ
wide t c = t.columns (text_of c)

-- A text written in a style, or as it is. A line is what is written before its line break.
pub record Piece : Type 0 where
  pub tint : Option Tint
  pub said : String

abbrev pub Line : Type 0
Line = List Piece

abbrev pub bare : String → Piece
bare s = record { tint = none; said = s }

abbrev pub styled : Tint → String → Piece
styled k s = record { tint = some k; said = s }

-- What the terminal is sent for a line.
unfoldable pub drawn : Terminal → Line → String
drawn t [] = ""
drawn t (p ∷ l) = cat (elim p.tint [ none ↦ p.said | some k ↦ t.render k p.said ]) (drawn t l)

-- The columns a line takes: a style takes none.
unfoldable pub columns_of : Terminal → Line → ℕ
columns_of t [] = 0
columns_of t (p ∷ l) = t.columns p.said + columns_of t l

-- `spaces`
unfoldable pub spaces : ℕ → String
spaces zero = ""
spaces (suc n) = cat " " (spaces n)

-- `r.styles.Code.Render("x") == "x"`: there are no styles.
abbrev pub unstyled : Terminal → Bool
unstyled t = str_eq (t.render code "x") "x"

is_even : ℕ → Bool
is_even n = n % 2 == 0

-- The parts between backquotes, every second one code.
alternate : Bool → List String → Line
alternate b [] = []
alternate b (s ∷ ss) = (if b then styled code s else bare s) ∷ alternate (not b) ss

-- `code`: as written without styles, and where a backquote is unpaired
unfoldable pub code_line : Terminal → String → Line
unfolding is_even alternate split_on
code_line t s =
    let parts = split_on s b'`' in
    if unstyled t
    then bare s ∷ []
    else if is_even (length parts)
    then bare s ∷ []
    else alternate false parts

-- `inline`
abbrev pub inline : Terminal → String → Line
inline t s = code_line t (t.safe s)

unfoldable pub span_line : Terminal → Tone → String → Line
unfolding code_line
span_line t Tone.plain s = code_line t s
span_line t Tone.faint s = styled muted s ∷ []
span_line t Tone.good s = styled success s ∷ []
span_line t Tone.warn s = styled warning s ∷ []
span_line t Tone.bad s = styled error s ∷ []
span_line t Tone.url s = styled link s ∷ []

-- `cell`
unfoldable pub cell_line : Terminal → Cell → Line
unfolding span_line
cell_line t [] = []
cell_line t (s ∷ c) = span_line t s.tone s.text ++ cell_line t c

-- A line above others, where each is drawn.
unfoldable pub onto : Option Line → Option (List Line) → Option (List Line)
onto none ls = none
onto (some l) ls = Option.map (◌∷◌ l) ls

pub onto-Returns :
    (l : Option Line) (ls : Option (List Line)) → Returns l → Returns ls → Returns (onto l ls)
unfolding onto
onto-Returns none ls (a, e) h = absurd (cc)
onto-Returns (some l) ls r h = map-Returns (◌∷◌ l) ls h

-- `noneCell`
abbrev pub none_cell : Cell
none_cell = record { text = "<none>"; tone = Tone.faint } ∷ []

-- The characters of a grid's borders.
abbrev pub glyphs : List String
glyphs = "─" ∷ "│" ∷ "┌" ∷ "┬" ∷ "┐" ∷ "├" ∷ "┼" ∷ "┤" ∷ "└" ∷ "┴" ∷ "┘" ∷ "-" ∷ "|" ∷ "+" ∷ []
