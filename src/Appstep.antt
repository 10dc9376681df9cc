-- ===== src/Appstep.antt =====
-- shared/appstep/appstep.go: a step's definition, an occurrence of it, its log form and its
-- description. A value of Go's `any` is a string, or any other value by the text `%v` gives it.
pub mod Redaction
pub mod Describing
mod Tests
use anfra.Prelude.{
  ℕ, String, Bool, true, false, not, ◌&&◌, ◌||◌, Option, none, some, List, [], ◌∷◌, ◌++◌, map,
  str_eq, leb, ◌==◌, if◌then◌else◌, is_nil, contains, cat, join, Result, ok, ◌>>=◌, ◌>>◌, require,
}
use Prim.Native.Char.{Char, code}

pub data Value : Type 0 where
  str : String → Value
  other : String → Value

-- `fmt.Sprint(v)`
abbrev pub sprint : Value → String
sprint (str s) = s
sprint (other s) = s

pub record StepDefinition : Type 0 where
  pub name : String
  -- empty for a private step
  pub template : String
  pub sensitive : List String

pub record Param : Type 0 where
  pub key : String
  pub value : Value

pub record Step : Type 0 where
  pub def : StepDefinition
  pub params : List Param

abbrev pub redacted : String
redacted = "[redacted]"

abbrev pub bad_key : String
bad_key = "!BADKEY"

-- `pairs`: a string and the value after it make a pair, anything else stands under a bad key.
unfoldable pub pairs : List Value → List Param
pairs [] = []
pairs (other v ∷ kv) = record { key = bad_key; value = other v } ∷ pairs kv
pairs (str k ∷ []) = record { key = bad_key; value = str k } ∷ []
pairs (str k ∷ v ∷ kv) = record { key = k; value = v } ∷ pairs kv

pub new_step : StepDefinition → List Value → Step
unfolding pairs
new_step def kv = record { def = def; params = pairs kv }

pub logged_value : List String → Param → Value
logged_value sensitive p = if contains sensitive p.key then str redacted else p.value

pub logged : Step → List Param
unfolding logged_value
logged s =
    map (λ (p : Param). record { key = p.key; value = logged_value s.def.sensitive p }) s.params

show_params : List Param → String
show_params ps = join (map (λ (p : Param). cat p.key (cat "=" (sprint p.value))) ps) ", "

-- The log form, `name(key=value, key=value)`.
pub step_string : Step → String
unfolding logged show_params
step_string s =
    if is_nil s.params
    then s.def.name
    else cat s.def.name (cat "(" (cat (show_params (logged s)) ")"))

-- A template as the placeholder expression `\{([a-z_][a-z0-9_]*)\}` cuts it.
pub data Piece : Type 0 where
  lit : String → Piece
  hole : String → Piece

abbrev starts_key : ℕ → Bool
starts_key c = (leb b'a' c && leb c b'z') || c == b'_'

abbrev continues_key : ℕ → Bool
continues_key c = starts_key c || (leb b'0' c && leb c b'9')

abbrev push : String → Char → String
push s c = cat s (String.◌∷◌ c String.[])

-- Outside a brace, or inside one with the key read so far. A brace that turns out to start no
-- placeholder is literal text, and the character that ended it is read again.
data Mode : Type 0 where
  outside : Mode
  inside : String → Mode

record Read : Type 0 where
  pieces : List Piece
  mode : Mode

abbrev read_outside : Char → Read
read_outside c =
    if code c == b'{'
    then record { pieces = []; mode = inside "" }
    else record { pieces = lit (push "" c) ∷ []; mode = outside }

abbrev read_inside : String → Char → Read
read_inside key c =
    if (if str_eq key "" then starts_key (code c) else continues_key (code c))
    then record { pieces = []; mode = inside (push key c) }
    else if code c == b'}' && not (str_eq key "")
    then record { pieces = hole key ∷ []; mode = outside }
    else record {
      pieces = lit (cat "{" key) ∷ (read_outside c).pieces;
      mode = (read_outside c).mode;
    }

read : Mode → Char → Read
read outside c = read_outside c
read (inside key) c = read_inside key c

scan : Mode → String → List Piece
unfolding read
scan outside String.[] = []
scan (inside key) String.[] = lit (cat "{" key) ∷ []
scan m (String.◌∷◌ c s) = (read m c).pieces ++ scan (read m c).mode s

pub template_pieces : String → List Piece
unfolding scan
template_pieces t = scan outside t

-- The map of a step's values: a later parameter replaces an earlier one of its key.
pub value_of : String → List Param → Option Value
value_of k [] = none
value_of k (p ∷ ps) = elim (value_of k ps) [
  | some v ↦ some v
  | none ↦ if str_eq p.key k then some p.value else none
]

abbrev pub quoted : Value → String
quoted (str s) = cat "'" (cat s "'")
quoted (other s) = s

pub record Description : Type 0 where
  pub name : String
  pub params : List Param
  pub text : String

-- The template filled, and the parameters it used; none where a value is missing.
pub fill : List Param → List Piece → Option (String × List Param)
unfolding value_of
fill ps [] = some ("", [])
fill ps (lit t ∷ rest) = elim (fill ps rest) [
  | some (text, used) ↦ some (cat t text, used)
  | none ↦ none
]
fill ps (hole k ∷ rest) = elim (value_of k ps) [
  | none ↦ none
  | some v ↦ elim (fill ps rest) [
    | some (text, used) ↦ some (cat (quoted v) text, record { key = k; value = v } ∷ used)
    | none ↦ none
  ]
]

pub describe : Step → Option Description
unfolding fill template_pieces
describe s =
    if str_eq s.def.template ""
    then none
    else elim (fill s.params (template_pieces s.def.template)) [
      | some (text, used) ↦ some (record { name = s.def.name; params = used; text = text })
      | none ↦ none
    ]

-- The literal text of a template, where a brace is malformed.
literal_text : List Piece → String
literal_text [] = ""
literal_text (lit t ∷ ps) = cat t (literal_text ps)
literal_text (hole k ∷ ps) = literal_text ps

has_brace : String → Bool
has_brace String.[] = false
has_brace (String.◌∷◌ c s) = code c == b'{' || code c == b'}' || has_brace s

pub check_template : String → Bool
unfolding template_pieces literal_text has_brace
check_template t = not (str_eq t "") && not (has_brace (literal_text (template_pieces t)))

pub data Panic : Type 0 where
  no_namespace empty_name duplicate_step bad_template bad_sensitive : Panic

-- The loop over the sensitive keys: none empty, none twice.
keys_ok : List String → List String → Bool
keys_ok [] seen = true
keys_ok (k ∷ ks) seen = not (str_eq k "" || contains seen k) && keys_ok ks (k ∷ seen)

-- `Define`: the definition, and the registry of qualified names with it. The options have given
-- the template, empty for a private step, and the sensitive keys.
pub define :
    String
    → String
    → String
    → List String
    → List String
    → Result Panic (StepDefinition × List String)
unfolding check_template keys_ok
define ns name template sensitive defined = do
  require (not (str_eq ns "")) no_namespace
  require (not (str_eq name "")) empty_name
  let qualified = cat ns (cat "." name)
  require (not (contains defined qualified)) duplicate_step
  require (str_eq template "" || check_template template) bad_template
  require (keys_ok sensitive []) bad_sensitive
  ok (record { name = qualified; template = template; sensitive = sensitive }, qualified ∷ defined)
