-- ===== src/Apperr/Codes.antt =====
-- shared/apperr/apperr.go: the codes. A `*code` is an index into the registry, in definition order,
-- and a `Code` is such a pointer or nil. Equality of codes is equality of pointers.
pub mod Registry
pub mod Tests
use anfra.Prelude.{
  ℕ, String, ◌≡◌, Bool, false, not, ◌||◌, Option, none, some, List, [], ◌∷◌, ◌++◌, str_eq,
  if◌then◌else◌, is_some, length, contains, get_elem?, cat, Result, ok, err, ◌>>=◌, ◌>>◌, require,
}

pub data Scope : Type 0 where
  user client server : Scope

pub record Entry : Type 0 where
  pub ns : String
  pub name : String
  -- none for an internal code
  pub scope : Option Scope
  pub message : String
  -- the code that an internal code maps to
  pub public : Option ℕ

abbrev pub Code : Type 0
Code = Option ℕ

-- The package's variables.
pub record Catalog : Type 0 where
  pub registered : List Entry
  pub qualified : List String
  pub generic_names : List String

pub data Panic : Type 0 where
  no_scope generic_name no_namespace no_name duplicate_code bad_public : Panic

abbrev pub generic : String
generic = "apperr"

pub empty_catalog : Catalog
empty_catalog = record { registered = []; qualified = []; generic_names = [] }

-- What a code points at; none for the zero code.
abbrev pub entry_of : Catalog → Code → Option Entry
entry_of c none = none
entry_of c (some p) = get_elem? c.registered p

abbrev qualify : String → String → String
qualify ns name = cat ns (cat "." name)

unfoldable pub qualified_name : Catalog → Code → String
qualified_name c code = elim (entry_of c code) [ some e ↦ qualify e.ns e.name | none ↦ "" ]

unfoldable pub name_of : Catalog → Code → String
name_of c code = elim (entry_of c code) [ some e ↦ e.name | none ↦ "" ]

unfoldable pub namespace_of : Catalog → Code → String
namespace_of c code = elim (entry_of c code) [ some e ↦ e.ns | none ↦ "" ]

-- `c.Public()`
unfoldable pub public_of : Catalog → Code → Code
public_of c code = elim (entry_of c code) [
  | some e ↦ elim e.public [ some p ↦ some p | none ↦ code ]
  | none ↦ code
]

unfoldable pub is_public : Catalog → Code → Bool
is_public c code = elim (entry_of c code) [ some e ↦ not (is_some e.public) | none ↦ false ]

-- `c.Scope()` and `c.Message()`; the zero code is a nil dereference, none here.
unfoldable pub scope_of : Catalog → Code → Option Scope
unfolding public_of
scope_of c code = elim (entry_of c (public_of c code)) [ some e ↦ e.scope | none ↦ none ]

unfoldable pub message_of : Catalog → Code → String
message_of c code = elim (entry_of c code) [ some e ↦ e.message | none ↦ "" ]

pub define :
    String → String → Option Scope → String → Option ℕ → Catalog → Result Panic (Catalog × Code)
define ns name scope message public c = do
  require (not (str_eq ns "")) no_namespace
  require (not (str_eq name "" || str_eq message "")) no_name
  require (not (contains c.qualified (qualify ns name))) duplicate_code
  ok (
    record c {
      registered =
          c.registered
          ++ record { ns = ns; name = name; scope = scope; message = message; public = public }
            ∷ [];
      qualified = qualify ns name ∷ c.qualified;
    },
    some (length c.registered),
  )

-- `DefinePublicCode`. A scope is one of the three; none stands for any other string.
pub define_public :
    String → String → Option Scope → String → Catalog → Result Panic (Catalog × Code)
define_public ns name scope message c = do
  require (is_some scope) no_scope
  require (str_eq ns generic || not (contains c.generic_names name)) generic_name
  (c', code) ← define ns name scope message none c
  if str_eq ns generic
      then ok (record c' { generic_names = name ∷ c'.generic_names }, code)
      else ok (c', code)

-- `DefineInternalCode`
pub define_internal : String → String → Code → String → Catalog → Result Panic (Catalog × Code)
define_internal ns name none message c = err bad_public
define_internal ns name (some p) message c = do
  require (is_public c (some p)) bad_public
  define ns name none message (some p) c

-- A catalog that the Define functions have built.
pub data Built : Catalog → Type 0 where
  nothing : {c : Catalog} → c ≡ empty_catalog → Built c
  public :
      {c d : Catalog} (ns name : String) (scope : Option Scope) (message : String) (code : Code)
      → Built c
      → define_public ns name scope message c ≡ ok (d, code)
      → Built d
  internal :
      {c d : Catalog} (ns name : String) (to : Code) (message : String) (code : Code)
      → Built c
      → define_internal ns name to message c ≡ ok (d, code)
      → Built d
