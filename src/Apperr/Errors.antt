-- ===== src/Apperr/Errors.antt =====
-- shared/apperr: formal errors, what wraps them, and their wire form (error.go, from.go, context.go,
-- response.go, encapsulation.go). The package's state is a section's parameters: the catalog, the
-- code `internal_server_error`, and whether errors are encapsulated.
pub mod Disclosure
mod Tests
use anfra.Prelude.{
  ℕ, String, Bool, true, false, not, ◌&&◌, Option, none, some, List, [], ◌∷◌, ◌++◌, str_eq, ◌==◌,
  if◌then◌else◌, is_some, cat, text_contains,
}
use anfra.Appstep.{Param, Step, describe, step_string}
use anfra.Apperr.Codes.{
  Catalog, Code, Scope, public_of, message_of, name_of, scope_of, qualified_name,
}

-- An error's details, opaque to this package.
pub record Details : Type 0 where
  pub text : String

pub record Head : Type 0 where
  pub code : Code
  pub message : String
  pub details : Option Details
  pub steps : List Step
  pub disclose_inner_steps : Bool

-- A non-nil error: a formal error with or without an inner one, a bare code, a plain error, a
-- foreign wrapper (its own text and what it wraps), and a join.
pub data Error : Type 0 where
  leaf : Head → Error
  formal : Head → Error → Error
  bare : Code → Error
  plain : String → Error
  wrap : String → Error → Error
  joined : String → Error → Error → Error

-- `*Error`, as `From` returns it.
abbrev pub Formal : Type 0
Formal = Head × Option Error

abbrev pub unclassified_message : String
unclassified_message = "unclassified"

-- `==` on codes.
abbrev pub code_eq : Code → Code → Bool
code_eq none none = true
code_eq none (some _) = false
code_eq (some _) none = false
code_eq (some p) (some q) = p == q

pub record ContextEntry : Type 0 where
  pub step : String
  pub params : List Param
  pub text : String

pub record Response : Type 0 where
  pub code : String
  pub scope : Option Scope
  pub status : ℕ
  pub context : List ContextEntry
  pub message : String
  pub details : Option Details
  pub request_id : String

abbrev pub to_error : Formal → Error
to_error (h, none) = leaf h
to_error (h, some e) = formal h e

-- The public steps of a list, described.
unfoldable pub describe_all : List Step → List ContextEntry
describe_all [] = []
describe_all (s ∷ ss) = elim (describe s) [
  | some d ↦ record { step = d.name; params = d.params; text = d.text } ∷ describe_all ss
  | none ↦ describe_all ss
]

show_steps : List Step → String
show_steps [] = ""
show_steps (s ∷ ss) = cat (step_string s) (cat ": " (show_steps ss))

module _ (c : Catalog) (internal_server_error : Code) (encapsulating : Bool) where
  abbrev bare_head : Code → Head
  bare_head k = record {
    code = k;
    message = message_of c k;
    details = none;
    steps = [];
    disclose_inner_steps = false;
  }

  abbrev unclassified_head : Head
  unclassified_head = record {
    code = internal_server_error;
    message = unclassified_message;
    details = none;
    steps = [];
    disclose_inner_steps = false;
  }

  unfoldable pub from : Error → Formal
  from (leaf h) = (h, none)
  from (formal h e) = (h, some e)
  from (bare k) = (bare_head k, none)
  from e = (unclassified_head, some e)

  -- `err.Error()`
  unfoldable pub text_of : Error → String
  unfolding show_steps
  text_of (leaf h) = cat (show_steps h.steps) (cat (qualified_name c h.code) (cat ": " h.message))
  text_of (formal h e) =
      let inner = text_of e in
      cat (show_steps h.steps) (
        cat (qualified_name c h.code)
          (cat (if text_contains inner h.message then "" else cat ": " h.message) (cat ": " inner)))
  text_of (bare k) = cat (qualified_name c k) (cat ": " (message_of c k))
  text_of (plain t) = t
  text_of (wrap t e) = t
  text_of (joined t e f) = t

  unfoldable pub client_message : Formal → String
  client_message (h, inner) =
      if not (code_eq (public_of c h.code) internal_server_error)
      then h.message
      else if encapsulating
      then message_of c internal_server_error
      else elim inner [
        | none ↦ h.message
        | some e ↦ if str_eq h.message unclassified_message then text_of e else h.message
      ]

  -- The steps that a response describes; an error that discloses has an inner error.
  unfoldable pub disclosed_steps : Error → List Step
  disclosed_steps (leaf h) = h.steps
  disclosed_steps (formal h e) =
      if h.disclose_inner_steps then h.steps ++ disclosed_steps e else h.steps
  disclosed_steps _ = []

  -- `newError`: New, NewWith, Encapsulate and EncapsulateWith.
  unfoldable pub new_error : Option Error → Code → String → Option Details → Error
  unfolding client_message from
  new_error inner k msg details =
      let disclose = is_some inner && not encapsulating in
      let own = message_of c k in
      let shown : String = elim inner [
        | some e ↦ if encapsulating then own else client_message (from e)
        | none ↦ own
      ] in
      to_error (
        record {
          code = k;
          message = if str_eq msg "" then shown else msg;
          details = details;
          steps = [];
          disclose_inner_steps = disclose;
        },
        inner,
      )

  -- `translate`, of an error that is not nil.
  unfoldable pub translate : Error → Code → Option Details → Error
  unfolding client_message from
  translate e k details =
      let f = from e in
      formal
        (record {
          code = k;
          message =
              if code_eq (public_of c f.0.code) internal_server_error
              then (if encapsulating then message_of c k else client_message f)
              else f.0.message;
          details = details;
          steps = [];
          disclose_inner_steps = true;
        })
        e

  -- `WithStep`, of an error that is not nil.
  unfoldable pub with_step : Error → Step → Error
  unfolding from
  with_step e step = let f = from e in to_error (record (f.0) { steps = step ∷ f.0.steps }, f.1)

  -- `e.Response(requestID)`, with no status.
  unfoldable pub response : Error → String → Response
  unfolding client_message from disclosed_steps describe_all
  response e request_id =
      let pub_code = public_of c (from e).0.code in
      record {
        code = name_of c pub_code;
        scope = scope_of c pub_code;
        status = 0;
        context = describe_all (disclosed_steps (to_error (from e)));
        message = client_message (from e);
        details = (from e).0.details;
        request_id = request_id;
      }
