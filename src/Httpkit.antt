-- ===== src/Httpkit.antt =====
-- shared/httpkit/status.go: which codes a server answers with, and the HTTP status of each.
pub mod Closed
mod Tests
use anfra.Prelude.{
  ℕ, String, Bool, false, ◌||◌, Option, none, some, List, [], ◌∷◌, str_eq, if◌then◌else◌, contains,
  cat,
}
use anfra.Apperr.Codes.{Catalog, Code, generic, public_of, namespace_of, qualified_name}
use anfra.Apperr.Errors.{Error, Response, code_eq, from, to_error, new_error, response}

-- `Codes`: a server's own namespaces, the codes it imports, and the status of each public code.
pub record ServedCodes : Type 0 where
  pub namespaces : List String
  pub imported : List Code
  pub status : List (Code × ℕ)

-- apperr's generic codes.
pub record GenericCodes : Type 0 where
  pub internal_server_error : Code
  pub invalid_request : Code
  pub not_found : Code
  pub validation_failed : Code

abbrev pub has_code : List Code → Code → Bool
has_code [] k = false
has_code (x ∷ xs) k = code_eq x k || has_code xs k

abbrev pub status_for : List (Code × ℕ) → Code → Option ℕ
status_for [] k = none
status_for ((j, n) ∷ rest) k = if code_eq j k then some n else status_for rest k

abbrev pub generic_status : GenericCodes → List (Code × ℕ)
generic_status g =
    (g.internal_server_error, 500)
    ∷ (g.invalid_request, 400)
    ∷ (g.not_found, 404)
    ∷ (g.validation_failed, 422)
    ∷ []

module _ (c : Catalog) (g : GenericCodes) (cs : ServedCodes) where
  -- The test of `Served`: the code is generic, of the server's namespaces, or imported.
  abbrev pub is_served : Code → Bool
  is_served k =
      str_eq (namespace_of c k) generic
      || contains cs.namespaces (namespace_of c k)
      || has_code cs.imported k

  unfoldable pub served : Code → Code
  served k = if is_served (public_of c k) then public_of c k else g.internal_server_error

  unfoldable pub status_of : Code → ℕ
  unfolding served
  status_of k = elim (status_for (generic_status g) (served k)) [
    | some n ↦ n
    | none ↦ elim (status_for cs.status (served k)) [ some n ↦ n | none ↦ 500 ]
  ]

  -- What `Render` answers for an error it may show, or for the internal error that stands for it:
  -- the second has the first as its inner error and the first's own steps.
  unfoldable pub stand_in : Bool → Error → Error
  unfolding new_error from
  stand_in encapsulating e =
      let f = from c g.internal_server_error encapsulating e in
      let hidden = from c g.internal_server_error encapsulating (
        new_error c g.internal_server_error encapsulating (some e) g.internal_server_error
          (cat "unserved code " (qualified_name c (public_of c f.0.code))) none) in
      if code_eq (served (public_of c f.0.code)) (public_of c f.0.code)
      then to_error f
      else to_error (record (hidden.0) { steps = f.0.steps }, hidden.1)

  unfoldable pub render : Bool → Error → String → Response
  unfolding stand_in status_of response
  render encapsulating e request_id =
      let shown = stand_in encapsulating e in
      record (response c g.internal_server_error encapsulating shown request_id) {
        status = status_of (from c g.internal_server_error encapsulating shown).0.code;
      }
