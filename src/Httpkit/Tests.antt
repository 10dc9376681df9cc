-- ===== src/Httpkit/Tests.antt =====
-- A server of the catalog's generic codes, answering errors of its own and of a sidecar.
use anfra.Prelude.{◌≡◌, refl, ◌⊎◌, true, false, none, some, [], ◌∷◌, ◌++◌}
use anfra.Apperr.Codes.{Code, public_of, namespace_of, name_of, message_of}
use anfra.Apperr.Codes.Tests.{codes, codes-Built}
use anfra.Apperr.Errors.{Head, Error, leaf, describe_all, from, response}
use anfra.Httpkit.{ServedCodes, GenericCodes, render, status_of}
use anfra.Httpkit.Closed.{IsGeneric, render-unserved_disclosing, Serves, render-closed}

abbrev generics : GenericCodes
generics = record {
  internal_server_error = some 0;
  invalid_request = some 0;
  not_found = some 1;
  validation_failed = some 1;
}

-- A server of no namespace of its own, which imports nothing.
abbrev server_codes : ServedCodes
server_codes = record { namespaces = []; imported = []; status = [] }

generics-IsGeneric : IsGeneric codes generics
unfolding public_of namespace_of
generics-IsGeneric = record { built = codes-Built; own_public = refl; own_namespace = refl }

abbrev timeout : Code
timeout = some 3

abbrev slow_head : Head
slow_head = record {
  code = timeout;
  message = "cluster eu-7 timed out";
  details = none;
  steps =
      record {
        def = record { name = "canalquery.run"; template = "Running the query"; sensitive = [] };
        params = [];
      }
      ∷ [];
  disclose_inner_steps = false;
}

abbrev slow : Error
slow = leaf slow_head

abbrev refused : Error
refused = leaf (record slow_head { code = some 1; message = "Unknown dataset" })

render-closed_example :
    let r = render codes generics server_codes true slow "r1" in
    (Serves codes server_codes (public_of codes timeout)
      × (r ≡ record (response codes (some 0) true slow "r1") {
        status = status_of codes generics server_codes timeout;
      }))
    ⊎ (¬ Serves codes server_codes (public_of codes timeout)
        × (r.code ≡ name_of codes (some 0))
        × (r.status ≡ 500)
        × (r.message ≡ message_of codes (some 0))
        × (r.details ≡ none)
        × (r.context ≡ describe_all slow_head.steps))
unfolding public_of namespace_of from
render-closed_example = render-closed codes generics server_codes generics-IsGeneric slow "r1"

render-unserved_disclosing_example :
    (render codes generics server_codes false slow "r1").context
    ≡ describe_all (slow_head.steps ++ slow_head.steps)
unfolding public_of namespace_of
render-unserved_disclosing_example =
    render-unserved_disclosing codes generics server_codes generics-IsGeneric slow_head "r1" refl
