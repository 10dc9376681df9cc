-- ===== src/Apperr/Codes/Tests.antt =====
-- A catalog built by the Define functions: the generic internal_server_error and validation_failed,
-- an internal code that maps to the first, and a sidecar's own public code.
use anfra.Prelude.{ℕ, ◌≡◌, refl, none, some, [], ◌∷◌}
use anfra.Apperr.Codes.{
  server, user, Entry, Catalog, empty_catalog, generic, define_public, define_internal, define,
  Built, nothing, public, internal, is_public,
}
use anfra.Apperr.Codes.Registry.{qualified_name-injective}

abbrev ise_entry : Entry
ise_entry = record {
  ns = generic;
  name = "internal_server_error";
  scope = some server;
  message = "Something went wrong";
  public = none;
}

abbrev failed_entry : Entry
failed_entry = record {
  ns = generic;
  name = "validation_failed";
  scope = some user;
  message = "The input is not valid";
  public = none;
}

abbrev node_entry : Entry
node_entry = record {
  ns = "anfranode";
  name = "died";
  scope = none;
  message = "The sidecar died";
  public = some 0;
}

abbrev one_code : Catalog
one_code = record {
  registered = ise_entry ∷ [];
  qualified = "apperr.internal_server_error" ∷ [];
  generic_names = "internal_server_error" ∷ [];
}

abbrev two_codes : Catalog
two_codes = record {
  registered = ise_entry ∷ failed_entry ∷ [];
  qualified = "apperr.validation_failed" ∷ "apperr.internal_server_error" ∷ [];
  generic_names = "validation_failed" ∷ "internal_server_error" ∷ [];
}

abbrev timeout_entry : Entry
timeout_entry = record {
  ns = "canalquery";
  name = "timeout";
  scope = some server;
  message = "The query took too long";
  public = none;
}

abbrev three_codes : Catalog
three_codes = record two_codes {
  registered = ise_entry ∷ failed_entry ∷ node_entry ∷ [];
  qualified = "anfranode.died" ∷ two_codes.qualified;
}

abbrev pub codes : Catalog
codes = record {
  registered = ise_entry ∷ failed_entry ∷ node_entry ∷ timeout_entry ∷ [];
  qualified =
      "canalquery.timeout" ∷ "anfranode.died" ∷ "apperr.validation_failed"
      ∷ "apperr.internal_server_error" ∷ [];
  generic_names = "validation_failed" ∷ "internal_server_error" ∷ [];
}

one_code-Built : Built one_code
unfolding define_public define empty_catalog
one_code-Built =
    public generic "internal_server_error" (some server) "Something went wrong" (some 0)
      (nothing refl) refl

two_codes-Built : Built two_codes
unfolding define_public define
two_codes-Built =
    public generic "validation_failed" (some user) "The input is not valid" (some 1) one_code-Built
      refl

three_codes-Built : Built three_codes
unfolding define_internal define is_public
three_codes-Built =
    internal "anfranode" "died" (some 0) "The sidecar died" (some 2) two_codes-Built refl

pub codes-Built : Built codes
unfolding define_public define
codes-Built =
    public "canalquery" "timeout" (some server) "The query took too long" (some 3) three_codes-Built
      refl

qualified_name-injective_example : ◌≡◌ {A = ℕ} 2 2
qualified_name-injective_example =
    qualified_name-injective codes 2 2 node_entry node_entry codes-Built refl refl refl
