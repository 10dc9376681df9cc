-- ===== src/Command/Admission/Tests.antt =====
-- Invocations of a query, as internal/command/admission.go admits them and
-- internal/command/query/run.go accepts them.
use anfra.Prelude.{
  ℕ, String, ◌≡◌, refl, true, false, not, ◌||◌, Option, none, some, [], ◌∷◌, str_eq, if◌then◌else◌,
  Result, ok, err,
}
use anfra.Query.Input.{QueryInput}
use anfra.Command.Admission.{
  Set, ungoverned, governed_by, ungoverned_mode, Refusal, unknown, data_perms_unenforceable,
  DataSources, CommandContext, raw, resolve_data_sources, invoke,
}
use anfra.Command.Admission.Governance.{invoke-raw, invoke-governed}

-- A host with one data source.
abbrev shop : DataSources
shop name mode = if str_eq name "shop" then ok "postgres" else err (unknown name)

abbrev host : Set → CommandContext
host perms = record {
  node = true;
  canal_query = some "";
  repo = "acme";
  is_local = false;
  allow_local = false;
  tenant = "acme";
  data_perms = perms;
  sources = some shop;
}

abbrev no_file : Result Refusal DataSources
no_file = err (unknown "data_sources.yml")

abbrev no_limit : String → Option (String × Option ℕ)
no_limit text = some (text, none)

abbrev sql_query : QueryInput
sql_query = record { query = "select 1"; lang = "sql"; dataset = ""; data_source = "shop" }

abbrev decode : String → Result Refusal QueryInput
decode text = ok sql_query

accepted : invoke no_file no_limit decode (host ungoverned) "{}" ≡ ok (raw "postgres" "select 1")
unfolding invoke
accepted = refl

invoke-raw_example :
    ((host ungoverned).data_perms.decided ≡ true)
    × ((host ungoverned).data_perms.governed ≡ false)
    × (not (host ungoverned).is_local || (host ungoverned).allow_local ≡ true)
    × ((q : QueryInput) × (decode "{}" ≡ ok q)
        × (str_eq q.lang "sql" ≡ true)
        × (q.query ≡ "select 1")
        × ((sources : DataSources) × (resolve_data_sources no_file (host ungoverned) ≡ ok sources)
            × (sources q.data_source ungoverned_mode ≡ ok "postgres")))
invoke-raw_example =
    invoke-raw no_file no_limit decode (host ungoverned) "{}" {ds = "postgres"} {sql = "select 1"}
      accepted

abbrev team : Set
team = governed_by (("team", "sales") ∷ [])

invoke-governed_example :
    invoke no_file no_limit decode (host team) "{}" ≡ err data_perms_unenforceable
invoke-governed_example =
    invoke-governed no_file no_limit decode (host team) "{}" sql_query refl refl refl refl refl
