-- ===== src/Command/Admission.antt =====
-- internal/command/admission.go and internal/dataperm/dataperm.go, and what stands behind them for
-- a query: internal/query/connect.go and `newQueryRun` of internal/command/query/run.go. A host's
-- data sources are an argument: what `Connection` answers for a name in a mode.
pub mod Governance
mod Tests
use anfra.Prelude.{
  ℕ, String, Bool, true, false, not, ◌&&◌, ◌||◌, Option, none, some, List, [], str_eq,
  if◌then◌else◌, is_some, Result, ok, err, ◌>>=◌, ◌>>◌, require,
}
use anfra.Query.Input.{QueryInput}

-- `dataperm.Set`
pub record Set : Type 0 where
  pub decided : Bool
  pub governed : Bool
  pub attributes : List (String × String)

abbrev pub ungoverned : Set
ungoverned = record { decided = true; governed = false; attributes = [] }

abbrev pub governed_by : List (String × String) → Set
governed_by attributes = record { decided = true; governed = true; attributes = attributes }

-- `datasource.DataPermMode`
pub data DataPermMode : Type 0 where
  governed_mode ungoverned_mode : DataPermMode

-- `outside e` is an error of the host's or of a library, `unknown e` one that is `ErrUnknown`.
pub data Refusal : Type 0 where
  data_perms_missing data_perms_unenforceable no_node no_canal_query limit_invalid : Refusal
  local_repo_not_allowed unknown_data_source unknown outside : String → Refusal

-- `datasource.DataSources`, by its `Connection`.
abbrev pub DataSources : Type 0
DataSources = String → DataPermMode → Result Refusal String

-- canal-query's client, by the tenant it runs for; anfra-node's, by its presence.
pub record CommandContext : Type 0 where
  pub node : Bool
  pub canal_query : Option String
  pub repo : String
  pub is_local : Bool
  pub allow_local : Bool
  pub tenant : String
  pub data_perms : Set
  -- the host's, none where it supplies none
  pub sources : Option DataSources

-- `Client.ForTenant`, of the client there is
abbrev pub for_tenant : String → Option String → Option String
for_tenant tenant none = none
for_tenant tenant (some _) = some tenant

-- `Admit`
unfoldable pub admit : CommandContext → Result Refusal CommandContext
admit ctx = do
  require ctx.data_perms.decided data_perms_missing
  require (not ctx.is_local || ctx.allow_local) (local_repo_not_allowed ctx.repo)
  ok (record ctx { canal_query = for_tenant ctx.tenant ctx.canal_query })

-- `RequireSidecars`
unfoldable pub require_sidecars : CommandContext → Bool → Bool → Result Refusal (Unit {0})
require_sidecars ctx node canal_query = do
  require (not (node && not ctx.node)) no_node
  require (not (canal_query && not (is_some ctx.canal_query))) no_canal_query

-- `ResolveDataSources`; `load` is what a local repo's data_sources.yml holds
unfoldable pub resolve_data_sources :
    Result Refusal DataSources → CommandContext → Result Refusal DataSources
resolve_data_sources load ctx = elim ctx.sources [
  | some sources ↦ ok sources
  | none ↦ if ctx.is_local then load else err (outside ctx.repo)
]

-- `CheckUngoverned`
unfoldable pub check_ungoverned : Set → Result Refusal (Unit {0})
check_ungoverned perms = require (not perms.governed) data_perms_unenforceable

-- `ConnectUngoverned`: the data source and the text as written
unfoldable pub connect_ungoverned :
    Set → DataSources → String → String → Result Refusal (String × String)
unfolding check_ungoverned
connect_ungoverned perms sources name sql = do
  check_ungoverned perms
  ds ← sources name ungoverned_mode
  ok (ds, sql)

-- `sqlSources`
unfoldable pub sql_sources :
    Result Refusal DataSources → CommandContext → Result Refusal DataSources
unfolding check_ungoverned resolve_data_sources
sql_sources load ctx = do check_ungoverned ctx.data_perms; resolve_data_sources load ctx

-- What `newQueryRun` accepts: SQL as written on its data source, or a dataset's query to compile.
pub data QueryRun : Type 0 where
  raw : String → String → QueryRun
  compiled : String → Option ℕ → QueryRun

-- `unknownDataSource`, for the error of a name the repo has no data source by
abbrev pub named : QueryInput → Result Refusal (String × String) → Result Refusal (String × String)
named q (err (unknown _)) = err (unknown_data_source q.data_source)
named q (err e) = err e
named q (ok r) = ok r

-- `newQueryRun`, where `extract` is the reader of the `limit:` directive.
unfoldable pub new_query_run :
    Result Refusal DataSources
    → (String → Option (String × Option ℕ))
    → CommandContext
    → QueryInput
    → Result Refusal QueryRun
unfolding require_sidecars resolve_data_sources sql_sources connect_ungoverned
new_query_run load extract ctx q =
    if str_eq q.lang "sql"
    then (do
      sources ← sql_sources load ctx
      (ds, sql) ← named q (connect_ungoverned ctx.data_perms sources q.data_source q.query)
      require_sidecars ctx false true
      ok (raw ds sql))
    else elim (extract q.query) [
      | none ↦ err limit_invalid
      | some (text, limit) ↦ do
        require_sidecars ctx true true
        sources ← resolve_data_sources load ctx
        ok (compiled text limit)
    ]

-- `invoke`: admission, then the input, then the handler.
unfoldable pub invoke :
    Result Refusal DataSources
    → (String → Option (String × Option ℕ))
    → (String → Result Refusal QueryInput)
    → CommandContext
    → String
    → Result Refusal QueryRun
unfolding admit new_query_run
invoke load extract decode ctx text = do
  admitted ← admit ctx
  q ← decode text
  new_query_run load extract admitted q
