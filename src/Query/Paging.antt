-- ===== src/Query/Paging.antt =====
-- internal/command/query/run.go: a query answered as one page, and the rows of a stream.
pub mod Within
pub mod Page
pub mod Batches
mod Tests
use anfra.Prelude.{
  ℕ, ◌^◌, String, Option, List, str_eq, if◌then◌else◌, Result, ok, err, ◌>>=◌, ◌>>◌,
}
use anfra.Canalquery
use anfra.Canalquery.{Row, Header, Line, Ending, Failure}
use anfra.Query.Bounds.{Limits, bounded, QueryError, stream}

abbrev pub max_page_size : ℕ
max_page_size = 10_000

abbrev pub batch_rows : ℕ
batch_rows = 1_000

abbrev pub batch_bytes : ℕ
batch_bytes = 2 ^ 20

-- `queryRun`: the SQL of a query, and its AQL, or why it did not compile; its page size, zero where
-- it has none; its limit; and the host's limits.
pub record QueryRun (E : Type 0) : Type 0 where
  pub compiled : Result E (String × String)
  pub page_size : ℕ
  pub limit : Option ℕ
  pub limits : Limits

-- A data source: its name for the client's tenant, and its answer to a statement.
pub record DataSource : Type 0 where
  pub tenant : String
  pub answer : String → Option ℕ → ℕ → List Line × Ending

-- `sink`, over its own state, for one that passes over statuses, warehouse ids and bytes scanned, as
-- `page`'s does.
pub record Sink (S E : Type 0) : Type 0 where
  pub compiled : String → String → S → Result E S
  pub header : Header → S → Result E S
  pub row : Row → S → Result E S

-- What `execute` fails with: canal's failure that is the user's own is told with canal's message.
pub data RunError (E : Type 0) : Type 0 where
  query_failed : String → RunError E
  as_is : QueryError E → RunError E

module _ {E : Type 0} where
  -- `asQueryFailed`
  abbrev pub as_query_failed : QueryError E → RunError E
  as_query_failed (QueryError.not_executed (Failure.canal e)) =
      if str_eq e.scope "User"
      then query_failed e.message
      else as_is (QueryError.not_executed (Failure.canal e))
  as_query_failed e = as_is e

  -- The query's own error, or a sink's.
  abbrev pub plain : {S : Type 0} → Result E S → Result (RunError E) S
  plain (ok s) = ok s
  plain (err e) = err (as_is (QueryError.own e))

  abbrev pub told : {S : Type 0} → Result (QueryError E) S → Result (RunError E) S
  told (ok s) = ok s
  told (err e) = err (as_query_failed e)

  -- `execute`, for a query truncated at a number of rows and such a sink: of what the run tells its sink,
  -- nothing else changes its state or stops it.
  pub execute :
      {S : Type 0} → QueryRun E → DataSource → Option ℕ → Sink S E → S → Result (RunError E) S
  execute q source truncate k s = do
    text ← plain q.compiled
    s' ← plain (k.compiled text.0 text.1 s)
    told (stream source.tenant (source.answer text.0) (bounded truncate q.limits) k.header k.row s')
