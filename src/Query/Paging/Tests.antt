-- ===== src/Query/Paging/Tests.antt =====
-- A data source that answers two rows, to a query with a page size and to a stream.
use anfra.Prelude.{
  ℕ, String, ◌≡◌, refl, ◌≢◌, none, List, [], ◌∷◌, ◌++◌, arith, eq_iff, if◌then◌else◌, is_nil,
  Result, ok, err, ◌>>=◌,
}
use anfra.Canalquery.{Row, Header, end_of_answer}
use anfra.Canalquery.Tests.{columns, answer_of, answer_of-Answer, rows}
use anfra.Query.Bounds.{Limits, ResultBounds, too_many_rows}
use anfra.Query.Bounds.Exact.{cut, run_rows, stream_exact}
use anfra.Query.Paging.{QueryRun, DataSource}
use anfra.Query.Paging.Batches.{batch_row, flush}
use anfra.Query.Paging.Batches.Exact.{AreFilled, concat, tallied, counted, emit_all, batches_sent}

abbrev tenant_name : String
tenant_name = "acme"

abbrev acme : DataSource
acme = record { tenant = tenant_name; answer = λ sql t n. (answer_of (cut t rows), end_of_answer) }

acme_named : tenant_name ≢ ""
acme_named e = absurd (ground (arith, (eq_iff tenant_name "").1 e))

abbrev limits : Limits
limits = record { max_result_rows = 50; max_result_bytes = 0; max_page_bytes = 1_000 }

abbrev one_page : {E : Type 0} → QueryRun E
one_page = record { compiled = ok ("select 1", "1"); page_size = 1; limit = none; limits = limits }

abbrev bytes_of : Row → ℕ
bytes_of r = 11

abbrev keep : Row → List Row → Result String (List Row)
keep r kept = ok (kept ++ r ∷ [])

abbrev pass : Header → List Row → Result String (List Row)
pass c kept = ok kept

abbrev one_row : ResultBounds
one_row = record { truncate = none; max_rows = 1; max_bytes = 1_000 }

stream_exact_example :
    anfra.Query.Bounds.stream tenant_name
      (λ t n. (answer_of (cut t rows), end_of_answer))
      one_row
      pass
      keep
      []
    ≡ err (too_many_rows 1)
stream_exact_example =
    stream_exact pass keep tenant_name (λ t n. (answer_of (cut t rows), end_of_answer)) one_row
      columns rows [] acme_named (λ t. (answer_of-Answer (cut t rows), refl))

-- Rows are sent, but for a batch of none.
abbrev record_batch : List Row → List (List Row) → Result String (List (List Row))
record_batch b sent = if is_nil b then err "none" else ok (sent ++ b ∷ [])

batches_sent_example :
    (bs : List (List Row)) × (concat bs ≡ rows)
    × AreFilled bytes_of bs
    × (tallied (
          run_rows
            (batch_row bytes_of record_batch)
            rows
            (record { batch = []; size = 0; count = 0; events = [] })
          >>= flush bytes_of record_batch)
        ≡ counted 2 (emit_all record_batch bs []))
batches_sent_example = batches_sent bytes_of record_batch rows []
