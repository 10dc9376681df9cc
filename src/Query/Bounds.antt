-- ===== src/Query/Bounds.antt =====
-- internal/query/query.go: how much of a query's result is fetched, and `stream`, which fetches it
-- through canal-query's client. A limit of `NoLimit` is none. The sink here is told the header and
-- the rows; progress, which it is told besides, is not modelled.
pub mod Exact
use anfra.Prelude.{
  ℕ, ◌+◌, ◌*◌, ◌^◌, String, Bool, true, false, ◌&&◌, ◌||◌, Option, none, some, List, str_eq, ltb,
  leb, ◌==◌, if◌then◌else◌, Result, ok, err,
}
use anfra.Canalquery
use anfra.Canalquery.{Row, Header, Line, Ending, Failure}

pub record Limits : Type 0 where
  pub max_result_rows : ℕ
  pub max_result_bytes : ℕ
  pub max_page_bytes : ℕ

abbrev pub default_max_result_rows : ℕ
default_max_result_rows = 1_000_000

abbrev pub default_max_result_bytes : ℕ
default_max_result_bytes = 256 * 2 ^ 20

abbrev pub default_max_page_bytes : ℕ
default_max_page_bytes = 16 * 2 ^ 20

-- `ResultRows`, `ResultBytes` and `PageBytes`
unfoldable pub result_rows : Limits → ℕ
result_rows l = if ltb 0 l.max_result_rows then l.max_result_rows else default_max_result_rows

pub result_bytes : Limits → ℕ
result_bytes l = if ltb 0 l.max_result_bytes then l.max_result_bytes else default_max_result_bytes

unfoldable pub page_bytes : Limits → ℕ
page_bytes l = if ltb 0 l.max_page_bytes then l.max_page_bytes else default_max_page_bytes

-- `ResultBounds`; a maximum of zero is none.
pub record ResultBounds : Type 0 where
  pub truncate : Option ℕ
  pub max_rows : ℕ
  pub max_bytes : ℕ

unfoldable pub bounded : Option ℕ → Limits → ResultBounds
unfolding result_rows result_bytes
bounded truncate l = record {
  truncate = truncate;
  max_rows = result_rows l;
  max_bytes = result_bytes l;
}

pub unbounded : ResultBounds
unbounded = record { truncate = none; max_rows = 0; max_bytes = 0 }

abbrev within_rows : Option ℕ → ℕ → Bool
within_rows none max_rows = false
within_rows (some limit) max_rows = leb limit max_rows

-- `rowCap`: what canal is asked for, and whether that is a row past the maximum.
pub row_cap : Option ℕ → ℕ → Option ℕ × Bool
row_cap limit max_rows =
    if max_rows == 0 || within_rows limit max_rows
    then (limit, false)
    else (some (max_rows + 1), true)

-- What a row's handler fails with: the row past the maximum, or the sink's own error.
pub data RowError (E : Type 0) : Type 0 where
  too_many : ℕ → RowError E
  sink : E → RowError E

pub data QueryError (E : Type 0) : Type 0 where
  own : E → QueryError E
  too_many_rows too_many_bytes : ℕ → QueryError E
  not_executed : Failure (RowError E) → QueryError E

-- `TypeResultTooLarge`
abbrev pub result_too_large : String
result_too_large = "ResultTooLarge"

module _ {S E : Type 0} where
  abbrev pub of_sink : ℕ → Result E S → Result (RowError E) (S × ℕ)
  of_sink n (ok s) = ok (s, n)
  of_sink n (err e) = err (sink e)

  -- `h.Row` where the result is capped, with its count of the rows before.
  pub guarded : Bool → ℕ → (Row → S → Result E S) → Row → S × ℕ → Result (RowError E) (S × ℕ)
  guarded capped max_rows row r (s, n) =
      if capped && ltb max_rows (n + 1) then err (too_many max_rows) else of_sink (n + 1) (row r s)

  -- What `stream` answers for canal's. A sink's own error is handed on: the text that the source puts
  -- round one that has no code is not modelled.
  abbrev pub settled : ℕ → Result (Failure (RowError E)) (S × ℕ) → Result (QueryError E) S
  settled max_bytes (ok (s, n)) = ok s
  settled max_bytes (err (Failure.handler (too_many n))) = err (too_many_rows n)
  settled max_bytes (err (Failure.handler (sink e))) = err (own e)
  settled max_bytes (err (Failure.canal e)) =
      if str_eq e.type result_too_large
      then err (too_many_bytes max_bytes)
      else err (not_executed (Failure.canal e))
  settled max_bytes (err e) = err (not_executed e)

  -- The sink of `stream`: what it does with the header and with each row.
  abbrev pub counted_header :
      (Header → S → Result E S) → Header → S × ℕ → Result (RowError E) (S × ℕ)
  counted_header head c (s, n) = of_sink n (head c s)

  -- `stream`, for a data source that has a connection, which `on` looks for: `canal` is its answer to a
  -- statement, for the rows it is to be truncated at and the bytes it is to fail past.
  pub stream :
      String
      → (Option ℕ → ℕ → List Line × Ending)
      → ResultBounds
      → (Header → S → Result E S)
      → (Row → S → Result E S)
      → S
      → Result (QueryError E) S
  unfolding row_cap guarded
  stream tenant canal b head row s =
      let (truncate, capped) = row_cap b.truncate b.max_rows in
      let (lines, ending) = canal truncate b.max_bytes in
      settled b.max_bytes (
        Canalquery.stream tenant
          (record {
            progress = none;
            header = some (counted_header head);
            row = guarded capped b.max_rows row;
          })
          lines ending (s, 0))
