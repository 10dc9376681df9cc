-- ===== src/Query/Paging/Batches.antt =====
-- internal/command/query/run.go: the batches in which `stream` sends a query's rows.
pub mod Exact
use anfra.Prelude.{
  ℕ, ◌+◌, ◌||◌, List, [], ◌∷◌, ◌++◌, leb, if◌then◌else◌, length, is_nil, Result, ok, ◌>>=◌,
}
use anfra.Canalquery.{Row}
use anfra.Query.Paging.{batch_rows, batch_bytes}

-- What `stream` keeps of its rows: the batch under way, its bytes, the rows so far, and the state of
-- the events it sends.
pub record Batching (S : Type 0) : Type 0 where
  pub batch : List Row
  pub size : ℕ
  pub count : ℕ
  pub events : S

-- `len` is a row's bytes, and `emit` sends rows as an event.
module _ {S E : Type 0} (len : Row → ℕ) (emit : List Row → S → Result E S) where
  -- `stream`'s flush
  pub flush : Batching S → Result E (Batching S)
  flush b =
      if is_nil b.batch
      then ok b
      else (emit b.batch b.events >>= λ s. ok (record b { batch = []; size = 0; events = s }))

  -- What `stream`'s sink does with a row.
  pub batch_row : Row → Batching S → Result E (Batching S)
  unfolding flush
  batch_row row b =
      let b' = record b {
        batch = b.batch ++ row ∷ [];
        size = b.size + len row;
        count = b.count + 1;
      } in
      if leb batch_rows (length b'.batch) || leb batch_bytes b'.size then flush b' else ok b'
