-- ===== src/Query/Paging/Page/Exact.antt =====
-- internal/command/query/run.go: what a page holds.
use anfra.Prelude.{
  ℕ, zero, suc, ◌+◌, String, Bool, not, ◌&&◌, ◌||◌, Option, none, some, List, [], ◌∷◌, ◌++◌, ltb,
  leb, if◌then◌else◌, length, take, Result, ok, err, ◌>>=◌,
}
use anfra.Canalquery.{Row, Header}
use anfra.Query.Bounds.{page_bytes, QueryError}
use anfra.Query.Paging.{QueryRun, RunError, as_is, plain, max_page_size}
use anfra.Query.Paging.Page.{QueryPage, empty_page, PageError, page_too_large, page_rows, full_page}

-- The bytes of rows, `len` being those of one.
abbrev pub bytes : (Row → ℕ) → List Row → ℕ
bytes len [] = 0
bytes len (r ∷ rs) = len r + bytes len rs

-- Whether a page says that there may be more rows, of a result that holds `all`.
abbrev pub more_rows : ℕ → Option ℕ → List Row → Bool
more_rows zero (some limit) all = not (leb limit max_page_size) && ltb max_page_size (length all)
more_rows zero none all = ltb max_page_size (length all)
more_rows (suc size) limit all = leb (suc size) (length all)

-- What a page's rows come to, with its SQL, AQL and header.
abbrev opened : String → String → Header → QueryPage
opened sql aql c = record empty_page { sql = sql; aql = aql; header = some c }

module _ {E : Type 0} (len : Row → ℕ) where
  -- A page of these rows, unless they hold too many bytes.
  abbrev settle : ℕ → QueryPage → List Row → ℕ → Bool → Result (PageError E) QueryPage
  settle max_bytes r rows size more =
      if leb size max_bytes
      then ok (record r { records = rows; size = size; has_more = more })
      else err (page_too_large max_bytes)

  abbrev filled : ℕ → ℕ → List Row → QueryPage → Result (PageError E) QueryPage
  filled k max_bytes rows r =
      settle max_bytes r (r.records ++ take k rows) (r.size + bytes len (take k rows))
        (r.has_more || ltb k (length rows))

  -- The page that `page` promises: the first rows, or that they are too large.
  abbrev pub promised_page :
      QueryRun (PageError E)
      → String
      → String
      → Header
      → List Row
      → Result (RunError (PageError E)) QueryPage
  promised_page q sql aql c all =
      let (keep, _) = page_rows q.page_size q.limit in
      let size = bytes len (take keep all) in
      if leb size (page_bytes q.limits)
      then ok (record {
        sql = sql;
        aql = aql;
        header = some c;
        records = take keep all;
        size = size;
        has_more = more_rows q.page_size q.limit all;
      })
      else err (as_is (QueryError.own (page_too_large (page_bytes q.limits))))

  -- What the page's end makes of rows that have been kept, and of whether one came after them.
  ended :
      QueryRun (PageError E)
      → QueryPage
      → List Row
      → Bool
      → Result (RunError (PageError E)) QueryPage
  ended q r rows more = plain (settle (page_bytes q.limits) r rows (bytes len rows) more) >>= λ k.
      ok (full_page q.page_size k)
