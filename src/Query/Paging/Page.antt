-- ===== src/Query/Paging/Page.antt =====
-- internal/command/query/run.go: `page`, a query answered as one page.
pub mod Exact
use anfra.Prelude.{
  ℕ, zero, suc, ◌+◌, String, Bool, true, false, Option, none, some, List, [], ◌∷◌, ◌++◌, ltb, leb,
  ◌==◌, if◌then◌else◌, length, Result, ok, err, ◌>>=◌,
}
use anfra.Canalquery.{Row, Header}
use anfra.Query.Bounds.{page_bytes}
use anfra.Query.Paging.{QueryRun, DataSource, Sink, RunError, execute, max_page_size}

-- `QueryResult`, without its columns' descriptions and its timings; `size` is the page's bytes.
pub record QueryPage : Type 0 where
  pub sql : String
  pub aql : String
  pub header : Option Header
  pub records : List Row
  pub size : ℕ
  pub has_more : Bool

abbrev pub empty_page : QueryPage
empty_page = record { sql = ""; aql = ""; header = none; records = []; size = 0; has_more = false }

-- What a page fails with, but for the query's own errors: `NewPageTooLarge`.
pub data PageError (E : Type 0) : Type 0 where
  refused : E → PageError E
  page_too_large : ℕ → PageError E

-- How many rows a page keeps, and how many it asks for.
unfoldable pub page_rows : ℕ → Option ℕ → ℕ × Option ℕ
page_rows zero (some limit) =
    if leb limit max_page_size
    then (limit, some limit)
    else (max_page_size, some (max_page_size + 1))
page_rows zero none = (max_page_size, some (max_page_size + 1))
page_rows (suc size) limit = (suc size, none)

-- The end of `page`: with a page size, a full page may have more after it.
abbrev pub full_page : ℕ → QueryPage → QueryPage
full_page size r = if ltb 0 size then record r { has_more = length r.records == size } else r

module _ {E : Type 0} (len : Row → ℕ) where
  -- A row of the page; `len` is a row's bytes.
  pub page_row : ℕ → ℕ → Row → QueryPage → Result (PageError E) QueryPage
  page_row keep max_bytes row r =
      if length r.records == keep
      then ok (record r { has_more = true })
      else if ltb max_bytes (r.size + len row)
      then err (page_too_large max_bytes)
      else ok (record r { records = r.records ++ row ∷ []; size = r.size + len row })

  abbrev pub page_sink : ℕ → ℕ → Sink QueryPage (PageError E)
  page_sink keep max_bytes = record {
    compiled = λ sql aql r. ok (record r { sql = sql; aql = aql });
    header = λ c r. ok (record r { header = some c });
    row = page_row keep max_bytes;
  }

  -- `page`
  pub page : QueryRun (PageError E) → DataSource → Result (RunError (PageError E)) QueryPage
  page q source =
      let (keep, truncate) = page_rows q.page_size q.limit in
      execute q source truncate (page_sink keep (page_bytes q.limits)) empty_page >>= λ r.
      ok (full_page q.page_size r)
