-- ===== src/Query/Input/Accepted.antt =====
-- internal/command/query/input.go: which inputs are accepted, and what their runs are.
use anfra.Prelude.{
  ℕ, ◌<◌, ◌≡◌, ◌≢◌, ◌↔◌, ◌⊎◌, inl, inr, true, false, none, some, arith, str_eq, eq_iff, Bool-cases,
  is_blank,
}
use anfra.Query.Input.{QueryRunInput, Outside, check, run, has_limit}

-- What an accepted AQL run is: a dataset and no data source, a page only with its size, no page
-- size beside a limit, and a time zone that is one.
pub record IsAqlRun (o : Outside) (q : QueryRunInput) : Type 0 where
  pub no_source : q.data_source ≡ ""
  pub dataset_named : is_blank q.dataset ≡ false
  pub page_sized : (q.page ≡ 0) ⊎ (q.page_size ≢ 0)
  pub unlimited : (q.page_size ≡ 0) ⊎ (has_limit (o.extract_limit q.query) ≡ false)
  pub zone : (q.timezone ≡ "") ⊎ ((o.is_location q.timezone ≡ true) × (q.timezone ≢ "Local"))

-- What an accepted SQL run is: a data source and no dataset, and nothing that shapes an AQL run.
pub record IsSqlRun (q : QueryRunInput) : Type 0 where
  pub no_dataset : q.dataset ≡ ""
  pub source_named : is_blank q.data_source ≡ false
  pub no_input : q.has_input ≡ false
  pub no_page : (q.page ≡ 0) × (q.page_size ≡ 0)
  pub no_zone : q.timezone ≡ ""

check_sql_iff :
    (o : Outside) (q : QueryRunInput) → str_eq q.lang "sql" ≡ true → (check o q ≡ none) ↔ IsSqlRun q
unfolding check
check_sql_iff o q sql = ground (arith, eq_iff q.dataset "", eq_iff q.timezone "")

check_aql_iff :
    (o : Outside) (q : QueryRunInput)
    → str_eq q.lang "sql" ≡ false
    → (check o q ≡ none) ↔ IsAqlRun o q
unfolding check
check_aql_iff o q aql_ =
    ground (arith, eq_iff q.data_source "", eq_iff q.timezone "", eq_iff q.timezone "Local")

-- The check passes exactly for the runs that its language allows: in SQL, one with a data source and
-- no dataset, input, page or time zone; in any other, one with a dataset and no data source, a page
-- only with its size, no page size beside a limit, and a time zone that is known and not "Local".
pub check_iff :
    (o : Outside) (q : QueryRunInput)
    → (q.lang ≡ "sql" → (check o q ≡ none) ↔ IsSqlRun q)
      × (q.lang ≢ "sql" → (check o q ≡ none) ↔ IsAqlRun o q)
check_iff o q = elim (Bool-cases (str_eq q.lang "sql")) [
  | inl sql ↦ (λ _. check_sql_iff o q sql, λ other. absurd (other ((eq_iff q.lang "sql").0 sql)))
  | inr aql_ ↦ (λ e. absurd (ground (arith, eq_iff q.lang "sql")), λ _. check_aql_iff o q aql_)
]

-- A run that the check accepted and that is not paged asked for no page and no page size; one that
-- is paged has the page size asked for, and the page asked for or else the first; and a SQL run has
-- nothing beside its text.
pub run-check :
    (o : Outside) (q : QueryRunInput)
    → check o q ≡ none
    → ((run q).pagination ≡ none → (q.page ≡ 0) × (q.page_size ≡ 0))
      × ((p n : ℕ)
          → (run q).pagination ≡ some (p, n)
          → (0 < p) × (n ≡ q.page_size) × (q.page ≡ 0 → p ≡ 1) × (0 < q.page → p ≡ q.page))
      × (q.lang ≡ "sql" → run q ≡ record { timezone = ""; has_input = false; pagination = none })
unfolding check run
run-check o q h = ground (arith, eq_iff q.lang "sql", eq_iff q.dataset "", eq_iff q.timezone "")
