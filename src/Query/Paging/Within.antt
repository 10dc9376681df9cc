-- ===== src/Query/Paging/Within.antt =====
-- internal/command/query/run.go: `execute`, where the result is within the host's maximum.
use anfra.Prelude.{
  ℕ, ◌≤◌, String, ◌≡◌, refl, ap, ◌∙◌, ◌≢◌, inl, inr, Option, List, ◌==◌, le→leb, Bool-cases, length,
  Result, ok, err, ◌>>=◌, Result-cases,
}
use anfra.Canalquery.{Row, Header, end_of_answer}
use anfra.Canalquery.Grammar.{Answer}
use anfra.Query.Bounds.{result_rows, bounded, ResultBounds}
use anfra.Query.Bounds.Exact.{cut, run_rows, lifted, promised, stream_exact}
use anfra.Query.Paging.{QueryRun, DataSource, Sink, plain, told, execute}

-- A data source that answers each request for rows of a statement to its end, cut where it is asked.
abbrev pub Answers : DataSource → String → Header → List Row → Type 0
Answers source sql c all =
    (t : Option ℕ) (n : ℕ)
    → Answer (source.answer sql t n).0 c (cut t all) × ((source.answer sql t n).1 ≡ end_of_answer)

told-lifted : {S E : Type 0} (r : Result E S) → told (lifted r) ≡ plain r
told-lifted (ok s) = refl
told-lifted (err e) = refl

promised-within :
    {S E : Type 0} (head : Header → S → Result E S) (row : Row → S → Result E S) (b : ResultBounds)
    (c : Header) (all : List Row) (s : S)
    → length (cut b.truncate all) ≤ b.max_rows
    → promised head row b c all s ≡ lifted (head c s >>= run_rows row (cut b.truncate all))
promised-within head row b c all s h = elim (Bool-cases (b.max_rows == 0)) [
  | inl free ↦ rw free refl
  | inr bound ↦ rw bound (rw (le→leb _ _ h) refl)
]

-- A sink of a compiled query is told its SQL, its header and its rows, and no more.
pub execute-within :
    {S E : Type 0} (q : QueryRun E) (source : DataSource) (truncate : Option ℕ) (k : Sink S E)
    (sql aql : String) (c : Header) (all : List Row) (s : S)
    → source.tenant ≢ ""
    → q.compiled ≡ ok (sql, aql)
    → Answers source sql c all
    → length (cut truncate all) ≤ result_rows q.limits
    → execute q source truncate k s
      ≡ plain (k.compiled sql aql s >>= λ t. k.header c t >>= run_rows k.row (cut truncate all))
unfolding execute bounded
execute-within q source truncate k sql aql c all s named ready answers within =
    rw ready (elim (Result-cases (k.compiled sql aql s)) [
      | inl (e, failed) ↦ rw failed refl
      | inr (t, went) ↦ rw went (
          ap told (
            stream_exact k.header k.row source.tenant (source.answer sql)
              (bounded truncate q.limits) c all t named (λ n. answers n _)
            ∙ promised-within k.header k.row (bounded truncate q.limits) c all t within)
          ∙ told-lifted (k.header c t >>= run_rows k.row (cut truncate all)))
    ])
