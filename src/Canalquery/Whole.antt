-- ===== src/Canalquery/Whole.antt =====
-- internal/sidecar/canalquery/client.go: a result held whole.
use anfra.Prelude.{String, ◌≡◌, refl, sym, ◌∙◌, ◌≢◌, ◌↔◌, some, List, [], ◌∷◌, ◌++◌, Result, ok}
use mathlib.Core.Path.{subst}
use mathlib.Core.List.{append-nil, append_assoc}
use anfra.Canalquery.{
  Row, Header, Line, Ending, end_of_answer, QueryResult, no_result, keep_header, keep_row, execute,
  Failure,
}
use anfra.Canalquery.Grammar.{Answer, fold_rows, stream_iff}

fold_rows-keep :
    (rows : List Row) (c : Header) (kept : List Row)
    → fold_rows {S = QueryResult} {E = ⊥}
        (some keep_header)
        keep_row
        rows
        (record { header = c; rows = kept })
      ≡ ok (record { header = c; rows = kept ++ rows })
fold_rows-keep [] c kept = rw (append-nil kept) refl
fold_rows-keep (r ∷ rs) c kept =
    fold_rows-keep rs c (kept ++ r ∷ []) ∙ rw (append_assoc kept (r ∷ []) rs) refl

-- `execute` answers a result exactly when the client has a tenant, the answer was read to its end and
-- follows the grammar; and the result is then the answer's header and all of its rows, in order.
pub execute_iff :
    (tenant : String) (ls : List Line) (ending : Ending) (r : QueryResult)
    → (execute tenant ls ending ≡ ok r)
      ↔ ((tenant ≢ "") × (ending ≡ end_of_answer) × Answer ls r.header r.rows)
unfolding execute
execute_iff tenant ls ending r = (to, from)
  where
    folded :
        (c : Header) (rows : List Row)
        → fold_rows {S = QueryResult} {E = ⊥}
            (some keep_header)
            keep_row
            rows
            (record no_result { header = c })
          ≡ ok (record { header = c; rows = rows })
    folded c rows = fold_rows-keep rows c []

    result_inj :
        (x y : QueryResult) → ◌≡◌ {A = Result (Failure ⊥) QueryResult} (ok x) (ok y) → x ≡ y
    result_inj x y e = cc

    to :
        execute tenant ls ending ≡ ok r
        → (tenant ≢ "") × (ending ≡ end_of_answer) × Answer ls r.header r.rows
    to e =
        let (named, whole, (c, rows, a, f)) =
          (stream_iff (some keep_header) keep_row tenant ls ending no_result r).0 e in
        (
          named,
          whole,
          subst (λ (x : QueryResult). Answer ls x.header x.rows)
              (result_inj _ r (sym (folded c rows) ∙ f)) a,
        )

    from :
        (tenant ≢ "") × (ending ≡ end_of_answer) × Answer ls r.header r.rows
        → execute tenant ls ending ≡ ok r
    from (named, whole, a) =
        (stream_iff (some keep_header) keep_row tenant ls ending no_result r).1
          (named, whole, (r.header, r.rows, a, folded r.header r.rows))
