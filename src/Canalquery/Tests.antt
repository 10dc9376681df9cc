-- ===== src/Canalquery/Tests.antt =====
-- An answer of two rows, after a report of progress.
use anfra.Prelude.{
  String, ◌≡◌, refl, ◌≢◌, ◌↔◌, true, false, none, List, [], ◌∷◌, ◌++◌, Result, ok, ◌>>=◌,
}
use anfra.Canalquery.{
  Header, Row, StreamObject, Line, end_of_answer, blank, object, array, stream, execute,
}
use anfra.Canalquery.Grammar.{
  Body, Answer, closes, gives, waits, heads, quiet, fold_rows, stream_iff,
}
use anfra.Canalquery.Whole.{execute_iff}

abbrev client_tenant : String
client_tenant = "acme"

abbrev pub columns : Header
columns = record {
  fields = "status" ∷ "total" ∷ [];
  types = "text" ∷ "numeric" ∷ [];
  arrow_types = [];
}

abbrev no_columns : Header
no_columns = record { fields = []; types = []; arrow_types = [] }

abbrev header_object : StreamObject
header_object = record {
  progress = false;
  header = true;
  columns = columns;
  trailer = false;
  error = none;
}

abbrev trailer_object : StreamObject
trailer_object = record {
  progress = false;
  header = false;
  columns = no_columns;
  trailer = true;
  error = none;
}

abbrev progress_object : StreamObject
progress_object = record {
  progress = true;
  header = false;
  columns = no_columns;
  trailer = false;
  error = none;
}

abbrev body_of : List Row → List Line
body_of [] = object trailer_object none ∷ blank ∷ []
body_of (r ∷ rs) = array r ∷ body_of rs

-- An answer that holds these rows.
abbrev pub answer_of : List Row → List Line
answer_of rows = object progress_object none ∷ object header_object none ∷ body_of rows

body_of-Body : (rows : List Row) → Body (body_of rows) rows
body_of-Body [] = closes refl (refl, tt)
body_of-Body (r ∷ rs) = gives r (body_of-Body rs)

pub answer_of-Answer : (rows : List Row) → Answer (answer_of rows) columns rows
answer_of-Answer rows = waits refl (
    heads header_object none (record { kind = (refl, refl, refl); same = refl; typed = refl })
      (body_of-Body rows))

abbrev pub rows : List Row
rows = "[\"open\", 3]" ∷ "[\"paid\", 5]" ∷ []

abbrev keep : Row → List Row → Result String (List Row)
keep r kept = ok (kept ++ r ∷ [])

stream_iff_example :
    (stream client_tenant (quiet none keep) (answer_of rows) end_of_answer [] ≡ ok rows) ↔ (
      (client_tenant ≢ "")
      × (end_of_answer ≡ end_of_answer)
      × ((c : Header) × (got : List Row) × Answer (answer_of rows) c got
          × ((ok [] >>= fold_rows none keep got) ≡ ok rows)))
stream_iff_example = stream_iff none keep client_tenant (answer_of rows) end_of_answer [] rows

execute_iff_example :
    (execute client_tenant (answer_of rows) end_of_answer
      ≡ ok (record { header = columns; rows = rows }))
    ↔ ((client_tenant ≢ "")
        × (end_of_answer ≡ end_of_answer)
        × Answer (answer_of rows) columns rows)
execute_iff_example =
    execute_iff client_tenant (answer_of rows) end_of_answer
      (record { header = columns; rows = rows })
