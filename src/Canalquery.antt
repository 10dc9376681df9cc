-- ===== src/Canalquery.antt =====
-- internal/sidecar/canalquery/client.go: `Stream`, the client's side of canal-query's streamed
-- answer, and `Execute`. A line of the answer stands as its first byte and its JSON have it read.
pub mod Grammar
pub mod Whole
pub mod Tests
use anfra.Prelude.{
  ℕ, String, Bool, true, false, not, ◌&&◌, ◌||◌, Option, none, some, List, [], ◌∷◌, ◌++◌, str_eq,
  ◌==◌, if◌then◌else◌, length, is_nil, has_prefix, Result, ok, err, ◌>>=◌, ◌>>◌, require,
}

pub record Progress : Type 0 where
  pub kind : String
  pub at_ms : ℕ
  pub step : String
  pub dw_query_id : String
  pub dw_bytes_processed : Option ℕ
  pub attempt : ℕ

pub record Header : Type 0 where
  pub fields : List String
  pub types : List String
  pub arrow_types : List String

-- A row as canal wrote it.
abbrev pub Row : Type 0
Row = String

-- `canalquery.Error`
pub record CanalError : Type 0 where
  pub message : String
  pub type : String
  pub scope : String
  pub cause : String

-- `streamObject`, with the error object where it is not empty.
pub record StreamObject : Type 0 where
  pub progress : Bool
  pub header : Bool
  pub columns : Header
  pub trailer : Bool
  pub error : Option CanalError

-- A trimmed line: empty; an object, with its reading as `Progress`, none where it has none; a line
-- that starts like an object and is none; a JSON array; or anything else.
pub data Line : Type 0 where
  blank : Line
  object : StreamObject → Option Progress → Line
  broken : String → Line
  array : Row → Line
  junk : String → Line

-- How the scanner stopped: at the end, at a row over its buffer, or on a failed read.
pub data Ending : Type 0 where
  end_of_answer too_long unreachable : Ending

-- What `Stream` fails with; `handler e` is an error of the handler's own.
pub data Failure (E : Type 0) : Type 0 where
  handler : E → Failure E
  canal : CanalError → Failure E
  no_tenant after_trailer not_an_answer unreadable_progress no_header second_header : Failure E
  arrow_mismatch early_row bad_row no_trailer read_failed : Failure E

-- `Handler`, over its own state. Progress and Header may be nil.
pub record Handler (S E : Type 0) : Type 0 where
  pub progress : Option (Progress → S → Result E S)
  pub header : Option (Header → S → Result E S)
  pub row : Row → S → Result E S

abbrev pub bad_arrow_types : Header → Bool
bad_arrow_types c = not (is_nil c.arrow_types) && not (length c.arrow_types == length c.fields)

abbrev pub is_blank_line : Line → Bool
is_blank_line blank = true
is_blank_line _ = false

abbrev pub is_end : Ending → Bool
is_end end_of_answer = true
is_end _ = false

module _ {S E : Type 0} where
  -- A handler's own error, as it is.
  abbrev pub own : Result E S → Result (Failure E) S
  own (ok s) = ok s
  own (err e) = err (handler e)

  abbrev pub call_header : Handler S E → Header → S → Result (Failure E) S
  call_header h columns s = elim h.header [ none ↦ ok s | some f ↦ own (f columns s) ]

  call_progress : Handler S E → Option Progress → S → Result (Failure E) S
  call_progress h p s = elim h.progress [
    | none ↦ ok s
    | some f ↦ elim p [ none ↦ err unreadable_progress | some p' ↦ own (f p' s) ]
  ]

  -- One object: whether a header has come and whether the trailer has, and the handler's state.
  read_object :
      Handler S E → StreamObject → Option Progress → Bool → S → Result (Failure E) (Bool × Bool × S)
  unfolding call_progress
  read_object h o p headed s =
      if o.progress
      then (call_progress h p s >>= λ s'. ok (headed, false, s'))
      else if o.trailer
      then elim o.error [
        | some e ↦ err (canal e)
        | none ↦ if headed then ok (true, true, s) else err no_header
      ]
      else if o.header
      then (if headed
          then err second_header
          else if bad_arrow_types o.columns
          then err arrow_mismatch
          else (call_header h o.columns s >>= λ s'. ok (true, false, s')))
      else err not_an_answer

  -- One line that is not blank, before the trailer.
  read_line : Handler S E → Line → Bool → S → Result (Failure E) (Bool × Bool × S)
  unfolding read_object
  read_line h blank headed s = ok (headed, false, s)
  read_line h (object o p) headed s = read_object h o p headed s
  read_line h (broken t) headed s = err not_an_answer
  read_line h (array r) headed s =
      if headed then (own (h.row r s) >>= λ s'. ok (true, false, s')) else err early_row
  read_line h (junk t) headed s = if headed then err bad_row else err early_row

  -- The scanner's loop after the trailer.
  read_rest : List Line → S → Result (Failure E) S
  read_rest [] s = ok s
  read_rest (l ∷ ls) s =
      let rest = read_rest ls s in if is_blank_line l then rest else err after_trailer

  -- The scanner's loop: the state at the trailer, or none where the lines end before it.
  pub read_lines : Handler S E → List Line → Bool → S → Result (Failure E) (Option S)
  unfolding read_line read_rest
  read_lines h [] headed s = ok none
  read_lines h (l ∷ ls) headed s = read_line h l headed s >>= λ (headed', ended, s'). elim ended [
    | true ↦ read_rest ls s' >>= λ s''. ok (some s'')
    | false ↦ read_lines h ls headed' s'
  ]

  -- `Stream`, of an answer's lines, for the client's tenant.
  pub stream : String → Handler S E → List Line → Ending → S → Result (Failure E) S
  unfolding read_lines
  stream tenant h ls ending s = do
    require (not (str_eq tenant "")) no_tenant
    last ← read_lines h ls false s
    require (is_end ending) read_failed
    elim last [ some t ↦ ok t | none ↦ err no_trailer ]

-- `Result`, and the handler of `Execute`, which keeps a result whole. It never fails.
pub record QueryResult : Type 0 where
  pub header : Header
  pub rows : List Row

abbrev pub no_result : QueryResult
no_result = record { header = record { fields = []; types = []; arrow_types = [] }; rows = [] }

abbrev pub keep_header : Header → QueryResult → Result ⊥ QueryResult
keep_header c r = ok (record r { header = c })

abbrev pub keep_row : Row → QueryResult → Result ⊥ QueryResult
keep_row row r = ok (record r { rows = r.rows ++ row ∷ [] })

-- `Execute`
pub execute : String → List Line → Ending → Result (Failure ⊥) QueryResult
unfolding stream
execute tenant ls ending =
    stream tenant (record { progress = none; header = some keep_header; row = keep_row }) ls ending
      no_result

-- A client's `pool_options`, by whether pooling is enabled.
pub record Statement : Type 0 where
  pub dbtype : String
  -- the connection's path, empty where it has none
  pub path : String
  pub unpooled : Bool

-- `duckdbInMemory`
pub duckdb_in_memory : String → Bool
duckdb_in_memory path =
    str_eq path "" || str_eq path ":memory:" || has_prefix path ":memory:?" || has_prefix path "?"

-- `poolFor`
pub pool_for : Bool → Statement → Bool
unfolding duckdb_in_memory
pool_for pooling st =
    if st.unpooled || (str_eq st.dbtype "duckdb" && duckdb_in_memory st.path)
    then false
    else pooling
