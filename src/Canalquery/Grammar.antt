-- ===== src/Canalquery/Grammar.antt =====
-- The answers that `Stream` takes, as a grammar of their lines, and what a handler is given of one.
use anfra.Prelude.{
  String, ◌≡◌, refl, sym, ap, ◌∙◌, ◌≢◌, ◌↔◌, ◌⊎◌, inl, inr, Bool, true, false, not, ◌&&◌, Option,
  none, some, List, [], ◌∷◌, arith, str_eq, eq_iff, Bool-cases, is_some, All, Result, ok, err,
  ◌>>=◌, require, >>=-eq-ok, Result-cases,
}
use mathlib.Core.Path.{subst}
use anfra.Canalquery.{
  Header, Row, Progress, StreamObject, Line, blank, object, broken, array, junk, Ending,
  end_of_answer, too_long, unreachable, Failure, Handler, own, call_header, call_progress,
  bad_arrow_types, read_object, read_line, read_rest, read_lines, is_end, stream, no_tenant,
  no_trailer, read_failed,
}

-- A line that says nothing of the result: an empty one, or one that reports progress.
abbrev pub is_aside : Line → Bool
is_aside blank = true
is_aside (object o p) = o.progress
is_aside _ = false

-- A trailer with no error.
abbrev pub is_trailer : Line → Bool
is_trailer (object o p) = not o.progress && o.trailer && not (is_some o.error)
is_trailer _ = false

-- What follows a header: rows and asides, then a trailer, then blank lines alone.
pub data Body : List Line → List Row → Type 0 where
  closes :
      {l : Line} {ls : List Line}
      → is_trailer l ≡ true
      → All (λ (k : Line). k ≡ blank) ls
      → Body (l ∷ ls) []
  passes :
      {l : Line} {ls : List Line} {rows : List Row}
      → is_aside l ≡ true
      → Body ls rows
      → Body (l ∷ ls) rows
  gives :
      {ls : List Line} {rows : List Row} (r : Row) → Body ls rows → Body (array r ∷ ls) (r ∷ rows)

-- A header's object, whose Arrow types, if it has any, are as many as its fields.
pub record IsHeader (o : StreamObject) (columns : Header) : Type 0 where
  pub kind : (o.progress ≡ false) × (o.trailer ≡ false) × (o.header ≡ true)
  pub same : o.columns ≡ columns
  pub typed : bad_arrow_types o.columns ≡ false

-- An answer: asides, a header, and its body.
pub data Answer : List Line → Header → List Row → Type 0 where
  waits :
      {l : Line} {ls : List Line} {c : Header} {rows : List Row}
      → is_aside l ≡ true
      → Answer ls c rows
      → Answer (l ∷ ls) c rows
  heads :
      {ls : List Line} {c : Header} {rows : List Row} (o : StreamObject) (p : Option Progress)
      → IsHeader o c
      → Body ls rows
      → Answer (object o p ∷ ls) c rows

module _ {S E : Type 0} (on_header : Option (Header → S → Result E S))
    (on_row : Row → S → Result E S) where
  -- A handler that is not told of progress.
  abbrev pub quiet : Handler S E
  quiet = record { progress = none; header = on_header; row = on_row }

  -- The rows given to a handler one by one, until it fails.
  abbrev pub fold_rows : List Row → S → Result (Failure E) S
  fold_rows [] s = ok s
  fold_rows (r ∷ rs) s = own (on_row r s) >>= λ s'. fold_rows rs s'

  read_rest_lem :
      (ls : List Line) (s : S)
      → All (λ (k : Line). k ≡ blank) ls
      → read_rest {S = S} {E = E} ls s ≡ ok s
  unfolding read_rest
  read_rest_lem [] s h = refl
  read_rest_lem (l ∷ ls) s (e, h) = rw (e, read_rest) (read_rest_lem ls s h)

  aside_lem :
      (l : Line) (headed : Bool) (s : S)
      → is_aside l ≡ true
      → read_line quiet l headed s ≡ ok (headed, false, s)
  unfolding read_line call_progress
  aside_lem blank headed s e = refl
  aside_lem (object o p) headed s e = ground arith
  aside_lem (broken t) headed s e = cc
  aside_lem (array r) headed s e = cc
  aside_lem (junk t) headed s e = cc

  trailer_lem :
      (l : Line) (s : S) → is_trailer l ≡ true → read_line quiet l true s ≡ ok (true, true, s)
  unfolding read_line
  trailer_lem blank s e = cc
  trailer_lem (object o p) s e = ground arith
  trailer_lem (broken t) s e = cc
  trailer_lem (array r) s e = cc
  trailer_lem (junk t) s e = cc

  -- The loop after one line's reading.
  abbrev after : List Line → Bool × Bool × S → Result (Failure E) (Option S)
  after ls (headed, ended, s) = elim ended [
    | true ↦ read_rest ls s >>= λ t. ok (some t)
    | false ↦ read_lines quiet ls headed s
  ]

  after-going :
      (ls : List Line) (r : Bool × Bool × S) (t : S) (headed : Bool)
      → r.0 ≡ headed
      → r.1 ≡ false
      → after ls r ≡ ok (some t)
      → read_lines quiet ls headed r.2 ≡ ok (some t)
  after-going ls (h, false, s) t headed a b e = ap (λ k. read_lines quiet ls k s) (sym a) ∙ e
  after-going ls (h, true, s) t headed a b e = cc

  after-ended :
      (ls : List Line) (r : Bool × Bool × S) (t : S)
      → r.1 ≡ true
      → after ls r ≡ ok (some t)
      → (u : S) × (read_rest {S = S} {E = E} ls r.2 ≡ ok u)
  after-ended ls (h, false, s) t b e = cc
  after-ended ls (h, true, s) t b e =
      let (u, blanks, _) = >>=-eq-ok (read_rest ls s) _ e in (u, blanks)

  Body-read :
      (ls : List Line) (rows : List Row) (s : S)
      → Body ls rows
      → read_lines quiet ls true s ≡ (fold_rows rows s >>= λ t. ok (some t))
  unfolding read_lines
  Body-read _ _ s (closes {l} {ls} e b) = rw (trailer_lem l s e) (rw (read_rest_lem ls s b) refl)
  Body-read _ _ s (passes {l} {ls} {rows} e b) = rw (aside_lem l true s e) (Body-read ls rows s b)
  Body-read _ _ s (gives {ls} {rows} r b) = elim (Result-cases (on_row r s)) [
    | inl (e, failed) ↦ rw failed refl
    | inr (t, went) ↦ rw went (Body-read ls rows t b)
  ]

  header_lem :
      (o : StreamObject) (p : Option Progress) (c : Header) (s : S)
      → IsHeader o c
      → read_line quiet (object o p) false s ≡ (call_header quiet c s >>= λ t. ok (true, false, t))
  unfolding read_line read_object
  header_lem o p c s v = rw v.kind.0 (
      rw v.kind.1 (
        rw v.kind.2
          (rw v.typed (ap (λ k. call_header quiet k s >>= λ t. ok (true, false, t)) v.same))))

  Answer-read :
      (ls : List Line) (c : Header) (rows : List Row) (s : S)
      → Answer ls c rows
      → read_lines quiet ls false s
        ≡ ((call_header quiet c s >>= fold_rows rows) >>= λ t. ok (some t))
  unfolding read_lines
  Answer-read _ c rows s (waits {l} {ls} e b) =
      rw (aside_lem l false s e) (Answer-read ls c rows s b)
  Answer-read _ c rows s (heads {ls} o p v b) =
      rw (header_lem o p c s v) (headed (call_header quiet c s))
    where
      headed :
          (m : Result (Failure E) S)
          → ((m >>= λ t. ok (true, false, t)) >>= after ls)
            ≡ ((m >>= fold_rows rows) >>= λ t. ok (some t))
      headed (ok t) = Body-read ls rows t b
      headed (err e) = refl

  -- What one line after the header can be, where the reading goes on.
  line-cases :
      (l : Line) (s : S) (r : Bool × Bool × S)
      → read_line quiet l true s ≡ ok r
      → ((is_aside l ≡ true) × (r.0 ≡ true) × (r.1 ≡ false))
        ⊎ (((is_trailer l ≡ true) × (r.1 ≡ true))
            ⊎ ((x : Row) × (l ≡ array x) × (r.0 ≡ true) × (r.1 ≡ false)))
  unfolding read_line read_object
  line-cases blank s r e = inl (refl, cc, cc)
  line-cases (object o p) s r e = ground arith
  line-cases (broken t) s r e = cc
  line-cases (array x) s r e =
      let (t, went, e') = >>=-eq-ok (own (on_row x s)) _ e in inr (inr (x, refl, cc, cc))
  line-cases (junk t) s r e = cc

  rest-blank :
      (ls : List Line) (s t : S)
      → read_rest {S = S} {E = E} ls s ≡ ok t
      → All (λ (k : Line). k ≡ blank) ls
  unfolding read_rest
  rest-blank [] s t e = tt
  rest-blank (blank ∷ ls) s t e = (refl, rest-blank ls s t e)
  rest-blank (object o p ∷ ls) s t e = cc
  rest-blank (broken x ∷ ls) s t e = cc
  rest-blank (array x ∷ ls) s t e = cc
  rest-blank (junk x ∷ ls) s t e = cc

  -- What follows a header, where it is read to its end.
  read-Body :
      (ls : List Line) (s t : S)
      → read_lines quiet ls true s ≡ ok (some t)
      → (rows : List Row) × Body ls rows
  unfolding read_lines
  read-Body [] s t e = cc
  read-Body (l ∷ ls) s t e =
      let (r, read, e') = >>=-eq-ok (read_line quiet l true s) _ e in
      elim (line-cases l s r read) [
        | inl (aside, headed, going) ↦
            let (rows, b) = read-Body ls r.2 t (after-going ls r t true headed going e') in
            (rows, passes aside b)
        | inr (inl (ends, stop)) ↦
            let (u, blanks) = after-ended ls r t stop e' in
            ([], closes ends (rest-blank ls r.2 u blanks))
        | inr (inr (x, same, headed, going)) ↦
            let (rows, b) = read-Body ls r.2 t (after-going ls r t true headed going e') in
            (x ∷ rows, subst (λ k. Body (k ∷ ls) (x ∷ rows)) (sym same) (gives x b))
      ]

  -- Such an answer, read by a client with a tenant: the handler's header, then its rows.
  pub stream-Answer :
      (tenant : String) (ls : List Line) (c : Header) (rows : List Row) (s : S)
      → tenant ≢ ""
      → Answer ls c rows
      → stream tenant quiet ls end_of_answer s ≡ (call_header quiet c s >>= fold_rows rows)
  unfolding stream
  stream-Answer tenant ls c rows s named a = elim (Bool-cases (str_eq tenant "")) [
    | inl empty ↦ absurd (named ((eq_iff tenant "").0 empty))
    | inr some_ ↦
        rw some_ (rw (Answer-read ls c rows s a) (last (call_header quiet c s >>= fold_rows rows)))
  ]
    where
      last :
          (m : Result (Failure E) S)
          → ((m >>= λ t. ok (some t)) >>= λ (k : Option S). elim k as (λ _. Result (Failure E) S) [
            | some t ↦ ok t
            | none ↦ err no_trailer
          ])
            ≡ m
      last (ok t) = refl
      last (err e) = refl

  -- What one line before the header can be, where the reading goes on.
  opening-cases :
      (l : Line) (s : S) (r : Bool × Bool × S)
      → read_line quiet l false s ≡ ok r
      → ((is_aside l ≡ true) × (r.0 ≡ false) × (r.1 ≡ false))
        ⊎ ((o : StreamObject) × (p : Option Progress) × (l ≡ object o p)
            × IsHeader o o.columns
            × (r.0 ≡ true)
            × (r.1 ≡ false))
  unfolding read_line read_object
  opening-cases blank s r e = inl (refl, cc, cc)
  opening-cases (object o p) s r e = elim (Bool-cases o.progress) [
    | inl told ↦ inl (told, ground arith, ground arith)
    | inr quiet_ ↦ elim (Bool-cases o.trailer) [
      | inl ends ↦ absurd (ground arith)
      | inr open_ ↦ elim (Bool-cases o.header) [
        | inr other ↦ absurd (ground arith)
        | inl names ↦ elim (Bool-cases (bad_arrow_types o.columns)) [
          | inl bad ↦ absurd (ground arith)
          | inr typed ↦
              let v : IsHeader o o.columns = record {
                kind = (quiet_, open_, names);
                same = refl;
                typed = typed;
              } in
              let (t, went, e') =
                >>=-eq-ok (call_header quiet o.columns s) _
                  (sym (header_lem o p o.columns s v) ∙ e) in
              inr (o, p, refl, v, cc, cc)
        ]
      ]
    ]
  ]
  opening-cases (broken t) s r e = cc
  opening-cases (array x) s r e = cc
  opening-cases (junk t) s r e = cc

  -- An answer that is read to its end.
  read-Answer :
      (ls : List Line) (s t : S)
      → read_lines quiet ls false s ≡ ok (some t)
      → (c : Header) × (rows : List Row) × Answer ls c rows
  unfolding read_lines
  read-Answer [] s t e = cc
  read-Answer (l ∷ ls) s t e =
      let (r, read, e') = >>=-eq-ok (read_line quiet l false s) _ e in
      elim (opening-cases l s r read) [
        | inl (aside, headed, going) ↦
            let (c, rows, a) = read-Answer ls r.2 t (after-going ls r t false headed going e') in
            (c, rows, waits aside a)
        | inr (o, p, same, v, headed, going) ↦
            let (rows, b) = read-Body ls r.2 t (after-going ls r t true headed going e') in
            (
              o.columns,
              rows,
              subst (λ k. Answer (k ∷ ls) o.columns rows) (sym same) (heads o p v b),
            )
      ]

  -- For a handler that is not told of progress: `stream` succeeds exactly when the client has a
  -- tenant, the answer was read to its end and follows the grammar, and the handler takes its header
  -- and then each of its rows, in order; and then with the handler's state.
  pub stream_iff :
      (tenant : String) (ls : List Line) (ending : Ending) (s t : S)
      → (stream tenant quiet ls ending s ≡ ok t) ↔ (
          (tenant ≢ "")
          × (ending ≡ end_of_answer)
          × ((c : Header) × (rows : List Row) × Answer ls c rows
              × ((call_header quiet c s >>= fold_rows rows) ≡ ok t)))
  unfolding stream
  stream_iff tenant ls ending s t = (to, from)
    where
      end_lem : (k : Ending) → is_end k ≡ true → k ≡ end_of_answer
      end_lem end_of_answer e = refl
      end_lem too_long e = cc
      end_lem unreachable e = cc

      last_lem :
          (m : Option S)
          → (elim m as (λ _. Result (Failure E) S) [ some u ↦ ok u | none ↦ err no_trailer ]) ≡ ok t
          → m ≡ some t
      last_lem none e = cc
      last_lem (some u) e = cc

      some_lem : (m : Result (Failure E) S) → (m >>= λ u. ok (some u)) ≡ ok (some t) → m ≡ ok t
      some_lem (ok u) e = cc
      some_lem (err f) e = cc

      to :
          stream tenant quiet ls ending s ≡ ok t
          → (tenant ≢ "")
            × (ending ≡ end_of_answer)
            × ((c : Header) × (rows : List Row) × Answer ls c rows
                × ((call_header quiet c s >>= fold_rows rows) ≡ ok t))
      to e =
          let (u, named, e1) =
            >>=-eq-ok (require {E = Failure E} (not (str_eq tenant "")) no_tenant) _ e in
          let (last, got, e2) = >>=-eq-ok (read_lines quiet ls false s) _ e1 in
          let (v, whole, e3) =
            >>=-eq-ok (require {E = Failure E} (is_end ending) read_failed) _ e2 in
          let whole_read : read_lines quiet ls false s ≡ ok (some t) =
            got ∙ ap ok (last_lem last e3) in
          let (c, rows, a) = read-Answer ls s t whole_read in
          (
            ground (arith, named, eq_iff tenant ""),
            end_lem ending (ground (arith, whole)),
            (c, rows, a, some_lem _ (sym (Answer-read ls c rows s a) ∙ whole_read)),
          )

      from :
          (tenant ≢ "")
            × (ending ≡ end_of_answer)
            × ((c : Header) × (rows : List Row) × Answer ls c rows
                × ((call_header quiet c s >>= fold_rows rows) ≡ ok t))
          → stream tenant quiet ls ending s ≡ ok t
      from (named, whole, (c, rows, a, folded)) =
          let e : read_lines quiet ls false s ≡ ok (some t) =
            Answer-read ls c rows s a ∙ ap (λ m. m >>= λ u. ok (some u)) folded in
          ground (arith, e, eq_iff tenant "")
