-- ===== src/Query/Bounds/Exact.antt =====
-- internal/query/query.go: what the sink of a bounded result is given.
use anfra.Prelude.{
  ℕ, zero, suc, ◌+◌, ◌≤◌, ◌<◌, String, ◌≡◌, refl, ap, ◌∙◌, ◌≢◌, ◌⊎◌, inl, inr, Bool, true, false,
  ◌||◌, Option, none, some, List, [], ◌∷◌, arith, ltb, leb, ◌==◌, if◌then◌else◌, leb→le, le→leb,
  Bool-cases, length, take, take_all, length-take, length-take_le, take-take, Result, ok, err,
  ◌>>=◌, Result-cases,
}
use anfra.Canalquery.{Row, Header, Line, Ending, end_of_answer, own}
use anfra.Canalquery.Grammar.{fold_rows, Answer, stream-Answer}
use anfra.Query.Bounds.{
  QueryError, too_many_rows, guarded, settled, counted_header, ResultBounds, stream, row_cap,
  within_rows,
}

-- A result cut at a number of rows, or whole.
abbrev pub cut {ℓ} : {A : Type ℓ} → Option ℕ → List A → List A
cut none xs = xs
cut (some n) xs = take n xs

module _ {S E : Type 0} (row : Row → S → Result E S) where
  -- Rows given to a sink, until it fails.
  abbrev pub run_rows : List Row → S → Result E S
  run_rows [] s = ok s
  run_rows (r ∷ rs) s = row r s >>= run_rows rs

module _ {S E : Type 0} where
  -- The sink's own answer.
  abbrev pub lifted : Result E S → Result (QueryError E) S
  lifted (ok s) = ok s
  lifted (err e) = err (QueryError.own e)

module _ {S E : Type 0} (head : Header → S → Result E S) (row : Row → S → Result E S)
    (max_bytes : ℕ) where
  abbrev given : Bool → ℕ → List Row → S → ℕ → Result (QueryError E) S
  given capped m rows s n =
      settled max_bytes (fold_rows (some (counted_header head)) (guarded capped m row) rows (s, n))

  given_free :
      (m : ℕ) (rows : List Row) (s : S) (n : ℕ)
      → given false m rows s n ≡ lifted (run_rows row rows s)
  unfolding guarded
  given_free m [] s n = refl
  given_free m (r ∷ rs) s n = elim (Result-cases (row r s)) [
    | inl (e, failed) ↦ rw failed refl
    | inr (t, went) ↦ rw went (given_free m rs t (n + 1))
  ]

  given_within :
      (m : ℕ) (rows : List Row) (s : S) (n : ℕ)
      → n + length rows ≤ m
      → given true m rows s n ≡ lifted (run_rows row rows s)
  unfolding guarded
  given_within m [] s n h = refl
  given_within m (r ∷ rs) s n h =
      let small : ltb m (n + 1) ≡ false = ground (arith) in
      elim (Result-cases (row r s)) [
        | inl (e, failed) ↦ rw small (rw failed refl)
        | inr (t, went) ↦ rw small (rw went (given_within m rs t (n + 1) (omega arith)))
      ]

  given_over :
      (k m : ℕ) (rows : List Row) (s : S) (n : ℕ)
      → n + k ≡ m
      → k < length rows
      → given true m rows s n
        ≡ (lifted (run_rows row (take k rows) s) >>= λ _. err (too_many_rows m))
  unfolding guarded
  given_over k m [] s n e h = absurd (omega arith)
  given_over zero m (r ∷ rs) s n e h =
      let full : ltb m (n + 1) ≡ true = ground (arith) in rw full refl
  given_over (suc k) m (r ∷ rs) s n e h =
      let small : ltb m (n + 1) ≡ false = ground (arith) in
      elim (Result-cases (row r s)) [
        | inl (f, failed) ↦ rw small (rw failed refl)
        | inr (t, went) ↦
            rw small (rw went (given_over k m rs t (n + 1) (omega arith) (omega arith)))
      ]

module _ {S E : Type 0} (head : Header → S → Result E S) (row : Row → S → Result E S) where
  -- What a bounded result promises: a result within the maximum is given whole, cut where it is to
  -- be; of a longer one the maximum's rows are given, and then it is an error.
  abbrev pub promised : ResultBounds → Header → List Row → S → Result (QueryError E) S
  promised b c all s =
      if b.max_rows == 0 || leb (length (cut b.truncate all)) b.max_rows
      then lifted (head c s >>= run_rows row (cut b.truncate all))
      else (lifted (head c s >>= run_rows row (take b.max_rows all)) >>= λ _.
          err (too_many_rows b.max_rows))

  abbrev asked : ResultBounds → Header → List Row → Bool → S → Result (QueryError E) S
  asked b c rows capped s = settled b.max_bytes (
      own (counted_header head c (s, 0))
      >>= fold_rows (some (counted_header head)) (guarded capped b.max_rows row) rows)

  asked-free :
      (b : ResultBounds) (c : Header) (rows : List Row) (s : S)
      → asked b c rows false s ≡ lifted (head c s >>= run_rows row rows)
  asked-free b c rows s = elim (Result-cases (head c s)) [
    | inl (e, failed) ↦ rw failed refl
    | inr (t, went) ↦ rw went (given_free head row b.max_bytes b.max_rows rows t 0)
  ]

  asked-within :
      (b : ResultBounds) (c : Header) (rows : List Row) (s : S)
      → length rows ≤ b.max_rows
      → asked b c rows true s ≡ lifted (head c s >>= run_rows row rows)
  asked-within b c rows s h = elim (Result-cases (head c s)) [
    | inl (e, failed) ↦ rw failed refl
    | inr (t, went) ↦ rw went (given_within head row b.max_bytes b.max_rows rows t 0 (omega arith))
  ]

  asked-over :
      (b : ResultBounds) (c : Header) (rows : List Row) (s : S)
      → b.max_rows < length rows
      → asked b c rows true s ≡ (
          lifted (head c s >>= run_rows row (take b.max_rows rows)) >>= λ _.
          err (too_many_rows b.max_rows))
  asked-over b c rows s h = elim (Result-cases (head c s)) [
    | inl (e, failed) ↦ rw failed refl
    | inr (t, went) ↦
        rw went (given_over head row b.max_bytes b.max_rows b.max_rows rows t 0 (omega arith) h)
  ]

  stream-asked :
      (tenant : String) (canal : Option ℕ → ℕ → List Line × Ending) (b : ResultBounds) (c : Header)
      (all : List Row) (s : S) (t : Option ℕ) (capped : Bool)
      → tenant ≢ ""
      → Answer (canal t b.max_bytes).0 c (cut t all)
      → (canal t b.max_bytes).1 ≡ end_of_answer
      → row_cap b.truncate b.max_rows ≡ (t, capped)
      → stream tenant canal b head row s ≡ asked b c (cut t all) capped s
  unfolding stream
  stream-asked tenant canal b c all s t capped named a whole e = rw e (
      rw whole (
        ap (settled b.max_bytes) (
          stream-Answer (some (counted_header head)) (guarded capped b.max_rows row) tenant
            (canal t b.max_bytes).0 c (cut t all) (s, 0) named a)))

-- A result that is asked for with a row past the maximum is within it, cut or not, or is longer.
over_cases :
    {A : Type 0} (limit : Option ℕ) (m : ℕ) (all : List A)
    → within_rows limit m ≡ false
    → ((length all ≤ m) × (cut limit all ≡ all)) ⊎ ((m < length all) × (m < length (cut limit all)))
over_cases none m all w = elim (Bool-cases (leb (length all) m)) [
  | inl few ↦ inl (leb→le _ _ few, refl)
  | inr many ↦ inr (ground (arith), ground (arith))
]
over_cases (some k) m all w = elim (Bool-cases (leb (length all) m)) [
  | inl few ↦ inl (leb→le _ _ few, take_all k all (ground (arith)))
  | inr many ↦ elim (Bool-cases (leb k (length all))) [
    | inl long ↦ let e = length-take k all (leb→le _ _ long) in inr (ground (arith), ground (arith))
    | inr short ↦
        let e = take_all k all (ground (arith)) in inr (ground (arith), rw e (ground (arith)))
  ]
]

cut-within :
    {A : Type 0} (limit : Option ℕ) (m : ℕ) (all : List A)
    → within_rows limit m ≡ true
    → length (cut limit all) ≤ m
cut-within none m all w = cc
cut-within (some k) m all w = let e = length-take_le k all in ground (arith)

module _ {S E : Type 0} (head : Header → S → Result E S) (row : Row → S → Result E S) where
  -- `stream`, for a client with a tenant and a data source that answers a statement to its end, its
  -- result cut at the rows asked for, gives its sink what `promised` says, whether or not the sink
  -- fails: a result within the maximum whole, and of a longer one the first `max_rows` rows, then
  -- the error that there are more.
  pub stream_exact :
      (tenant : String) (canal : Option ℕ → ℕ → List Line × Ending) (b : ResultBounds) (c : Header)
      (all : List Row) (s : S)
      → tenant ≢ ""
      → ((t : Option ℕ)
          → Answer (canal t b.max_bytes).0 c (cut t all)
            × ((canal t b.max_bytes).1 ≡ end_of_answer))
      → stream tenant canal b head row s ≡ promised head row b c all s
  unfolding row_cap
  stream_exact tenant canal b c all s named answers = elim (Bool-cases (b.max_rows == 0)) [
    | inl free ↦
        stream-asked head row tenant canal b c all s b.truncate false named (answers b.truncate).0
          (answers b.truncate).1 (rw free refl)
        ∙ asked-free head row b c (cut b.truncate all) s
        ∙ rw free refl
    | inr bound ↦ elim (Bool-cases (within_rows b.truncate b.max_rows)) [
      | inl within ↦
          stream-asked head row tenant canal b c all s b.truncate false named (answers b.truncate).0
            (answers b.truncate).1 (rw bound (rw within refl))
          ∙ asked-free head row b c (cut b.truncate all) s
          ∙ rw (le→leb _ _ (cut-within b.truncate b.max_rows all within)) (rw bound refl)
      | inr open_ ↦
          let past = some (b.max_rows + 1) in
          stream-asked head row tenant canal b c all s past true named (answers past).0
            (answers past).1 (rw bound (rw open_ refl))
          ∙ elim (over_cases b.truncate b.max_rows all open_) [
            | inl (few, same) ↦ rw (take_all (b.max_rows + 1) all (omega arith)) (
                rw same (asked-within head row b c all s few ∙ rw (le→leb _ _ few) (rw bound refl)))
            | inr (many, longer) ↦
                let past_all = length-take (b.max_rows + 1) all (omega arith) in
                let no : leb (length (cut b.truncate all)) b.max_rows ≡ false = ground (arith) in
                asked-over head row b c (take (b.max_rows + 1) all) s (omega (arith, past_all))
                ∙ rw (take-take b.max_rows (b.max_rows + 1) all (omega arith))
                    (rw no (rw bound refl))
          ]
    ]
  ]
