-- ===== src/Query/Paging/Batches/Exact.antt =====
-- internal/command/query/run.go: the batches that a stream sends.
use anfra.Prelude.{
  ℕ, ◌+◌, ◌≤◌, ◌<◌, ◌≡◌, refl, ap, ◌∙◌, ◌⊎◌, inl, inr, true, ◌||◌, List, [], ◌∷◌, ◌++◌, arith, leb,
  if◌then◌else◌, leb→le, Bool-cases, length, is_nil, Result, ok, err, ◌>>=◌, Result-cases,
}
use mathlib.Core.List.{append_assoc}
use anfra.Canalquery.{Row}
use anfra.Query.Bounds.Exact.{run_rows}
use anfra.Query.Paging.{batch_rows, batch_bytes}
use anfra.Query.Paging.Batches.{Batching, flush, batch_row}

abbrev pub concat : List (List Row) → List Row
concat [] = []
concat (b ∷ bs) = b ++ concat bs

abbrev pub bytes : (Row → ℕ) → List Row → ℕ
bytes len [] = 0
bytes len (r ∷ rs) = len r + bytes len rs

-- Less than 1,000 rows and than 2 ^ 20 bytes.
abbrev pub IsOpen : (Row → ℕ) → List Row → Type 0
IsOpen len b = (length b < batch_rows) × (bytes len b < batch_bytes)

-- Rows that the last of them brings to 1,000 rows or to 2 ^ 20 bytes.
abbrev pub IsFilled : (Row → ℕ) → List Row → Type 0
IsFilled len b =
    (before : List Row) × (r : Row) × (b ≡ before ++ r ∷ [])
    × IsOpen len before
    × ((batch_rows ≤ length b) ⊎ (batch_bytes ≤ bytes len b))

-- Batches of which each is filled, but for the last, which may also be open, and holds a row.
unfoldable pub AreFilled : (Row → ℕ) → List (List Row) → Type 0
AreFilled len [] = Unit {0}
AreFilled len (b ∷ []) = IsFilled len b ⊎ (IsOpen len b × (0 < length b))
AreFilled len (b ∷ c ∷ bs) = IsFilled len b × AreFilled len (c ∷ bs)

module _ (len : Row → ℕ) where
  -- Rows in batches, after those that the batch under way holds.
  abbrev pub batches : List Row → ℕ → List Row → List (List Row)
  batches b size [] = if is_nil b then [] else b ∷ []
  batches b size (r ∷ rs) =
      let closed = batches [] 0 rs in
      let open_ = batches (b ++ r ∷ []) (size + len r) rs in
      if leb batch_rows (length (b ++ r ∷ [])) || leb batch_bytes (size + len r)
      then (b ++ r ∷ []) ∷ closed
      else open_

  concat-batches : (b : List Row) (size : ℕ) (rs : List Row) → concat (batches b size rs) ≡ b ++ rs
  concat-batches [] size [] = refl
  concat-batches (x ∷ b) size [] = refl
  concat-batches b size (r ∷ rs) =
      elim (Bool-cases (leb batch_rows (length (b ++ r ∷ [])) || leb batch_bytes (size + len r))) [
        | inl full ↦
            rw full
              (ap (λ k. (b ++ r ∷ []) ++ k) (concat-batches [] 0 rs) ∙ append_assoc b (r ∷ []) rs)
        | inr going ↦
            rw going (concat-batches (b ++ r ∷ []) (size + len r) rs ∙ append_assoc b (r ∷ []) rs)
      ]

  bytes-append : (b : List Row) (r : Row) → bytes len (b ++ r ∷ []) ≡ bytes len b + len r
  bytes-append [] r = omega arith
  bytes-append (x ∷ b) r = omega (arith, bytes-append b r)

  cons-AreFilled :
      (b : List Row) (bs : List (List Row))
      → IsFilled len b
      → AreFilled len bs
      → AreFilled len (b ∷ bs)
  unfolding AreFilled
  cons-AreFilled b [] f h = inl f
  cons-AreFilled b (c ∷ bs) f h = (f, h)

  append-IsFilled :
      (b : List Row) (r : Row)
      → IsOpen len b
      → (leb batch_rows (length (b ++ r ∷ [])) || leb batch_bytes (bytes len b + len r)) ≡ true
      → IsFilled len (b ++ r ∷ [])
  append-IsFilled b r o full =
      let size = bytes-append b r in
      elim (Bool-cases (leb batch_rows (length (b ++ r ∷ [])))) [
        | inl many ↦ (b, r, refl, o, inl (leb→le _ _ many))
        | inr few ↦ (b, r, refl, o, inr (ground (arith, full, few, size)))
      ]

  batches-AreFilled :
      (b : List Row) (rs : List Row) → IsOpen len b → AreFilled len (batches b (bytes len b) rs)
  unfolding AreFilled
  batches-AreFilled [] [] o = tt
  batches-AreFilled (x ∷ b) [] o = inr (o, omega arith)
  batches-AreFilled b (r ∷ rs) o =
      let size = bytes-append b r in
      elim (Bool-cases
        (leb batch_rows (length (b ++ r ∷ [])) || leb batch_bytes (bytes len b + len r))) [
          | inl full ↦ rw full (
              cons-AreFilled (b ++ r ∷ []) (batches [] 0 rs) (append-IsFilled b r o full)
                (batches-AreFilled [] rs (omega arith, omega arith)))
          | inr going ↦ rw going (
              rw size at (
                batches-AreFilled (b ++ r ∷ []) rs
                  (ground (arith, going), ground (arith, going, size))))
        ]

abbrev pub emit_all :
    {S E : Type 0} → (List Row → S → Result E S) → List (List Row) → S → Result E S
emit_all emit [] s = ok s
emit_all emit (b ∷ bs) s = emit b s >>= emit_all emit bs

module _ {S E : Type 0} where
  -- A batching's rows so far and its events.
  abbrev pub tallied : Result E (Batching S) → Result E (ℕ × S)
  tallied (ok b) = ok (b.count, b.events)
  tallied (err e) = err e

  abbrev pub counted : ℕ → Result E S → Result E (ℕ × S)
  counted n (ok s) = ok (n, s)
  counted n (err e) = err e

module _ {S E : Type 0} (len : Row → ℕ) (emit : List Row → S → Result E S) where
  flush-emit :
      (x : Row) (xs : List Row) (m n : ℕ) (s : S)
      → flush len emit (record { batch = x ∷ xs; size = m; count = n; events = s })
        ≡ (emit (x ∷ xs) s >>= λ t. ok (record { batch = []; size = 0; count = n; events = t }))
  unfolding flush
  flush-emit x xs m n s = elim (Result-cases (emit (x ∷ xs) s)) [
    | inl (e, failed) ↦ rw failed refl
    | inr (t, went) ↦ rw went refl
  ]

  flush_lem :
      (b : List Row) (m n : ℕ) (s : S)
      → tallied (flush len emit (record { batch = b; size = m; count = n; events = s }))
        ≡ counted n (emit_all emit ((batches len b m [])) s)
  unfolding flush
  flush_lem [] m n s = refl
  flush_lem (x ∷ xs) m n s =
      ap tallied (flush-emit x xs m n s) ∙ elim (Result-cases (emit (x ∷ xs) s)) [
        | inl (e, failed) ↦ rw failed refl
        | inr (t, went) ↦ rw went refl
      ]

  flush_row :
      (b : List Row) (r : Row) (m n : ℕ) (s : S)
      → flush len emit (record { batch = b ++ r ∷ []; size = m; count = n; events = s }) ≡ (
          emit (b ++ r ∷ []) s >>= λ t. ok (record { batch = []; size = 0; count = n; events = t }))
  flush_row [] r m n s = flush-emit r [] m n s
  flush_row (x ∷ b) r m n s = flush-emit x (b ++ r ∷ []) m n s

  rows_lem :
      (rs : List Row) (b : Batching S)
      → tallied (run_rows (batch_row len emit) rs b >>= flush len emit)
        ≡ counted (b.count + length rs) (emit_all emit ((batches len b.batch b.size rs)) b.events)
  unfolding batch_row
  rows_lem [] b =
      flush_lem b.batch b.size b.count b.events
      ∙ ap (λ n. counted n (emit_all emit ((batches len b.batch b.size [])) b.events)) (omega arith)
  rows_lem (r ∷ rs) b =
      elim (Bool-cases
        (leb batch_rows (length (b.batch ++ r ∷ [])) || leb batch_bytes (b.size + len r))) [
          | inl full ↦ rw full (
              rw (flush_row b.batch r (b.size + len r) (b.count + 1) b.events)
                (elim (Result-cases (emit ((b.batch ++ r ∷ [])) b.events)) [
                  | inl (e, failed) ↦ rw failed refl
                  | inr (t, went) ↦ rw went (
                      rows_lem rs (record { batch = []; size = 0; count = b.count + 1; events = t })
                      ∙ ap (λ n. counted n (emit_all emit ((batches len [] 0 rs)) t)) (omega arith))
                ]))
          | inr going ↦ rw going (
              rows_lem rs
                (record b { batch = b.batch ++ r ∷ []; size = b.size + len r; count = b.count + 1 })
              ∙ ap
                  (λ n. counted n (
                    emit_all emit ((batches len (b.batch ++ r ∷ []) (b.size + len r) rs)) b.events))
                  (omega arith))
        ]

module _ {S E : Type 0} (len : Row → ℕ) (emit : List Row → S → Result E S) where
  -- The rows that `stream` is given, one after another, and the flush after the last one: they are
  -- counted, and sent in batches that hold them all in order, none missing or repeated. Each batch but
  -- the last ends with the row that brings it to 1,000 rows or 2 ^ 20 bytes; the last holds a row, and
  -- ends with such a row or before one. The sending stops, with its error, at a batch that is not taken.
  pub batches_sent :
      (rs : List Row) (s : S)
      → (bs : List (List Row)) × (concat bs ≡ rs)
        × AreFilled len bs
        × (tallied (
              run_rows
                (batch_row len emit)
                rs
                (record { batch = []; size = 0; count = 0; events = s })
              >>= flush len emit)
            ≡ counted (length rs) (emit_all emit bs s))
  batches_sent rs s = (
    batches len [] 0 rs,
    concat-batches len [] 0 rs,
    batches-AreFilled len [] rs (omega arith, omega arith),
    rows_lem len emit rs (record { batch = []; size = 0; count = 0; events = s })
        ∙ ap (λ n. counted n (emit_all emit (batches len [] 0 rs) s)) (omega arith),
  )
