-- ===== src/Pretty/Tables/Rows.antt =====
-- The lines of a table's rows.

use anfra.Prelude.{
  ℕ, suc, ◌+◌, ◌-◌, ◌*◌, ◌≤◌, ◌≡◌, refl, ap, Bool, true, false, some, List, [], ◌∷◌, ◌++◌, arith,
  ltb, if◌then◌else◌, if_cases, length, All,
}
use anfra.Pretty.Measured.{
  Measures, columns_of-cell_line, columns-spaces, columns_of-append, pad_columns, Additive,
  one_part-Additive,
}
use anfra.Pretty.{Terminal, Cell, wide, columns_of, Line, text_of, unstyled, bare, spaces, Span}
use anfra.Pretty.Tables.{longest, sum, row_cells, cut_cell, table_line, table_rows, fits}

-- A cell that is cut to a width is one part, no wider.
cut_cell_fits :
    (t : Terminal) (m : Measures t) (w : ℕ) (c : Cell)
    → Additive t c
    → (wide t (cut_cell t w c) ≤ w) × Additive t (cut_cell t w c)
unfolding cut_cell text_of
cut_cell_fits t m w [] a = (rw m.columns_none (omega arith), a)
cut_cell_fits t m w (s ∷ c) a =
    let cut_text = t.cut (text_of (s ∷ c)) w "…" in
    let part : Span = record { text = cut_text; tone = s.tone } in
    if_cases (λ d. (wide t d ≤ w) × Additive t d) (ltb w (wide t (s ∷ c))) (part ∷ []) (s ∷ c)
      (λ _. (
        omega (arith, one_part-Additive t part, m.columns-cut (text_of (s ∷ c)) "…" w),
        one_part-Additive t part,
      ))
      (λ h. (ground (arith, h), a))

-- The cells of a line take the columns they are padded by, and no more than their columns' widths.
abbrev pub Ready : Terminal → List ℕ → List (Line × ℕ) → Type 0
Ready t ws [] = Unit {0}
Ready t [] (c ∷ cs) = ⊥
Ready t (w ∷ ws) (c ∷ cs) = (columns_of t c.0 ≡ c.1) × (c.1 ≤ w) × Ready t ws cs

row_cells-Ready :
    (t : Terminal) (m : Measures t) (ws : List ℕ) (r : List Cell)
    → unstyled t ≡ true
    → All (Additive t) r
    → length r ≤ length ws
    → Ready t ws (row_cells t ws r) × (length (row_cells t ws r) ≡ length r)
unfolding row_cells
row_cells-Ready t m ws [] u a h = (tt, refl)
row_cells-Ready t m [] (c ∷ cs) u a h = absurd (omega arith)
row_cells-Ready t m (w ∷ ws) (c ∷ cs) u a h =
    let rest = row_cells-Ready t m ws cs u a.1 (omega arith) in
    let (fits_in, added) = cut_cell_fits t m w c a.0 in
    ((columns_of-cell_line t (cut_cell t w c) u added, fits_in, rest.0), ap suc rest.1)

last_columns :
    (t : Terminal) (m : Measures t) (n : Bool) (w k : ℕ) (l : Line)
    → columns_of t l ≡ k
    → k ≤ w
    → columns_of t (if n then bare (spaces (w - k)) ∷ l else l) ≤ w
unfolding columns_of
last_columns t m true w k l e h = rw (columns-spaces t m (w - k)) (omega arith)
last_columns t m false w k l e h = omega arith

columns_of-gap :
    (t : Terminal) (m : Measures t) (l : Line) → columns_of t (bare "   " ∷ l) ≡ 3 + columns_of t l
unfolding columns_of spaces
columns_of-gap t m l = let three : t.columns "   " ≡ 3 = columns-spaces t m 3 in omega arith

pub Ready-length :
    (t : Terminal) (ws : List ℕ) (cs : List (Line × ℕ)) → Ready t ws cs → length cs ≤ length ws
Ready-length t ws [] r = omega arith
Ready-length t [] (c ∷ cs) r = absurd r
Ready-length t (w ∷ ws) (c ∷ cs) r = omega (arith, Ready-length t ws cs r.2)

pub table_line_fits :
    (t : Terminal) (m : Measures t) (ns : List Bool) (ws : List ℕ) (cs : List (Line × ℕ))
    → Ready t ws cs
    → length cs ≤ length ns
    → (l : Line) × (table_line ns ws cs ≡ some l) × (columns_of t l ≤ 3 * length ws + sum ws - 3)
unfolding table_line sum
table_line_fits t m ns ws [] r h = ([], refl, unfold columns_of in omega arith)
table_line_fits t m [] ws (c ∷ cs) r h = absurd (omega arith)
table_line_fits t m (n ∷ ns) [] (c ∷ cs) r h = absurd r
table_line_fits t m (n ∷ ns) (w ∷ ws) ((l, k) ∷ []) (e, le, r) h =
    (if n then bare (spaces (w - k)) ∷ l else l, refl, omega (arith, last_columns t m n w k l e le))
table_line_fits t m (n ∷ ns) (w ∷ ws) ((l, k) ∷ d ∷ cs) (e, le, r) h =
    let (rest, is_rest, fits) = table_line_fits t m ns ws (d ∷ cs) r (omega arith) in
    let cell = if n then bare (spaces (w - k)) ∷ l else l ++ bare (spaces (w - k)) ∷ [] in
    (
      cell ++ bare "   " ∷ rest,
      rw is_rest refl,
      rw (columns_of-append t cell (bare "   " ∷ rest)) (
          omega (
            arith,
            pad_columns t m n w k l e le,
            columns_of-gap t m rest,
            Ready-length t ws (d ∷ cs) r,
          )),
    )

table_rows_step :
    (t : Terminal) (ns : List Bool) (ws : List ℕ) (r : List Cell) (rs : List (List Cell)) (l : Line)
    (ls : List Line)
    → table_line ns ws (row_cells t ws r) ≡ some l
    → table_rows t ns ws rs ≡ some ls
    → table_rows t ns ws (r ∷ rs) ≡ some (l ∷ ls)
unfolding table_rows
table_rows_step t ns ws r rs l ls e f = ground arith

pub table_rows_fit :
    (t : Terminal) (m : Measures t) (ns : List Bool) (ws : List ℕ) (rs : List (List Cell))
    → unstyled t ≡ true
    → All (All (Additive t)) rs
    → longest rs ≤ length ws
    → longest rs ≤ length ns
    → (ls : List Line) × (table_rows t ns ws rs ≡ some ls)
      × All (λ l. columns_of t l ≤ 3 * length ws + sum ws - 3) ls
table_rows_fit t m ns ws [] u a h k = ([], unfold table_rows in refl, tt)
table_rows_fit t m ns ws (r ∷ rs) u a h k =
    let (ready, size) = row_cells-Ready t m ws r u a.0 (omega arith) in
    let (l, is_l, fit) = table_line_fits t m ns ws (row_cells t ws r) ready (omega arith) in
    let (ls, is_ls, fits) = table_rows_fit t m ns ws rs u a.1 (omega arith) (omega arith) in
    (l ∷ ls, table_rows_step t ns ws r rs l ls is_l is_ls, (fit, fits))
