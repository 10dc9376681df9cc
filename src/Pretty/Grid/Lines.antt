-- ===== src/Pretty/Grid/Lines.antt =====
-- How wide a line of a grid is.
use anfra.Prelude.{
  ℕ, zero, suc, ◌+◌, ◌-◌, ◌≤◌, ◌<◌, String, ◌≡◌, refl, Bool, true, false, not, ◌&&◌, some, List, [],
  ◌∷◌, ◌++◌, arith, if◌then◌else◌, length, All, cat, join,
}
use anfra.Pretty.Measured.{
  Measures, columns_of-append, pad_columns, columns_of-cell_line, is_simple-cat, Additive,
  is_simple, one_part-Additive,
}
use anfra.Pretty.{
  Terminal, Cell, Line, columns_of, wide, text_of, cell_line, bare, spaces, unstyled, styled, muted,
  Tone,
}
use anfra.Pretty.Tables.Widths.{Covers}
use anfra.Pretty.Grid.{
  border_of, border_line, boxed, boxes, grid_line, grid_rows, safe_cells, headed, boxed_widths,
  repeat, segments, rule_of,
}

-- A border's character is simple, and takes one column.
abbrev pub Glyph : Terminal → String → Type 0
Glyph t g = (t.columns g ≡ 1) × (is_simple g ≡ true)

abbrev pub Corner : Terminal → String × String × String → Type 0
Corner t (l, c, r) = Glyph t l × Glyph t c × Glyph t r

-- Every character of a border takes one column.
abbrev pub Drawable : Terminal → Bool → Type 0
Drawable t u =
    Glyph t (rule_of u)
    × Glyph t (border_of u).bar
    × Corner t (border_of u).top
    × Corner t (border_of u).middle
    × Corner t (border_of u).bottom

pub border-Drawable : (t : Terminal) (m : Measures t) (u : Bool) → Drawable t u
unfolding border_of is_simple
border-Drawable t m true =
    let (rule, (bar, (tl, (tm, (tr, (ml, (mm, (mr, (bl, (bm, (br, rest))))))))))) =
      m.columns-glyph in
    (
      (rule, refl),
      (bar, refl),
      ((tl, refl), (tm, refl), (tr, refl)),
      ((ml, refl), (mm, refl), (mr, refl)),
      ((bl, refl), (bm, refl), (br, refl)),
    )
border-Drawable t m false =
    let (_, (_, (_, (_, (_, (_, (_, (_, (_, (_, (_, (dash, (bar, (plus, _)))))))))))))) =
      m.columns-glyph in
    let cross : Glyph t "+" = (plus, refl) in
    ((dash, refl), (bar, refl), (cross, cross, cross), (cross, cross, cross), (cross, cross, cross))

repeat-simple : (s : String) (n : ℕ) → is_simple s ≡ true → is_simple (repeat s n) ≡ true
unfolding repeat is_simple
repeat-simple s zero h = refl
repeat-simple s (suc n) h = is_simple-cat s (repeat s n) h (repeat-simple s n h)

columns-repeat :
    (t : Terminal) (m : Measures t) (s : String) (n : ℕ) → Glyph t s → t.columns (repeat s n) ≡ n
unfolding repeat
columns-repeat t m s zero h = m.columns_none
columns-repeat t m s (suc n) h =
    omega (
      arith,
      h.0,
      m.columns-cat s (repeat s n) h.1 (repeat-simple s n h.1),
      columns-repeat t m s n h,
    )

-- A border's segments between its corners: their columns, and that they are simple.
columns-join :
    (t : Terminal) (m : Measures t) (h c : String) (w : ℕ) (ws : List ℕ)
    → Glyph t h
    → Glyph t c
    → (t.columns (join (segments h (w ∷ ws)) c) + 1 ≡ boxed_widths (w ∷ ws))
      × (is_simple (join (segments h (w ∷ ws)) c) ≡ true)
unfolding segments boxed_widths join
columns-join t m h c w [] p q =
    (omega (arith, columns-repeat t m h (w + 2) p), repeat-simple h (w + 2) p.1)
columns-join t m h c w (v ∷ ws) p q =
    let (rest, simple) = columns-join t m h c v ws p q in
    let inner = join (segments h (v ∷ ws)) c in
    let first = repeat-simple h (w + 2) p.1 in
    let after = is_simple-cat c inner q.1 simple in
    (
      omega (
        arith,
        q.0,
        rest,
        m.columns-cat (repeat h (w + 2)) (cat c inner) first after,
        m.columns-cat c inner q.1 simple,
        columns-repeat t m h (w + 2) p,
      ),
      is_simple-cat (repeat h (w + 2)) (cat c inner) first after,
    )

pub columns_of-border_line :
    (t : Terminal) (m : Measures t) (ws : List ℕ) (k : String × String × String)
    → 0 < length ws
    → Corner t k
    → columns_of t (border_line t ws k) ≡ 1 + boxed_widths ws
unfolding border_line columns_of
columns_of-border_line t m [] k h c = absurd (omega arith)
columns_of-border_line t m (w ∷ ws) (l, c, r) h (p, q, s) =
    let rule = (border-Drawable t m t.utf8).0 in
    let inner = join (segments (rule_of t.utf8) (w ∷ ws)) c in
    let (joined, simple) = columns-join t m (rule_of t.utf8) c w ws rule q in
    omega (
      arith,
      p.0,
      s.0,
      joined,
      m.columns-cat l (cat inner r) p.1 (is_simple-cat inner r simple s.1),
      m.columns-cat inner r simple s.1,
    )

-- A cell drawn in the columns it is measured by.
columns_of-shown :
    (t : Terminal) (header : Bool) (c : Cell)
    → unstyled t ≡ true
    → Additive t c
    → columns_of t (if header then styled muted (text_of c) ∷ [] else cell_line t c) ≡ wide t c
columns_of-shown t true c u a = unfold columns_of in omega arith
columns_of-shown t false c u a = columns_of-cell_line t c u a

columns_of-boxed :
    (t : Terminal) (m : Measures t) (header n : Bool) (w : ℕ) (c : Cell)
    → unstyled t ≡ true
    → Additive t c
    → wide t c ≤ w
    → columns_of t (boxed t header n w c) ≡ w + 3
columns_of-boxed t m header n w c u a h =
    let shown = if header then styled muted (text_of c) ∷ [] else cell_line t c in
    let side = n && not header in
    let gap = bare (spaces (w - wide t c)) in
    let placed = if side then gap ∷ shown else shown ++ gap ∷ [] in
    let bar = (border-Drawable t m t.utf8).1.0 in
    let end = columns_of-append t placed (bare " " ∷ styled muted (border_of t.utf8).bar ∷ []) in
    let fills = pad_columns t m side w (wide t c) shown (columns_of-shown t header c u a) h in
    unfold boxed columns_of in omega (arith, m.columns_space, end, fills, bar)

boxes_even :
    (t : Terminal) (m : Measures t) (header : Bool) (ns : List Bool) (ws : List ℕ) (cs : List Cell)
    → unstyled t ≡ true
    → All (Additive t) cs
    → Covers t ws cs
    → length ws ≤ length ns
    → (l : Line) × (boxes t header ns ws cs ≡ some l) × (columns_of t l ≡ boxed_widths ws)
unfolding boxes boxed_widths
boxes_even t m header ns [] cs u a c h = ([], refl, unfold columns_of in refl)
boxes_even t m header [] (w ∷ ws) cs u a c h = absurd (omega arith)
boxes_even t m header (n ∷ ns) (w ∷ ws) [] u a c h =
    let (l, is_l, even) = boxes_even t m header ns ws [] u a tt (omega arith) in
    let none_added : Additive t [] = unfold text_of in m.columns_none in
    let none_wide : wide t [] ≤ w = unfold text_of in omega (arith, m.columns_none) in
    let box = boxed t header n w [] in
    (
      box ++ l,
      rw is_l refl,
      rw
          (
            columns_of-append t box l,
            columns_of-boxed t m header n w [] u none_added none_wide,
            even,
          )
          refl,
    )
boxes_even t m header (n ∷ ns) (w ∷ ws) (d ∷ cs) u a c h =
    let (l, is_l, even) = boxes_even t m header ns ws cs u a.1 c.1 (omega arith) in
    let box = boxed t header n w d in
    (
      box ++ l,
      rw is_l refl,
      rw (columns_of-append t box l, columns_of-boxed t m header n w d u a.0 c.0, even) refl,
    )

-- The line's columns, its first bar with it.
grid_line_even :
    (t : Terminal) (m : Measures t) (header : Bool) (ns : List Bool) (ws : List ℕ) (cs : List Cell)
    → unstyled t ≡ true
    → All (Additive t) cs
    → Covers t ws cs
    → length ws ≤ length ns
    → (l : Line) × (grid_line t header ns ws cs ≡ some l) × (columns_of t l ≡ 1 + boxed_widths ws)
unfolding grid_line
grid_line_even t m header ns ws cs u a c h =
    let (l, is_l, even) = boxes_even t m header ns ws cs u a c h in
    let bar = (border-Drawable t m t.utf8).1.0 in
    (
      styled muted (border_of t.utf8).bar ∷ l,
      rw is_l refl,
      unfold columns_of in omega (arith, bar, even),
    )

grid_rows_step :
    (t : Terminal) (ns : List Bool) (ws : List ℕ) (r : List Cell) (rs : List (List Cell)) (l : Line)
    (ls : List Line)
    → grid_line t false ns ws r ≡ some l
    → grid_rows t ns ws rs ≡ some ls
    → grid_rows t ns ws (r ∷ rs) ≡ some (l ∷ ls)
unfolding grid_rows
grid_rows_step t ns ws r rs l ls e f = ground arith

abbrev pub AsWide : Terminal → ℕ → List Line → Type 0
AsWide t n = All (λ l. columns_of t l ≡ n)

pub grid_rows_even :
    (t : Terminal) (m : Measures t) (ns : List Bool) (ws : List ℕ) (rs : List (List Cell))
    → unstyled t ≡ true
    → All (All (Additive t)) rs
    → All (Covers t ws) rs
    → length ws ≤ length ns
    → (ls : List Line) × (grid_rows t ns ws rs ≡ some ls) × AsWide t (1 + boxed_widths ws) ls
grid_rows_even t m ns ws [] u a c h = ([], unfold grid_rows in refl, tt)
grid_rows_even t m ns ws (r ∷ rs) u a c h =
    let (l, is_l, even) = grid_line_even t m false ns ws r u a.0 c.0 h in
    let (ls, is_ls, evens) = grid_rows_even t m ns ws rs u a.1 c.1 h in
    (l ∷ ls, grid_rows_step t ns ws r rs l ls is_l is_ls, (even, evens))

headed_step :
    (t : Terminal) (ns : List Bool) (ws : List ℕ) (s : String) (ss : List String) (l : Line)
    (below : List Line)
    → grid_line t true ns ws (safe_cells t (s ∷ ss)) ≡ some l
    → headed t ns ws (s ∷ ss) below ≡ some (l ∷ border_line t ws (border_of t.utf8).middle ∷ below)
headed_step t ns ws s ss l below e = unfold headed in rw e refl

safe_cells-Additive : (t : Terminal) (ls : List String) → All (Additive t) (safe_cells t ls)
unfolding safe_cells
safe_cells-Additive t [] = tt
safe_cells-Additive t (l ∷ ls) =
    (one_part-Additive t (record { text = t.safe l; tone = Tone.plain }), safe_cells-Additive t ls)

pub headed_even :
    (t : Terminal) (m : Measures t) (ns : List Bool) (ws : List ℕ) (labels : List String)
    (below : List Line)
    → unstyled t ≡ true
    → 0 < length ws
    → Covers t ws (safe_cells t labels)
    → length ws ≤ length ns
    → AsWide t (1 + boxed_widths ws) below
    → (ls : List Line) × (headed t ns ws labels below ≡ some ls) × AsWide t (1 + boxed_widths ws) ls
headed_even t m ns ws [] below u p c h a = (below, unfold headed in refl, a)
headed_even t m ns ws (s ∷ ss) below u p c h a =
    let (l, is_l, even) =
      grid_line_even t m true ns ws (safe_cells t (s ∷ ss)) u (safe_cells-Additive t (s ∷ ss)) c
        h in
    let middle = (border-Drawable t m t.utf8).3 in
    (
      l ∷ border_line t ws (border_of t.utf8).middle ∷ below,
      headed_step t ns ws s ss l below is_l,
      (even, (columns_of-border_line t m ws (border_of t.utf8).middle p middle, a)),
    )
