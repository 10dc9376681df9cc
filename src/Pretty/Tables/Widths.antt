-- ===== src/Pretty/Tables/Widths.antt =====
-- The columns of a table or a grid: as many as its longest row or its heading has, each as wide as its
-- widest cell.
use anfra.Prelude.{
  ℕ, zero, suc, ◌-◌, ◌≤◌, String, ◌≡◌, refl, ap, ◌∙◌, ◌&&◌, Option, none, some, List, [], ◌∷◌,
  arith, ltb, if_cases, length, All,
}
use Prim.Native.Nat.{max}
use anfra.Pretty.{Terminal, Cell, wide, Table}
use anfra.Pretty.Tables.{
  widen, widen_all, header_widths, column_widths, longest, numeric_columns, numeric_from,
  drawn_widths, narrowed, replace, nth, total,
}

-- Every cell of a row has a column as wide as it.
abbrev pub Covers : Terminal → List ℕ → List Cell → Type 0
Covers t ws [] = Unit {0}
Covers t [] (c ∷ cs) = ⊥
Covers t (w ∷ ws) (c ∷ cs) = (wide t c ≤ w) × Covers t ws cs

widen-Covers :
    (t : Terminal) (ws : List ℕ) (r : List Cell) → length r ≤ length ws → Covers t (widen t ws r) r
unfolding widen
widen-Covers t ws [] h = tt
widen-Covers t [] (c ∷ cs) h = absurd (omega arith)
widen-Covers t (w ∷ ws) (c ∷ cs) h = (omega arith, widen-Covers t ws cs (omega arith))

widen-keeps :
    (t : Terminal) (ws : List ℕ) (r s : List Cell) → Covers t ws s → Covers t (widen t ws r) s
unfolding widen
widen-keeps t ws r [] h = tt
widen-keeps t [] r (c ∷ cs) h = absurd h
widen-keeps t (w ∷ ws) [] (c ∷ cs) h = h
widen-keeps t (w ∷ ws) (d ∷ ds) (c ∷ cs) h = (omega (arith, h.0), widen-keeps t ws ds cs h.1)

length-widen : (t : Terminal) (ws : List ℕ) (r : List Cell) → length (widen t ws r) ≡ length ws
unfolding widen
length-widen t ws [] = refl
length-widen t [] (c ∷ cs) = refl
length-widen t (w ∷ ws) (c ∷ cs) = ap suc (length-widen t ws cs)

length-widen_all :
    (t : Terminal) (ws : List ℕ) (rs : List (List Cell)) → length (widen_all t ws rs) ≡ length ws
unfolding widen_all
length-widen_all t ws [] = refl
length-widen_all t ws (r ∷ rs) = length-widen_all t (widen t ws r) rs ∙ length-widen t ws r

widen_all-keeps :
    (t : Terminal) (ws : List ℕ) (rs : List (List Cell)) (s : List Cell)
    → Covers t ws s
    → Covers t (widen_all t ws rs) s
unfolding widen_all
widen_all-keeps t ws [] s h = h
widen_all-keeps t ws (r ∷ rs) s h = widen_all-keeps t (widen t ws r) rs s (widen-keeps t ws r s h)

widen_all-Covers :
    (t : Terminal) (ws : List ℕ) (rs : List (List Cell))
    → longest rs ≤ length ws
    → All (Covers t (widen_all t ws rs)) rs
unfolding widen_all
widen_all-Covers t ws [] h = tt
widen_all-Covers t ws (r ∷ rs) h = (
  widen_all-keeps t (widen t ws r) rs r (widen-Covers t ws r (omega arith)),
  widen_all-Covers t (widen t ws r) rs (omega (arith, length-widen t ws r)),
)

length-header_widths : (t : Terminal) (n : ℕ) (hs : List String) → length (header_widths t n hs) ≡ n
unfolding header_widths
length-header_widths t zero hs = refl
length-header_widths t (suc n) [] = ap suc (length-header_widths t n [])
length-header_widths t (suc n) (h ∷ hs) = ap suc (length-header_widths t n hs)

-- A column is as wide as its widest cell.
pub column_widths-Covers :
    (t : Terminal) (hs : List String) (rs : List (List Cell))
    → All (Covers t (column_widths t hs rs)) rs
unfolding column_widths
column_widths-Covers t hs rs =
    widen_all-Covers t _ rs
      (omega (arith, length-header_widths t (max (length hs) (longest rs)) hs))

length-numeric_from :
    (t : Terminal) (i n : ℕ) (rs : List (List Cell)) → length (numeric_from t i n rs) ≡ n
unfolding numeric_from
length-numeric_from t i zero rs = refl
length-numeric_from t i (suc n) rs = ap suc (length-numeric_from t (suc i) n rs)

pub length-numeric_columns :
    (t : Terminal) (rs : List (List Cell)) → length (numeric_columns t rs) ≡ longest rs
unfolding numeric_columns
length-numeric_columns t rs = length-numeric_from t 0 (longest rs) rs

pub length-column_widths :
    (t : Terminal) (hs : List String) (rs : List (List Cell))
    → length (column_widths t hs rs) ≡ max (length hs) (longest rs)
unfolding column_widths
length-column_widths t hs rs =
    length-widen_all t _ rs ∙ length-header_widths t (max (length hs) (longest rs)) hs

-- Each cell is no wider than its heading.
abbrev pub Narrower : Terminal → List Cell → List String → Type 0
Narrower t [] hs = Unit {0}
Narrower t (c ∷ cs) [] = ⊥
Narrower t (c ∷ cs) (h ∷ hs) = (wide t c ≤ t.columns h) × Narrower t cs hs

header_widths-Covers :
    (t : Terminal) (n : ℕ) (hs : List String) (cs : List Cell)
    → length hs ≤ n
    → Narrower t cs hs
    → Covers t (header_widths t n hs) cs
unfolding header_widths
header_widths-Covers t n hs [] h k = tt
header_widths-Covers t n [] (c ∷ cs) h k = absurd k
header_widths-Covers t zero (s ∷ hs) (c ∷ cs) h k = absurd (omega arith)
header_widths-Covers t (suc n) (s ∷ hs) (c ∷ cs) h k =
    (k.0, header_widths-Covers t n hs cs (omega arith) k.1)

-- A column is as wide as its heading.
pub column_widths-Covers_header :
    (t : Terminal) (hs : List String) (rs : List (List Cell)) (cs : List Cell)
    → Narrower t cs hs
    → Covers t (column_widths t hs rs) cs
unfolding column_widths
column_widths-Covers_header t hs rs cs k =
    let n = max (length hs) (longest rs) in
    widen_all-keeps t (header_widths t n hs) rs cs (header_widths-Covers t n hs cs (omega arith) k)

pub length-replace : (ws : List ℕ) (k w : ℕ) → length (replace ws k w) ≡ length ws
unfolding replace
length-replace [] k w = refl
length-replace (v ∷ ws) zero w = refl
length-replace (v ∷ ws) (suc k) w = ap suc (length-replace ws k w)

length-narrowed :
    (t : Terminal) (indent : ℕ) (c : Option ℕ) (ws : List ℕ)
    → length (narrowed t indent c ws) ≡ length ws
unfolding narrowed
length-narrowed t indent none ws = refl
length-narrowed t indent (some k) ws =
    let cut = max (nth ws k - (total indent ws - t.width)) 8 in
    if_cases {A = List ℕ} (λ vs. length vs ≡ length ws)
      (ltb 0 t.width && ltb 0 (total indent ws - t.width)) (replace ws k cut) ws
      (λ _. length-replace ws k cut) (λ _. refl)

pub length-drawn_widths :
    (t : Terminal) (tb : Table) (indent : ℕ)
    → length (drawn_widths t tb indent) ≡ max (length tb.header) (longest tb.rows)
unfolding drawn_widths
length-drawn_widths t tb indent =
    length-narrowed t indent tb.cuttable (column_widths t tb.header tb.rows)
    ∙ length-column_widths t tb.header tb.rows
