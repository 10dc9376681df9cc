-- ===== src/Pretty/Draw/Total.antt =====
-- Drawing a view returns.

use anfra.Prelude.{
  ℕ, ◌+◌, ◌≤◌, String, ◌≡◌, refl, ◌⊎◌, inl, inr, Bool, true, false, Option, none, some, List, [],
  ◌∷◌, ◌++◌, Bool-cases, length, Returns,
}
use anfra.Pretty.{Terminal, Value, Entries, no_entry, entry, Items, no_item, item, Table, Doc, Line}
use anfra.Pretty.Labels.{run_label_widths_total, run_widths}
use anfra.Pretty.Tables.{longest}
use anfra.Pretty.Grid.Total.{grid-Returns}
use anfra.Pretty.Tables.Total.{table_total}
use anfra.Pretty.Draw.{
  Lines, both, draw_entries, draw_value, draw_items, tabled, doc_lines, headings, fits, table,
  message_lines, hints_lines,
}

-- There are no more labels than the longest row has values, and no more headings than the longest
-- row has cells.
abbrev pub TableIsSound : Option Table → Type 0
TableIsSound none = Unit {0}
TableIsSound (some tb) = length tb.header ≤ longest tb.rows

unfoldable mutual
  pub IsSound : Entries → Type 0
  IsSound no_entry = Unit {0}
  IsSound (entry l v es) = ValueIsSound v × IsSound es

  pub ValueIsSound : Value → Type 0
  ValueIsSound (Value.text c) = Unit {0}
  ValueIsSound (Value.lines cs) = Unit {0}
  ValueIsSound (Value.block cs) = Unit {0}
  ValueIsSound (Value.section es) = IsSound es
  ValueIsSound (Value.listed tb is) = TableIsSound tb × ItemsIsSound is
  ValueIsSound (Value.rows rs labels) = length labels ≤ longest rs

  pub ItemsIsSound : Items → Type 0
  ItemsIsSound no_item = Unit {0}
  ItemsIsSound (item h es is) = IsSound es × ItemsIsSound is

both-Returns : (k l : Lines) → Returns k → Returns l → Returns (both k l)
unfolding both
both-Returns none l (a, e) h = absurd (cc)
both-Returns (some ks) none h (a, e) = absurd (cc)
both-Returns (some ks) (some ls) h k = (ks ++ ls, refl)

tabled-Returns :
    (t : Terminal) (o : Option Table) (n : ℕ)
    → TableIsSound o
    → (tabled t o n ≡ none) ⊎ ((ls : Lines) × (tabled t o n ≡ some ls) × Returns ls)
unfolding tabled
tabled-Returns t none n h = inl refl
tabled-Returns t (some tb) n h = elim (Bool-cases (fits t tb n)) [
  | inl f ↦ inr (table t tb n, rw f refl, table_total t tb n h)
  | inr f ↦ inl (rw f refl)
]

mutual
  unfolding draw_entries IsSound

  entries-Returns :
      (t : Terminal) (n : ℕ) (top first above : Bool) (ws : List ℕ) (es : Entries)
      → IsSound es
      → Returns (draw_entries t n top first above (some ws) es)
  entries-Returns t n top first above ws no_entry h = ([], refl)
  entries-Returns t n top first above ws (entry l v es) (p, h) =
      both-Returns _ _ (_, refl)
        (both-Returns _ _ (value-Returns t n _ l v p) (entries-Returns t n top false _ _ es h))

  value-Returns :
      (t : Terminal) (n w : ℕ) (l : String) (v : Value)
      → ValueIsSound v
      → Returns (draw_value t n w l v)
  value-Returns t n w l (Value.text c) h = (_, refl)
  value-Returns t n w l (Value.lines cs) h = (_, refl)
  value-Returns t n w l (Value.block cs) h = (_, refl)
  value-Returns t n w l (Value.section es) h =
      both-Returns (some (headings t n l ∷ [])) _ (_, refl)
        (rw (run_label_widths_total t es) (entries-Returns t (n + 2) false true false _ es h))
  value-Returns t n w l (Value.listed tb is) (p, h) =
      both-Returns (some (headings t n l ∷ [])) _ (_, refl)
        (elim (tabled-Returns t tb (n + 2) p) [
          | inl e ↦ rw e (items-Returns t n true is h)
          | inr (ls, e, r) ↦ rw e r
        ])
  value-Returns t n w l (Value.rows rs labels) h =
      both-Returns (some (headings t n l ∷ [])) _ (_, refl) (grid-Returns t rs labels (n + 2) h)

  items-Returns :
      (t : Terminal) (n : ℕ) (first : Bool) (is : Items)
      → ItemsIsSound is
      → Returns (draw_items t n first is)
  items-Returns t n first no_item h = ([], refl)
  items-Returns t n first (item s es is) (p, h) =
      both-Returns _ _ (_, refl)
        (both-Returns _ _
          (rw (run_label_widths_total t es) (entries-Returns t (n + 4) false true false _ es p))
          (items-Returns t n false is h))

-- Drawing a result's view ends, and without an index out of range: in every list drawn as a table the
-- heading has no more columns than the longest row, and in all rows of data there are no more labels
-- than the longest row has values, however deep they are nested.
pub doc_total :
    (t : Terminal) (d : Doc) → IsSound d.body → (ls : List Line) × (doc_lines t d ≡ some ls)
unfolding doc_lines
doc_total t d h =
    both-Returns (some (message_lines t d)) _ (_, refl)
      (both-Returns _ (some (hints_lines t d))
        (rw (run_label_widths_total t d.body)
          (entries-Returns t 0 true true false (run_widths t 0 d.body) d.body h))
        (_, refl))
