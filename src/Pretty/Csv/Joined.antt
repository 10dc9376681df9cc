-- ===== src/Pretty/Csv/Joined.antt =====
-- A joined cell's text read back, as a CSV reader reads a record.
use anfra.Prelude.{
  ℕ, String, ◌≡◌, refl, sym, ap, false, some, List, [], ◌∷◌, ◌++◌, map, arith, str_eq, eq_iff, ◌==◌,
  if_cases, cat,
}
use Prim.Native.Char.{Char, code}
use text.Mathlib.TextLemmas.{nil-append, cons-append, append_assoc, append-nil}
use anfra.Pretty.Csv.{
  Cell, text_of, joined_cell, quoted_cell, csv_field, rest_joined, first_tone, first_line,
}
use anfra.Pretty.Csv.Reading.{
  begin, bare_field, Fields, next, read, prefix, Ends, at_end, at_sep, read_field,
}

text_of-append : (a b : Cell) → text_of (a ++ b) ≡ cat (text_of a) (text_of b)
unfolding text_of
text_of-append [] b = sym (nil-append (text_of b))
text_of-append (s ∷ a) b =
    rw (text_of-append a b) (sym (append_assoc s.text (text_of a) (text_of b)))

text_of-quoted_cell : (sep : ℕ) (c : Cell) → text_of (quoted_cell sep c) ≡ csv_field sep (text_of c)
unfolding quoted_cell
text_of-quoted_cell sep c =
    if_cases (λ d. text_of d ≡ csv_field sep (text_of c))
      (str_eq (csv_field sep (text_of c)) (text_of c)) c
      (record { text = csv_field sep (text_of c); tone = first_tone c } ∷ [])
      (λ h. sym ((eq_iff _ _).0 h)) (λ _. unfold text_of in append-nil (csv_field sep (text_of c)))

rest_Ends : (sep : Char) (cs : List Cell) → Ends (code sep) (text_of (rest_joined sep cs))
unfolding text_of rest_joined
rest_Ends sep [] = at_end
rest_Ends sep (c ∷ cs) =
    rw
      (cons-append sep String.[]
        (text_of (quoted_cell (code sep) (first_line c) ++ rest_joined sep cs)))
      (at_sep refl)

prefix-end : (x : String) (fs : List String) → prefix x ("", fs) ≡ (x, fs)
unfolding prefix
prefix-end String.[] fs = refl
prefix-end (String.◌∷◌ c x) fs = rw (prefix-end x fs) refl

abbrev shown : Cell → String
shown c = text_of (first_line c)

-- A cell before the others of a joined one.
read_cell :
    (sep : Char) (c : Cell) (cs : List Cell)
    → (code sep == 34) ≡ false
    → read bare_field (code sep) (text_of (rest_joined sep cs)) ≡ ("", map shown cs)
    → read begin (code sep) (text_of (quoted_cell (code sep) (first_line c) ++ rest_joined sep cs))
      ≡ (shown c, map shown cs)
read_cell sep c cs h ih =
    rw
      (
        text_of-append (quoted_cell (code sep) (first_line c)) (rest_joined sep cs),
        text_of-quoted_cell (code sep) (first_line c),
        read_field (code sep) (shown c) (text_of (rest_joined sep cs)) h (rest_Ends sep cs),
        ih,
      )
      (prefix-end (shown c) (map shown cs))

text_of-rest_joined :
    (sep : Char) (c : Cell) (cs : List Cell)
    → text_of (rest_joined sep (c ∷ cs))
      ≡ String.◌∷◌ sep (text_of (quoted_cell (code sep) (first_line c) ++ rest_joined sep cs))
unfolding rest_joined
text_of-rest_joined sep c cs =
    let after = text_of (quoted_cell (code sep) (first_line c) ++ rest_joined sep cs) in
    unfold text_of in rw (cons-append sep String.[] after, nil-append after) refl

read_separator :
    (sep : Char) (s : String)
    → read bare_field (code sep) (String.◌∷◌ sep s) ≡ next (read begin (code sep) s)
unfolding read
read_separator sep s = ground arith

read_rest :
    (sep : Char) (cs : List Cell)
    → (code sep == 34) ≡ false
    → read bare_field (code sep) (text_of (rest_joined sep cs)) ≡ ("", map shown cs)
read_rest sep [] h = unfold rest_joined text_of read in refl
read_rest sep (c ∷ cs) h =
    rw
      (
        text_of-rest_joined sep c cs,
        read_separator sep (text_of (quoted_cell (code sep) (first_line c) ++ rest_joined sep cs)),
        read_cell sep c cs h (read_rest sep cs h),
      )
      refl

abbrev pub all_fields : Fields → List String
all_fields (f, fs) = f ∷ fs

-- Cells joined by a separator that is not a quote read back, by a CSV reader with that separator, as
-- the first lines of their texts: a separator, a quote or a space in one never makes it two, or less.
pub read-joined_cell :
    (sep : Char) (c : Cell) (cs : List Cell)
    → (code sep == 34) ≡ false
    → (j : Cell) × (joined_cell sep (some (c ∷ cs)) ≡ some j)
      × (all_fields (read begin (code sep) (text_of j))
          ≡ map (λ d. text_of (first_line d)) (c ∷ cs))
unfolding joined_cell
read-joined_cell sep c cs h = (
  quoted_cell (code sep) (first_line c) ++ rest_joined sep cs,
  refl,
  ap all_fields (read_cell sep c cs h (read_rest sep cs h)),
)
