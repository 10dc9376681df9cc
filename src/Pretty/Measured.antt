-- ===== src/Pretty/Measured.antt =====
-- The columns of a line of the pretty format (internal/pretty/pretty.go), and what is relied on of the
-- package that measures texts.
use anfra.Prelude.{
  ℕ, zero, suc, ◌+◌, ◌-◌, ◌≤◌, String, ◌≡◌, refl, sym, ap, ◌∙◌, Bool, true, false, ◌&&◌, ◌||◌, [],
  ◌∷◌, ◌++◌, arith, leb, if◌then◌else◌, All, cat,
}
use Prim.Native.Char.{code as char_code}
use text.Mathlib.TextLemmas.{nil-append, cons-append, append-nil}
use anfra.Pretty.{
  Terminal, Tone, Span, Cell, Line, text_of, wide, bare, columns_of, spaces, unstyled, code_line,
  span_line, cell_line, glyphs,
}

-- Printable ASCII and box drawing: characters that each stand alone and that no escape code starts
-- with.
unfoldable pub is_simple : String → Bool
is_simple String.[] = true
is_simple (String.◌∷◌ c s) =
    ((leb 32 (char_code c) && leb (char_code c) 126)
      || (leb 0x2500 (char_code c) && leb (char_code c) 0x257F))
    && is_simple s

pub is_simple-cat :
    (a b : String) → is_simple a ≡ true → is_simple b ≡ true → is_simple (cat a b) ≡ true
unfolding is_simple
is_simple-cat String.[] b h k = rw (nil-append b) k
is_simple-cat (String.◌∷◌ c a) b h k =
    rw (cons-append c a b) (ground (arith, h, is_simple-cat a b (ground (arith, h)) k))

-- What the drawing relies on `ansi` for: in texts of simple characters the columns of two are those of
-- each, a space and a border's character take one, and a cut text takes no more than it was cut to.
pub record Measures (t : Terminal) : Type 0 where
  pub columns_none : t.columns "" ≡ 0
  pub columns-cat :
      (a b : String)
      → is_simple a ≡ true
      → is_simple b ≡ true
      → t.columns (cat a b) ≡ t.columns a + t.columns b
  pub columns_space : t.columns " " ≡ 1
  pub columns-glyph : All (λ g. t.columns g ≡ 1) glyphs
  pub columns-cut : (s tail : String) (n : ℕ) → t.columns (t.cut s n tail) ≤ n

spaces-simple : (n : ℕ) → is_simple (spaces n) ≡ true
unfolding spaces is_simple
spaces-simple zero = refl
spaces-simple (suc n) = is_simple-cat " " (spaces n) refl (spaces-simple n)

module _ (t : Terminal) (m : Measures t) where
  pub columns-spaces : (n : ℕ) → t.columns (spaces n) ≡ n
  unfolding spaces is_simple
  columns-spaces zero = m.columns_none
  columns-spaces (suc n) =
      rw (m.columns-cat " " (spaces n) refl (spaces-simple n), m.columns_space, columns-spaces n)
        (omega arith)

pub columns_of-append :
    (t : Terminal) (k l : Line) → columns_of t (k ++ l) ≡ columns_of t k + columns_of t l
unfolding columns_of
columns_of-append t [] l = omega arith
columns_of-append t (p ∷ k) l = omega (arith, columns_of-append t k l)

span_line_plain :
    (t : Terminal) (k : Tone) (s : String)
    → unstyled t ≡ true
    → columns_of t (span_line t k s) ≡ t.columns s
unfolding span_line columns_of code_line
span_line_plain t Tone.plain s h = rw h (omega arith)
span_line_plain t Tone.faint s h = omega arith
span_line_plain t Tone.good s h = omega arith
span_line_plain t Tone.warn s h = omega arith
span_line_plain t Tone.bad s h = omega arith
span_line_plain t Tone.url s h = omega arith

-- The columns of a cell's parts.
abbrev pub parts : Terminal → Cell → ℕ
parts t [] = 0
parts t (s ∷ c) = t.columns s.text + parts t c

-- A cell whose text takes the columns of its parts: no character is made by two of them.
abbrev pub Additive : Terminal → Cell → Type 0
Additive t c = wide t c ≡ parts t c

pub one_part-Additive : (t : Terminal) (s : Span) → Additive t (s ∷ [])
unfolding text_of
one_part-Additive t s = ap t.columns (append-nil s.text) ∙ omega arith

columns_of-parts :
    (t : Terminal) (c : Cell) → unstyled t ≡ true → columns_of t (cell_line t c) ≡ parts t c
unfolding cell_line columns_of
columns_of-parts t [] h = refl
columns_of-parts t (s ∷ c) h =
    rw
      (
        columns_of-append t (span_line t s.tone s.text) (cell_line t c),
        span_line_plain t s.tone s.text h,
        columns_of-parts t c h,
      )
      refl

-- Without styles a cell takes the columns the code measures for it.
pub columns_of-cell_line :
    (t : Terminal) (c : Cell)
    → unstyled t ≡ true
    → Additive t c
    → columns_of t (cell_line t c) ≡ wide t c
columns_of-cell_line t c h a = columns_of-parts t c h ∙ sym a

-- A line padded to `w` on either side takes `w` columns.
pub pad_columns :
    (t : Terminal) (m : Measures t) (n : Bool) (w k : ℕ) (l : Line)
    → columns_of t l ≡ k
    → k ≤ w
    → columns_of t (if n then bare (spaces (w - k)) ∷ l else l ++ bare (spaces (w - k)) ∷ []) ≡ w
unfolding columns_of
pad_columns t m true w k l e h = rw (columns-spaces t m (w - k)) (omega arith)
pad_columns t m false w k l e h =
    rw (columns_of-append t l (bare (spaces (w - k)) ∷ []), columns-spaces t m (w - k))
      (omega arith)
