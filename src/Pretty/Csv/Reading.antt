-- ===== src/Pretty/Csv/Reading.antt =====
-- What a CSV reader reads of a field that was quoted where it had to be.
use anfra.Prelude.{
  ℕ, String, ◌≡◌, refl, ap, inl, inr, true, false, List, [], ◌∷◌, arith, ◌==◌, if◌then◌else◌,
  Bool-cases, cat,
}
use Prim.Native.Char.{Char, code}
use text.Mathlib.TextLemmas.{nil-append, cons-append, append_assoc}
use anfra.Pretty.Csv.{quote, any_special, is_special, doubled, needs_quotes, csv_field}

pub data Mode : Type 0 where
  begin bare_field in_quotes after_quote : Mode

-- A field and those after it.
abbrev pub Fields : Type 0
Fields = String × List String

abbrev pub put : Char → Fields → Fields
put c (f, fs) = (String.◌∷◌ c f, fs)

abbrev pub next : Fields → Fields
next (f, fs) = ("", f ∷ fs)

-- The reader of a record: quotes open a field and close it, a quote in quotes is two.
unfoldable pub read : Mode → ℕ → String → Fields
read m sep String.[] = ("", [])
read begin sep (String.◌∷◌ c s) =
    let opened = read in_quotes sep s in
    let ended = next (read begin sep s) in
    let more = put c (read bare_field sep s) in
    if code c == 34 then opened else if code c == sep then ended else more
read bare_field sep (String.◌∷◌ c s) =
    let ended = next (read begin sep s) in
    let more = put c (read bare_field sep s) in if code c == sep then ended else more
read in_quotes sep (String.◌∷◌ c s) =
    let closed = read after_quote sep s in
    let more = put c (read in_quotes sep s) in if code c == 34 then closed else more
read after_quote sep (String.◌∷◌ c s) =
    let doubled_quote = put c (read in_quotes sep s) in
    let ended = next (read begin sep s) in
    let more = put c (read bare_field sep s) in
    if code c == 34 then doubled_quote else if code c == sep then ended else more

unfoldable pub prefix : String → Fields → Fields
prefix String.[] p = p
prefix (String.◌∷◌ c s) p = put c (prefix s p)

-- What may follow a field: nothing, or the separator.
pub data Ends (sep : ℕ) : String → Type 0 where
  at_end : Ends sep String.[]
  at_sep : {c : Char} {s : String} → code c ≡ sep → Ends sep (String.◌∷◌ c s)

read_bare :
    (sep : ℕ) (x r : String)
    → any_special sep x ≡ false
    → read bare_field sep (cat x r) ≡ prefix x (read bare_field sep r)
unfolding read prefix any_special is_special
read_bare sep String.[] r h = rw (nil-append r) refl
read_bare sep (String.◌∷◌ c x) r h = rw (cons-append c x r) (ground (arith, read_bare sep x r))

quoted_twice :
    (sep : ℕ) (c : Char) (x r : String)
    → (code c == 34) ≡ true
    → read in_quotes sep (cat (doubled x) (String.◌∷◌ quote r)) ≡ prefix x (read after_quote sep r)
    → read in_quotes sep (cat (doubled (String.◌∷◌ c x)) (String.◌∷◌ quote r))
      ≡ prefix (String.◌∷◌ c x) (read after_quote sep r)
unfolding doubled
quoted_twice sep c x r q h =
    rw
      (
        q,
        cons-append c (String.◌∷◌ c (doubled x)) (String.◌∷◌ quote r),
        cons-append c (doubled x) (String.◌∷◌ quote r),
      )
      (unfold read prefix in rw q (ap (put c) h))

quoted_once :
    (sep : ℕ) (c : Char) (x r : String)
    → (code c == 34) ≡ false
    → read in_quotes sep (cat (doubled x) (String.◌∷◌ quote r)) ≡ prefix x (read after_quote sep r)
    → read in_quotes sep (cat (doubled (String.◌∷◌ c x)) (String.◌∷◌ quote r))
      ≡ prefix (String.◌∷◌ c x) (read after_quote sep r)
unfolding doubled
quoted_once sep c x r q h =
    rw (q, cons-append c (doubled x) (String.◌∷◌ quote r))
      (unfold read prefix in rw q (ap (put c) h))

read_quoted :
    (sep : ℕ) (x r : String)
    → read in_quotes sep (cat (doubled x) (String.◌∷◌ quote r)) ≡ prefix x (read after_quote sep r)
unfolding read prefix doubled
read_quoted sep String.[] r = rw (nil-append (String.◌∷◌ quote r)) refl
read_quoted sep (String.◌∷◌ c x) r = elim (Bool-cases (code c == 34)) [
  | inl q ↦ quoted_twice sep c x r q (read_quoted sep x r)
  | inr q ↦ quoted_once sep c x r q (read_quoted sep x r)
]

closing-Ends :
    (sep : ℕ) (r : String)
    → Ends sep r
    → (sep == 34) ≡ false
    → (read after_quote sep r ≡ read bare_field sep r) × (read begin sep r ≡ read bare_field sep r)
unfolding read
closing-Ends sep r at_end h = (refl, refl)
closing-Ends sep r (at_sep {c} {s} e) h = (rw (e, h) (ground arith), rw (e, h) (ground arith))

read_unquoted :
    (sep : ℕ) (x r : String)
    → any_special sep x ≡ false
    → read begin sep r ≡ read bare_field sep r
    → read begin sep (cat x r) ≡ prefix x (read bare_field sep r)
unfolding prefix any_special is_special
read_unquoted sep String.[] r h e = rw (nil-append r) e
read_unquoted sep (String.◌∷◌ c x) r h e =
    rw (cons-append c x r) (unfold read in ground (arith, read_bare sep x r))

plain_field : (sep : ℕ) (x : String) → needs_quotes sep x ≡ false → any_special sep x ≡ false
unfolding needs_quotes
plain_field sep x h = ground arith

pub read_field :
    (sep : ℕ) (x r : String)
    → (sep == 34) ≡ false
    → Ends sep r
    → read begin sep (cat (csv_field sep x) r) ≡ prefix x (read bare_field sep r)
unfolding csv_field
read_field sep x r h e = elim (Bool-cases (needs_quotes sep x)) [
  | inl q ↦
      rw
        (
          q,
          cons-append quote (cat (doubled x) (String.◌∷◌ quote String.[])) r,
          append_assoc (doubled x) (String.◌∷◌ quote String.[]) r,
          cons-append quote String.[] r,
          nil-append r,
        )
        (unfold read in rw (read_quoted sep x r, (closing-Ends sep r e h).0) refl)
  | inr q ↦ rw q (read_unquoted sep x r (plain_field sep x q) (closing-Ends sep r e h).1)
]
