-- ===== src/Prelude/Text.antt =====
-- Go's `strings` package, for what the source uses of it, over the native strings.
use Prim.Native.Nat.{ℕ}
use Prim.Native.Char.{Char, code}
use Prim.Native.String
use Prim.Native.String.{String}
use mathlib.Core.Bool.{Bool, true, false, ◌&&◌, ◌||◌}
use mathlib.Core.Path.{◌≡◌, refl, ap, ◌∙◌}
use mathlib.Core.Logic.{◌⊎◌, inl, inr}
use mathlib.Core.List.{List, [], ◌∷◌}
use native.Mathlib.Omega.{arith}
use text.Mathlib.Text.{◌==◌}
use text.Mathlib.TextEquality.{eq_iff}
use text.Mathlib.TextLemmas.{nil-append, cons-append}
use anfra.Prelude.Tests.{Bool-cases, if◌then◌else◌, ◌==◌ as nat_eq, leb}

abbrev pub cat : String → String → String
cat s t = String.◌++◌ s t

-- `strings.HasPrefix(s, p)`
unfoldable pub has_prefix : String → String → Bool
has_prefix s String.[] = true
has_prefix String.[] (String.◌∷◌ d p) = false
has_prefix (String.◌∷◌ c s) (String.◌∷◌ d p) = nat_eq (code c) (code d) && has_prefix s p

-- `strings.HasSuffix(s, p)`
unfoldable pub has_suffix : String → String → Bool
has_suffix String.[] p = String.[] == p
has_suffix (String.◌∷◌ c s) p = String.◌∷◌ c s == p || has_suffix s p

drop_prefix : String → String → String → String
drop_prefix whole s String.[] = s
drop_prefix whole String.[] (String.◌∷◌ d p) = whole
drop_prefix whole (String.◌∷◌ c s) (String.◌∷◌ d p) =
    if nat_eq (code c) (code d) then drop_prefix whole s p else whole

-- `strings.TrimPrefix(s, p)`
unfoldable pub trim_prefix : String → String → String
unfolding drop_prefix
trim_prefix s p = drop_prefix s s p

-- `strings.Contains(s, p)`
unfoldable pub text_contains : String → String → Bool
unfolding has_prefix
text_contains String.[] p = String.[] == p
text_contains (String.◌∷◌ c s) p = has_prefix (String.◌∷◌ c s) p || text_contains s p

-- `strings.Join(xs, sep)`
unfoldable pub join : List String → String → String
join [] sep = ""
join (x ∷ []) sep = x
join (x ∷ y ∷ xs) sep = cat x (cat sep (join (y ∷ xs) sep))

split_from : ℕ → String → String → List String
split_from sep cur String.[] = cur ∷ []
split_from sep cur (String.◌∷◌ c s) =
    let here = split_from sep "" s in
    let more = split_from sep (cat cur (String.◌∷◌ c String.[])) s in
    if nat_eq (code c) sep then cur ∷ here else more

-- `strings.Split(s, c)` for a separator of one character, by its code
unfoldable pub split_on : String → ℕ → List String
unfolding split_from
split_on s sep = split_from sep "" s

-- `unicode.IsSpace`
unfoldable pub is_space : ℕ → Bool
is_space c =
    (leb 9 c && leb c 13)
    || (nat_eq c 32
        || (nat_eq c 0x85
            || (nat_eq c 0xA0
                || (nat_eq c 0x1680
                    || ((leb 0x2000 c && leb c 0x200A)
                        || (nat_eq c 0x2028
                            || (nat_eq c 0x2029
                                || (nat_eq c 0x202F || (nat_eq c 0x205F || nat_eq c 0x3000)))))))))

-- `strings.TrimSpace(s) == ""`
unfoldable pub is_blank : String → Bool
unfolding is_space
is_blank String.[] = true
is_blank (String.◌∷◌ c s) = is_space (code c) && is_blank s

trim_left : String → String
unfolding is_space
trim_left String.[] = ""
trim_left (String.◌∷◌ c s) =
    let rest = trim_left s in if is_space (code c) then rest else String.◌∷◌ c s

unfoldable pub trim_end : String → String
unfolding is_space
trim_end String.[] = ""
trim_end (String.◌∷◌ c s) =
    if is_space (code c) && trim_end s == "" then "" else String.◌∷◌ c (trim_end s)

-- `strings.TrimSpace(s)`
unfoldable pub trim_space : String → String
unfolding trim_left trim_end
trim_space s = trim_end (trim_left s)

-- A text's first character, where it has one, is no space.
abbrev pub StartsBare : String → Type 0
StartsBare s =
    (s ≡ String.[])
    ⊎ ((c : Char) × (r : String) × (s ≡ String.◌∷◌ c r) × (is_space (code c) ≡ false))

trim_left-StartsBare : (s : String) → StartsBare (trim_left s)
unfolding trim_left
trim_left-StartsBare String.[] = inl refl
trim_left-StartsBare (String.◌∷◌ c s) = elim (Bool-cases (is_space (code c))) [
  | inl h ↦ rw h (trim_left-StartsBare s)
  | inr h ↦ inr (c, s, rw h refl, h)
]

trim_end_bare :
    (c : Char) (s : String)
    → is_space (code c) ≡ false
    → trim_end (String.◌∷◌ c s) ≡ String.◌∷◌ c (trim_end s)
unfolding trim_end
trim_end_bare c s h = rw h refl

pub trim_space-StartsBare : (s : String) → StartsBare (trim_space s)
unfolding trim_space trim_end
trim_space-StartsBare s = elim (trim_left-StartsBare s) [
  | inl e ↦ inl (ap trim_end e)
  | inr (c, r, e, h) ↦ inr (c, trim_end r, ap trim_end e ∙ trim_end_bare c r h, h)
]

-- A text that ends in what `trim_end` keeps.
not_empty : (c : Char) (s : String) → (String.◌∷◌ c s) == "" ≡ false
not_empty c s = elim (Bool-cases ((String.◌∷◌ c s) == "")) [
  | inl e ↦ let same = (eq_iff (String.◌∷◌ c s) "").0 e in cc
  | inr e ↦ e
]

append_not_empty : (s : String) (e : Char) (r : String) → (cat s (String.◌∷◌ e r)) == "" ≡ false
append_not_empty String.[] e r = rw (nil-append (String.◌∷◌ e r)) (not_empty e r)
append_not_empty (String.◌∷◌ c s) e r =
    rw (cons-append c s (String.◌∷◌ e r)) (not_empty c (cat s (String.◌∷◌ e r)))

trim_end_cons :
    (c : Char) (s : String)
    → trim_end s ≡ s
    → s == "" ≡ false
    → trim_end (String.◌∷◌ c s) ≡ String.◌∷◌ c s
unfolding trim_end
trim_end_cons c s e h = ground (arith, e, h)

trim_end-append :
    (s : String) (e : Char) (r : String)
    → trim_end (String.◌∷◌ e r) ≡ String.◌∷◌ e r
    → trim_end (cat s (String.◌∷◌ e r)) ≡ cat s (String.◌∷◌ e r)
trim_end-append String.[] e r h = rw (nil-append (String.◌∷◌ e r)) h
trim_end-append (String.◌∷◌ c s) e r h =
    rw (cons-append c s (String.◌∷◌ e r))
      (trim_end_cons c (cat s (String.◌∷◌ e r)) (trim_end-append s e r h) (append_not_empty s e r))

pub trim_space-append :
    (c : Char) (s : String) (e : Char) (r : String)
    → is_space (code c) ≡ false
    → trim_end (String.◌∷◌ e r) ≡ String.◌∷◌ e r
    → trim_space (cat (String.◌∷◌ c s) (String.◌∷◌ e r)) ≡ cat (String.◌∷◌ c s) (String.◌∷◌ e r)
unfolding trim_space trim_left
trim_space-append c s e r bare h =
    rw (cons-append c s (String.◌∷◌ e r))
      (rw bare (rw (cons-append c s (String.◌∷◌ e r)) at (trim_end-append (String.◌∷◌ c s) e r h)))
