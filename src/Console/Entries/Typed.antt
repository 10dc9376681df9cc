-- ===== src/Console/Entries/Typed.antt =====
-- What `textArgs` of cmd/anfra/console_session.go gives of a text that its end follows.
use anfra.Prelude.{
  ℕ, ◌+◌, String, ◌≡◌, refl, ap, inl, inr, false, arith, str_eq, eq_iff, eq_refl, Bool-cases, cat,
  is_space, trim_end, trim_space-append,
}
use Prim.Native.Char.{Char, code}
use text.Mathlib.TextLemmas.{nil-append, cons-append, append-nil}
use anfra.Console.Entries.{trim_suffix, typed}

characters : String → ℕ
characters String.[] = 0
characters (String.◌∷◌ c s) = characters s + 1

characters-cat : (s t : String) → characters (cat s t) ≡ characters s + characters t
unfolding characters
characters-cat String.[] t = rw (nil-append t) (omega arith)
characters-cat (String.◌∷◌ c s) t = rw (cons-append c s t) (omega (arith, characters-cat s t))

longer : (c : Char) (s end : String) → str_eq (String.◌∷◌ c (cat s end)) end ≡ false
unfolding characters
longer c s end = elim (Bool-cases (str_eq (String.◌∷◌ c (cat s end)) end)) [
  | inl e ↦
      let same = ap characters ((eq_iff (String.◌∷◌ c (cat s end)) end).0 e) in
      absurd (omega (arith, same, characters-cat s end))
  | inr e ↦ e
]

trim_suffix_whole : (end : String) → trim_suffix end end ≡ ""
unfolding trim_suffix
trim_suffix_whole String.[] = refl
trim_suffix_whole (String.◌∷◌ c s) = rw (eq_refl (String.◌∷◌ c s)) refl

trim_suffix-cat : (s end : String) → trim_suffix (cat s end) end ≡ s
unfolding trim_suffix
trim_suffix-cat String.[] end = rw (nil-append end) (trim_suffix_whole end)
trim_suffix-cat (String.◌∷◌ c s) end =
    rw (cons-append c s end) (rw (longer c s end) (ap (String.◌∷◌ c) (trim_suffix-cat s end)))

-- The mode's language and what ends a text of it.
pub data Ends : String → String → Type 0 where
  aql_end : Ends "aql" ";;"
  sql_end : Ends "sql" ";"
  no_end : (lang : String) → str_eq lang "aql" ≡ false → str_eq lang "sql" ≡ false → Ends lang ""

pub typed-ended :
    (lang end : String) (c : Char) (s : String)
    → Ends lang end
    → is_space (code c) ≡ false
    → typed lang (cat (String.◌∷◌ c s) end) ≡ String.◌∷◌ c s
unfolding typed is_space trim_end
typed-ended lang end c s aql_end bare =
    rw (trim_space-append c s ";" ";" bare refl) (trim_suffix-cat (String.◌∷◌ c s) ";;")
typed-ended lang end c s sql_end bare =
    rw (trim_space-append c s ";" "" bare refl) (trim_suffix-cat (String.◌∷◌ c s) ";")
typed-ended lang end c s (no_end _ p q) bare = rw p (rw q (append-nil (String.◌∷◌ c s)))
