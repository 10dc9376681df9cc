-- ===== src/Console/Words.antt =====
-- Words quoted for the console are the words it reads.
use anfra.Prelude.{
  String, ◌≡◌, refl, ap, ◌∙◌, inl, inr, true, false, List, [], ◌∷◌, ◌==◌, if◌then◌else◌, Bool-cases,
  cat, ok,
}
use Prim.Native.Char.{Char, code}
use text.Mathlib.TextLemmas.{nil-append, cons-append, append-nil, append_assoc}
use anfra.Console.{outside, single, push, ended, split_from, split_args}

-- A word's text in single quotes: a quote is closed over, escaped and opened again.
pub in_quotes : String → String
in_quotes String.[] = ""
in_quotes (String.◌∷◌ c s) =
    let rest = in_quotes s in
    if code c == 39
    then String.◌∷◌ c (String.◌∷◌ "\\" (String.◌∷◌ c (String.◌∷◌ c rest)))
    else String.◌∷◌ c rest

-- A line of words, each in single quotes, a space apart.
unfoldable pub shell_line : List String → String
unfolding in_quotes
shell_line [] = ""
shell_line (w ∷ []) = String.◌∷◌ "'" (cat (in_quotes w) (String.◌∷◌ "'" String.[]))
shell_line (w ∷ v ∷ ws) =
    String.◌∷◌ "'" (cat (in_quotes w) (String.◌∷◌ "'" (String.◌∷◌ " " (shell_line (v ∷ ws)))))

push-cat : (word : String) (c : Char) (s : String) → cat (push word c) s ≡ cat word (String.◌∷◌ c s)
unfolding push
push-cat word c s =
    rw (append_assoc word (String.◌∷◌ c String.[]) s, cons-append c String.[] s, nil-append s) refl

single_closes :
    (word : String) (c : Char) (s : String)
    → (code c == 39) ≡ true
    → split_from single true word (String.◌∷◌ c s) ≡ split_from outside true word s
unfolding split_from
single_closes word c s q = rw q refl

single_keeps :
    (word : String) (c : Char) (s : String)
    → (code c == 39) ≡ false
    → split_from single true word (String.◌∷◌ c s) ≡ split_from single true (push word c) s
unfolding split_from
single_keeps word c s q = rw q refl

single_opens :
    (word : String) (c : Char) (s : String)
    → (code c == 39) ≡ true
    → split_from outside true word (String.◌∷◌ c s) ≡ split_from single true word s
unfolding split_from
single_opens word c s q = rw q refl

-- A quote closed over, escaped and opened again is the quote.
single_reopens :
    (word : String) (c : Char) (s : String)
    → (code c == 39) ≡ true
    → split_from single true word (String.◌∷◌ c (String.◌∷◌ "\\" (String.◌∷◌ c (String.◌∷◌ c s))))
      ≡ split_from single true (push word c) s
single_reopens word c s q =
    single_closes word c _ q ∙ (unfold split_from in refl ∙ single_opens (push word c) c s q)

in_quotes_quote :
    (c : Char) (w s : String)
    → (code c == 39) ≡ true
    → cat (in_quotes (String.◌∷◌ c w)) s
      ≡ String.◌∷◌ c (String.◌∷◌ "\\" (String.◌∷◌ c (String.◌∷◌ c (cat (in_quotes w) s))))
unfolding in_quotes
in_quotes_quote c w s q =
    rw
      (
        q,
        cons-append c (String.◌∷◌ "\\" (String.◌∷◌ c (String.◌∷◌ c (in_quotes w)))) s,
        cons-append "\\" (String.◌∷◌ c (String.◌∷◌ c (in_quotes w))) s,
        cons-append c (String.◌∷◌ c (in_quotes w)) s,
        cons-append c (in_quotes w) s,
      )
      refl

in_quotes_other :
    (c : Char) (w s : String)
    → (code c == 39) ≡ false
    → cat (in_quotes (String.◌∷◌ c w)) s ≡ String.◌∷◌ c (cat (in_quotes w) s)
unfolding in_quotes
in_quotes_other c w s q = rw (q, cons-append c (in_quotes w) s) refl

-- A quoted word is read whole, up to its closing quote.
split_single :
    (word w s : String)
    → split_from single true word (cat (in_quotes w) (String.◌∷◌ "'" s))
      ≡ split_from outside true (cat word w) s
split_single word String.[] s =
    unfold in_quotes in
    rw (nil-append (String.◌∷◌ "'" s), append-nil word) (single_closes word "'" s refl)
split_single word (String.◌∷◌ c w) s = elim (Bool-cases (code c == 39)) [
  | inl q ↦
      rw
        (
          in_quotes_quote c w (String.◌∷◌ "'" s) q,
          single_reopens word c (cat (in_quotes w) (String.◌∷◌ "'" s)) q,
        )
        (split_single (push word c) w s ∙ ap (λ v. split_from outside true v s) (push-cat word c w))
  | inr q ↦
      rw
        (
          in_quotes_other c w (String.◌∷◌ "'" s) q,
          single_keeps word c (cat (in_quotes w) (String.◌∷◌ "'" s)) q,
        )
        (split_single (push word c) w s ∙ ap (λ v. split_from outside true v s) (push-cat word c w))
]

split_word :
    (w s : String)
    → split_from outside false "" (String.◌∷◌ "'" (cat (in_quotes w) (String.◌∷◌ "'" s)))
      ≡ split_from outside true w s
split_word w s =
    unfold split_from in
    (split_single "" w s ∙ ap (λ v. split_from outside true v s) (nil-append w))

split_gap :
    (w : String) (ws : List String)
    → split_from outside false "" (shell_line ws) ≡ ok ws
    → split_from outside true w (String.◌∷◌ " " (shell_line ws)) ≡ ok (w ∷ ws)
unfolding split_from ended
split_gap w ws h = rw h refl

-- Any words, each in single quotes with the quotes in it closed over, escaped and opened again, and a
-- space apart, are the words the line is split into: none splits, joins another, or changes.
pub split_args-shell_line : (ws : List String) → split_args (shell_line ws) ≡ ok ws
unfolding split_args shell_line
split_args-shell_line [] = refl
split_args-shell_line (w ∷ []) = split_word w String.[] ∙ (unfold split_from in refl)
split_args-shell_line (w ∷ v ∷ ws) =
    split_word w (String.◌∷◌ " " (shell_line (v ∷ ws)))
    ∙ split_gap w (v ∷ ws) (split_args-shell_line (v ∷ ws))
