-- ===== src/Console/Entries/Answers.antt =====
-- Every entry has an answer.
use anfra.Prelude.{
  ℕ, String, ◌≡◌, refl, inl, inr, Bool, true, false, not, ◌&&◌, ◌||◌, some, List, [], ◌∷◌, arith,
  str_eq, ◌==◌, if◌then◌else◌, if_cases, is_nil, contains, has_prefix, trim_prefix, Result, ok, err,
  is_space, StartsBare, Returns, trim_space-StartsBare,
}
use Prim.Native.Char.{Char, code}
use anfra.Console.{
  Place, outside, single, double, escape, kept, push, backslash, ended, is_gap, is_kept, split_from,
  split_args,
}
use anfra.Console.Flags.{Session}
use anfra.Console.Entries.{
  Reading, Answer, worded, commanded, dispatch, text_args, trim_space, set_line,
}

-- A word begun is read, or a quote isn't closed: there is a word.
abbrev pub SomeWord : Result ℕ (List String) → Type 0
SomeWord (err q) = Unit {0}
SomeWord (ok []) = ⊥
SomeWord (ok (w ∷ ws)) = Unit {0}

ended-SomeWord : (word : String) (r : Result ℕ (List String)) → SomeWord (ended true word r)
unfolding ended
ended-SomeWord word (err q) = tt
ended-SomeWord word (ok ws) = tt

-- Both ways a test goes.
either_word :
    (b : Bool) (x y : Result ℕ (List String))
    → SomeWord x
    → SomeWord y
    → SomeWord (if b then x else y)
either_word true x y p q = p
either_word false x y p q = q

split_from-SomeWord : (p : Place) (word s : String) → SomeWord (split_from p true word s)
unfolding split_from
split_from-SomeWord outside word String.[] = ended-SomeWord word (ok [])
split_from-SomeWord single word String.[] = tt
split_from-SomeWord double word String.[] = tt
split_from-SomeWord escape word String.[] = tt
split_from-SomeWord kept word String.[] = tt
split_from-SomeWord single word (String.◌∷◌ c s) =
    either_word (code c == 39) _ _ (split_from-SomeWord outside word s)
      (split_from-SomeWord single (push word c) s)
split_from-SomeWord double word (String.◌∷◌ c s) =
    either_word (code c == 34) _ _ (split_from-SomeWord outside word s) (
      either_word (code c == 92) _ _ (split_from-SomeWord kept word s)
        (split_from-SomeWord double (push word c) s))
split_from-SomeWord kept word (String.◌∷◌ c s) =
    either_word (is_kept (code c)) _ _ (split_from-SomeWord double (push word c) s)
      (split_from-SomeWord double (push (push word backslash) c) s)
split_from-SomeWord escape word (String.◌∷◌ c s) = split_from-SomeWord outside (push word c) s
split_from-SomeWord outside word (String.◌∷◌ c s) =
    either_word (code c == 39) _ _ (split_from-SomeWord single word s) (
      either_word (code c == 34) _ _ (split_from-SomeWord double word s) (
        either_word (code c == 92) _ _ (split_from-SomeWord escape word s) (
          either_word (is_gap (code c)) _ _ (ended-SomeWord word (split_from outside false "" s))
            (split_from-SomeWord outside (push word c) s))))

gap_space : (c : ℕ) → is_space c ≡ false → is_gap c ≡ false
unfolding is_space is_gap
gap_space c h = ground arith

-- A text that starts with no space has a word.
split_args-SomeWord :
    (c : Char) (s : String) → is_space (code c) ≡ false → SomeWord (split_args (String.◌∷◌ c s))
unfolding split_args split_from
split_args-SomeWord c s h = either_word (code c == 39) _ _ (split_from-SomeWord single "" s) (
    either_word (code c == 34) _ _ (split_from-SomeWord double "" s) (
      either_word (code c == 92) _ _ (split_from-SomeWord escape "" s)
        (rw (gap_space (code c) h) (split_from-SomeWord outside (push "" c) s))))

worded-Returns : (r : Result ℕ (List String)) → SomeWord r → Returns (worded r)
unfolding worded
worded-Returns (err q) h = (_, refl)
worded-Returns (ok []) h = absurd h
worded-Returns (ok (a ∷ rest)) h =
    if_cases Returns (str_eq a "console" || str_eq a "c") _ _ (λ _. (_, refl)) (λ _. (_, refl))

commanded-Returns : (slashed : Bool) (s : String) → StartsBare s → Returns (commanded slashed s)
unfolding commanded
commanded-Returns slashed s (inl e) = rw e (_, refl)
commanded-Returns slashed s (inr (c, r, e, h)) =
    if_cases Returns (contains ("q" ∷ "exit" ∷ "quit" ∷ []) s) _ _ (λ _. (Answer.leave, refl))
      (λ _.
        if_cases Returns (contains ("?" ∷ "" ∷ []) s) _ _ (λ _. (Answer.help, refl))
          (λ _.
            if_cases Returns (slashed && has_prefix s "-") _ _ (λ _. (set_line s, refl))
              (λ _. worded-Returns (split_args s) (rw e (split_args-SomeWord c r h)))))

-- Every entry, in every mode, is answered: a command typed has a first word to be told by, so reading
-- it is never out of range.
pub dispatch_total :
    (s : Session) (r : Reading) (entry : String) → (a : Answer) × (dispatch s r entry ≡ some a)
unfolding dispatch
dispatch_total s r entry =
    let rest = trim_space (trim_prefix entry "\\") in
    if_cases Returns (not (is_nil s.mode) && not (has_prefix entry "\\"))
      (some (text_args s r entry)) (commanded (has_prefix entry "\\") rest) (λ _. (_, refl))
      (λ _.
        commanded-Returns (has_prefix entry "\\") rest
          (trim_space-StartsBare (trim_prefix entry "\\")))
