-- ===== src/Console/Entries/Added.antt =====
-- What a session's flags change of an entry.
use anfra.Prelude.{
  String, ◌≡◌, refl, sym, ap, ◌∙◌, ◌↔◌, inl, inr, true, false, not, ◌&&◌, some, List, [], ◌∷◌, ◌++◌,
  arith, str_eq, eq_iff, if◌then◌else◌, Bool-cases, Option-cases, if_cases, is_nil, contains, cat,
  has_prefix, trim_prefix, is_space,
}
use mathlib.Core.List.{append-nil, append_assoc}
use Prim.Native.Char.{Char, code}
use anfra.Console.Entries.Typed.{Ends, typed-ended}
use anfra.Console.Flags.{Session, SessionFlag}
use anfra.Console.Entries.{
  Reading, run, typed, in_words, text_args, dispatch, Found, written, adds, added, before_dashes,
  with_flags, commanded, split_args, trim_space,
}

-- Arguments with no `--`, and those from the first one on.
unfoldable pub NoDashes : List String → Type 0
NoDashes [] = Unit {0}
NoDashes (a ∷ args) = (str_eq a "--" ≡ false) × NoDashes args

abbrev pub AtDashes : List String → Type 0
AtDashes [] = Unit {0}
AtDashes (a ∷ args) = a ≡ "--"

-- A flag of the session that a command wants: it has the flag and isn't given it, and the flag isn't
-- a format, where the command writes an artifact.
abbrev pub Wants : Found → SessionFlag → Type 0
Wants c f =
    (c.lookup f.name ≡ some false)
    × ((c.artifact && contains ("json" ∷ "yaml" ∷ "jq" ∷ []) f.name) ≡ false)

-- The arguments `more` are, one for each and in order, the flags that a command wants among the
-- session's, as they are written.
pub data Wanted (c : Found) : List SessionFlag → List String → Type 0 where
  done : Wanted c [] []
  wanted :
      (f : SessionFlag) (fs : List SessionFlag) (more : List String)
      → Wants c f
      → Wanted c fs more
      → Wanted c (f ∷ fs) (written f ∷ more)
  unwanted :
      (f : SessionFlag) (fs : List SessionFlag) (more : List String)
      → ¬ Wants c f
      → Wanted c fs more
      → Wanted c (f ∷ fs) more

adds_iff : (c : Found) (f : SessionFlag) → (adds c f ≡ true) ↔ Wants c f
unfolding adds
adds_iff c f = elim (Option-cases (c.lookup f.name)) [
  | inl e ↦ ground (arith, e)
  | inr (given, e) ↦ ground (arith, e)
]

added-Wanted : (c : Found) (fs : List SessionFlag) → Wanted c fs (added c fs)
unfolding added
added-Wanted c [] = done
added-Wanted c (f ∷ fs) = elim (Bool-cases (adds c f)) [
  | inl e ↦ rw e (wanted f fs (added c fs) ((adds_iff c f).0 e) (added-Wanted c fs))
  | inr e ↦ rw e (
      unwanted f fs (added c fs) (λ w. absurd (ground (arith, e, (adds_iff c f).1 w)))
        (added-Wanted c fs))
]

before_dashes-split :
    (more args : List String)
    → (k : List String) × (l : List String) × (args ≡ k ++ l)
      × (before_dashes more args ≡ k ++ (more ++ l))
      × NoDashes k
      × AtDashes l
unfolding before_dashes NoDashes
before_dashes-split more [] = ([], [], refl, sym (append-nil more), tt, tt)
before_dashes-split more (a ∷ args) = elim (Bool-cases (str_eq a "--")) [
  | inl h ↦ ([], a ∷ args, refl, rw h refl, tt, (eq_iff a "--").0 h)
  | inr h ↦
      let (k, l, whole, placed, none_in, at) = before_dashes-split more args in
      (a ∷ k, l, ap (◌∷◌ a) whole, rw h (ap (◌∷◌ a) placed), (h, none_in), at)
]

-- A session's flags are added to an entry in one place: before its first `--`, or last. What is added
-- is, in the session's order and as they are written, each flag of the session's that the command has
-- and the entry doesn't give, but for a format where the command writes an artifact, and nothing else;
-- the entry's own arguments are all there, in their order.
pub with_flags_added :
    (c : Found) (fs : List SessionFlag) (args : List String)
    → (before : List String) × (more : List String) × (after : List String) × (args
        ≡ before ++ after)
      × (with_flags (some c) fs args ≡ before ++ (more ++ after))
      × NoDashes before
      × AtDashes after
      × Wanted c fs more
unfolding with_flags
with_flags_added c fs args =
    let (before, after, whole, placed, clear, at) = before_dashes-split (added c fs) args in
    (before, added c fs, after, whole, placed, clear, at, added-Wanted c fs)

before_dashes_at :
    (more k : List String) (a : List String)
    → NoDashes k
    → before_dashes more (k ++ "--" ∷ a) ≡ k ++ (more ++ "--" ∷ a)
unfolding before_dashes NoDashes
before_dashes_at more [] a h = refl
before_dashes_at more (b ∷ k) a (p, h) = rw p (ap (◌∷◌ b) (before_dashes_at more k a h))

dispatch_text :
    (s : Session) (r : Reading) (entry : String)
    → is_nil s.mode ≡ false
    → has_prefix entry "\\" ≡ false
    → dispatch s r entry ≡ some (text_args s r entry)
unfolding dispatch
dispatch_text s r entry mode plain =
    if_cases (λ o. o ≡ some (text_args s r entry))
      (not (is_nil s.mode) && not (has_prefix entry "\\")) (some (text_args s r entry))
      (commanded (has_prefix entry "\\") (trim_space (trim_prefix entry "\\"))) (λ _. refl)
      (λ h. absurd (ground (arith, h, mode, plain)))

text_args_whole :
    (s : Session) (r : Reading) (entry : String)
    → r.words ≡ false
    → text_args s r entry ≡ run (s.mode ++ "--" ∷ typed r.lang entry ∷ [])
unfolding text_args typed
text_args_whole s r entry words =
    ap
      (λ b.
        if b
        then in_words (s.mode ++ "--" ∷ []) (split_args (typed r.lang entry))
        else run ((s.mode ++ "--" ∷ []) ++ typed r.lang entry ∷ []))
      words
    ∙ ap run (append_assoc s.mode ("--" ∷ []) (typed r.lang entry ∷ []))

-- In a text mode whose arguments hold no `--`, a text that starts with no white space and no
-- backslash, followed by what ends one in the mode's language, `;;` in AQL, `;` in SQL and nothing in
-- others, is run as the mode's command with that text after `--`, character for character; the
-- session's flags that the command wants stand before the `--`, so nothing in the text is read as a
-- flag.
pub text_entry :
    (s : Session) (r : Reading) (c : Found) (end : String) (x : Char) (text : String)
    → r.words ≡ false
    → Ends r.lang end
    → is_nil s.mode ≡ false
    → NoDashes s.mode
    → is_space (code x) ≡ false
    → has_prefix (cat (String.◌∷◌ x text) end) "\\" ≡ false
    → (args : List String) × (more : List String) × (dispatch s r (cat (String.◌∷◌ x text) end)
        ≡ some (run args))
      × Wanted c s.flags more
      × (with_flags (some c) s.flags args ≡ s.mode ++ (more ++ "--" ∷ String.◌∷◌ x text ∷ []))
unfolding dispatch with_flags
text_entry s r c end x text words ended mode clear bare plain =
    let entry = cat (String.◌∷◌ x text) end in
    let whole : typed r.lang entry ≡ String.◌∷◌ x text = typed-ended r.lang end x text ended bare in
    (
      s.mode ++ "--" ∷ typed r.lang entry ∷ [],
      added c s.flags,
      dispatch_text s r entry mode plain ∙ ap some (text_args_whole s r entry words),
      added-Wanted c s.flags,
      before_dashes_at (added c s.flags) s.mode (typed r.lang entry ∷ []) clear
          ∙ ap (λ t. s.mode ++ (added c s.flags ++ "--" ∷ t ∷ [])) whole,
    )
