-- ===== src/Agentsmd/Block.antt =====
-- internal/agents/agentsmd.go: what `withBlock` keeps of a file. `Again` is about a file it has written.
pub mod Again
use anfra.Prelude.{
  ◌≤◌, ◌≡◌, refl, sym, ap, ◌∙◌, ◌⊎◌, inl, inr, true, false, ◌&&◌, Option, none, some, [], ◌∷◌, ◌++◌,
  arith, ◌==◌, Bool-cases, Option-cases, length, length-append,
}
use mathlib.Core.List.{append_assoc}
use mathlib.Core.Path.{subst}
use anfra.Agentsmd.{
  Text, block_begin, block_end, starts_with, find, drop, first_line_end, with_block, newline,
  current_block, replace_first, block,
}

-- No occurrence of a mark starts in a text, where another follows it.
abbrev pub Clear : Text → Text → Text → Type 0
Clear mark [] s = Unit
Clear mark (c ∷ b) s = (starts_with mark (c ∷ b ++ s) ≡ false) × Clear mark b s

pub starts_with-append : (mark s : Text) → starts_with mark (mark ++ s) ≡ true
starts_with-append [] s = refl
starts_with-append (m ∷ mark) s = ground (arith, starts_with-append mark s)

starts_with-drop : (mark s : Text) → starts_with mark s ≡ true → s ≡ mark ++ drop (length mark) s
starts_with-drop [] s h = refl
starts_with-drop (m ∷ mark) [] h = cc
starts_with-drop (m ∷ mark) (c ∷ s) h =
    let same : m ≡ c = ground arith in
    rw same (ap (λ t. c ∷ t) (starts_with-drop mark s (ground arith)))

drop-append : (mark s : Text) → drop (length mark) (mark ++ s) ≡ s
drop-append [] s = refl
drop-append (m ∷ mark) s = drop-append mark s

-- A longer mark starts where a shorter one does.
starts_with-shorter : (a b s : Text) → starts_with a s ≡ false → starts_with (a ++ b) s ≡ false
starts_with-shorter [] b s h = cc
starts_with-shorter (m ∷ a) b [] h = refl
starts_with-shorter (m ∷ a) b (c ∷ s) h = elim (Bool-cases (m == c)) [
  | inl same ↦ rw same (starts_with-shorter a b s (sym (rw same refl) ∙ h))
  | inr other ↦ rw other refl
]

-- What follows a text as long as the mark does not matter.
starts_with-within :
    (mark u x y : Text)
    → length mark ≤ length u
    → starts_with mark (u ++ x) ≡ starts_with mark (u ++ y)
starts_with-within [] u x y h = refl
starts_with-within (m ∷ mark) [] x y h = absurd (omega arith)
starts_with-within (m ∷ mark) (c ∷ u) x y h =
    ap (λ b. m == c && b) (starts_with-within mark u x y (omega arith))

found :
    (mark b f before from : Text)
    → ◌≡◌ {A = Option (Text × Text)} (some (b, f)) (some (before, from))
    → starts_with mark f ≡ true
    → Clear mark b f
    → (b ++ f ≡ before ++ from) × (starts_with mark from ≡ true) × Clear mark before from
found mark b f before from e starts clear =
    let same_b : b ≡ before = cc in
    let same_f : f ≡ from = cc in
    (
      ap (λ t. t ++ f) same_b ∙ ap (λ t. before ++ t) same_f,
      subst (λ t. starts_with mark t ≡ true) same_f starts,
      subst (λ t. Clear mark t from) same_b (subst (λ t. Clear mark b t) same_f clear),
    )

pub find-Clear :
    (mark s before from : Text)
    → find mark s ≡ some (before, from)
    → (s ≡ before ++ from) × (starts_with mark from ≡ true) × Clear mark before from
unfolding find
find-Clear mark [] before from h = elim (Bool-cases (starts_with mark [])) [
  | inl here ↦
      let e : ◌≡◌ {A = Option (Text × Text)} (some ([], [])) (some (before, from)) =
        sym (rw here refl) ∙ h in
      found mark [] [] before from e here tt
  | inr not_ ↦ absurd (let e : find mark [] ≡ none = rw not_ refl in cc)
]
find-Clear mark (c ∷ s) before from h = elim (Bool-cases (starts_with mark (c ∷ s))) [
  | inl here ↦
      let e : ◌≡◌ {A = Option (Text × Text)} (some ([], c ∷ s)) (some (before, from)) =
        sym (rw here refl) ∙ h in
      found mark [] (c ∷ s) before from e here tt
  | inr not_ ↦ elim (Option-cases (find mark s)) [
    | inl nowhere ↦ absurd (let e : find mark (c ∷ s) ≡ none = rw not_ (rw nowhere refl) in cc)
    | inr ((b, f), later) ↦
        let e : ◌≡◌ {A = Option (Text × Text)} (some (c ∷ b, f)) (some (before, from)) =
          sym (rw not_ (rw later refl)) ∙ h in
        let (same, starts, clear) = find-Clear mark s b f later in
        subst
          (λ t. (c ∷ t ≡ before ++ from) × (starts_with mark from ≡ true) × Clear mark before from)
          (sym same)
          (found mark (c ∷ b) f before from e starts
            (subst (λ t. starts_with mark (c ∷ t) ≡ false) same not_, clear))
  ]
]

pub Clear-find :
    (mark before from : Text)
    → Clear mark before from
    → starts_with mark from ≡ true
    → find mark (before ++ from) ≡ some (before, from)
unfolding find
Clear-find mark [] [] k h = rw h refl
Clear-find mark [] (c ∷ from) k h = rw h refl
Clear-find mark (c ∷ before) from (other, k) h =
    rw other (rw (Clear-find mark before from k h) refl)

Clear-shorter : (a b before from : Text) → Clear a before from → Clear (a ++ b) before from
Clear-shorter a b [] from k = tt
Clear-shorter a b (c ∷ before) from (other, k) =
    (starts_with-shorter a b (c ∷ before ++ from) other, Clear-shorter a b before from k)

-- What follows the mark's next occurrence does not matter.
pub Clear-within :
    (mark before x y : Text) → Clear mark before (mark ++ x) → Clear mark before (mark ++ y)
Clear-within mark [] x y k = tt
Clear-within mark (c ∷ before) x y (other, k) = (
  sym (append_within y)
      ∙ starts_with-within mark (c ∷ before ++ mark) y x long
      ∙ append_within x
      ∙ other,
  Clear-within mark before x y k,
)
  where
    append_within :
        (t : Text)
        → starts_with mark ((c ∷ before ++ mark) ++ t)
          ≡ starts_with mark (c ∷ (before ++ (mark ++ t)))
    append_within t = ap (λ r. starts_with mark (c ∷ r)) (append_assoc before mark t)

    long : length mark ≤ length (c ∷ before ++ mark)
    long = let e = length-append before mark in omega (arith, e)

-- The end mark is not found within the begin mark.
pub find-end :
    (s : Text)
    → (find block_end (block_begin ++ s) ≡ none)
      ⊎ ((b : Text) × (f : Text) × (find block_end s ≡ some (b, f))
          × (find block_end (block_begin ++ s) ≡ some (block_begin ++ b, f)))
unfolding find
find-end s = elim (Option-cases (find block_end s)) [
  | inl nowhere ↦ inl (rw nowhere refl)
  | inr ((b, f), there) ↦ inr (b, f, there, rw there refl)
]

pub find-shifted :
    (t b f : Text)
    → find block_end t ≡ some (b, f)
    → find block_end (block_begin ++ t) ≡ some (block_begin ++ b, f)
unfolding find
find-shifted t b f e = rw e refl

-- A file with a block: what is before it, inside it and after it, and how it ends.
pub record Blocked (s current : Text) : Type 0 where
  pub before : Text
  pub inside : Text
  pub line_end : Text
  pub after : Text
  pub whole : s ≡ before ++ (current ++ after)
  pub framed : current ≡ block_begin ++ (inside ++ (block_end ++ line_end))
  pub clear : Clear block_begin before (current ++ after)

line_end_lem : (y : Text) → y ≡ first_line_end y ++ drop (length (first_line_end y)) y
line_end_lem [] = refl
line_end_lem (c ∷ y) = elim (Bool-cases (c == newline)) [
  | inl ends ↦ let e : c ≡ newline = ground arith in rw ends (rw e refl)
  | inr not_ ↦ rw not_ refl
]

frame_assoc : (a b c d e : Text) → a ++ (b ++ (c ++ (d ++ e))) ≡ (a ++ (b ++ (c ++ d))) ++ e
frame_assoc a b c d e =
    ap (λ t. a ++ (b ++ t)) (sym (append_assoc c d e))
    ∙ ap (λ t. a ++ t) (sym (append_assoc b (c ++ d) e))
    ∙ sym (append_assoc a (b ++ (c ++ d)) e)

current_block-none : (s : Text) → find block_begin s ≡ none → current_block s ≡ none
unfolding current_block
current_block-none s h = rw (h, current_block) refl

current_block-unended :
    (s before from : Text)
    → find block_begin s ≡ some (before, from)
    → find block_end from ≡ none
    → current_block s ≡ none
unfolding current_block
current_block-unended s before from h e = rw (h, current_block) (rw e refl)

pub current_block-ended :
    (s before from inside ending : Text)
    → find block_begin s ≡ some (before, from)
    → find block_end from ≡ some (inside, ending)
    → current_block s
      ≡ some (inside ++ (block_end ++ first_line_end (drop (length block_end) ending)))
unfolding current_block
current_block-ended s before from inside ending h e = rw (h, current_block) (rw e refl)

replace_first-found :
    (s old new before from : Text)
    → find old s ≡ some (before, from)
    → replace_first s old new ≡ before ++ (new ++ drop (length old) from)
unfolding replace_first
replace_first-found s old new before from h = rw (h, replace_first) refl

with_block-some :
    (body s current : Text)
    → current_block s ≡ some current
    → with_block body s ≡ replace_first s current (block body)
unfolding with_block
with_block-some body s current h = rw (h, with_block) refl

current_block-Blocked : (s current : Text) → current_block s ≡ some current → Blocked s current
current_block-Blocked s current h = elim (Option-cases (find block_begin s)) [
  | inl nowhere ↦ absurd (let e = current_block-none s nowhere in cc)
  | inr ((before, from), began) ↦
      let (whole, starts, clear) = find-Clear block_begin s before from began in
      let x = drop (length block_begin) from in
      let opens : from ≡ block_begin ++ x = starts_with-drop block_begin from starts in
      elim (find-end x) [
        | inl unended ↦ absurd (
            let e =
              current_block-unended s before from began (ap (find block_end) opens ∙ unended) in
            cc)
        | inr (inside, f, there, ended) ↦
            let (its, ends, _) = find-Clear block_end x inside f there in
            let y = drop (length block_end) f in
            let line_end = first_line_end y in
            let after = drop (length line_end) y in
            let framed : current ≡ block_begin ++ (inside ++ (block_end ++ line_end)) = cc_some (
              sym h
              ∙ current_block-ended s before from (block_begin ++ inside) f began
                  (ap (find block_end) opens ∙ ended)) in
            let from_is : from ≡ current ++ after =
              opens
              ∙ ap (λ t. block_begin ++ t)
                  (its
                    ∙ ap (λ t. inside ++ t)
                        (starts_with-drop block_end f ends
                          ∙ ap (λ t. block_end ++ t) (line_end_lem y)))
              ∙ frame_assoc block_begin inside block_end line_end after
              ∙ ap (λ t. t ++ after) (sym framed) in
            record {
              before = before;
              inside = inside;
              line_end = line_end;
              after = after;
              whole = whole ∙ ap (λ t. before ++ t) from_is;
              framed = framed;
              clear = subst (λ t. Clear block_begin before t) from_is clear;
            }
      ]
]
  where
    cc_some : {a b : Text} → some a ≡ some b → a ≡ b
    cc_some e = cc

pub with_block-Blocked :
    (body s current : Text)
    → current_block s ≡ some current
    → (k : Blocked s current) → with_block body s ≡ k.before ++ (block body ++ k.after)
with_block-Blocked body s current h k =
    let rest = k.inside ++ (block_end ++ k.line_end) in
    let clear : Clear current k.before (current ++ k.after) =
      subst (λ t. Clear t k.before (current ++ k.after)) (sym k.framed)
        (Clear-shorter block_begin rest k.before (current ++ k.after) k.clear) in
    let there =
      Clear-find current k.before (current ++ k.after) clear (starts_with-append current k.after) in
    with_block-some body s current h
    ∙ replace_first-found s current (block body) k.before (current ++ k.after)
        (ap (find current) k.whole ∙ there)
    ∙ ap (λ t. k.before ++ (block body ++ t)) (drop-append current k.after)

-- `withBlock`, of a file that has a block: the block's place holds this anfra's block, and what was
-- before it and after it is as it was.
pub with_block-kept :
    (body s current : Text)
    → current_block s ≡ some current
    → (before : Text) × (after : Text) × (s ≡ before ++ (current ++ after))
      × (with_block body s ≡ before ++ (block body ++ after))
with_block-kept body s current h =
    let k = current_block-Blocked s current h in
    (k.before, k.after, k.whole, with_block-Blocked body s current h k)
