-- ===== src/Agentsmd/Block/Again.antt =====
-- internal/agents/agentsmd.go: a file that `withBlock` has written is up to date, and written again it
-- is as it was.
use anfra.Prelude.{
  ℕ, ◌≡◌, refl, sym, ap, ◌∙◌, ◌⊎◌, inl, inr, Bool, true, false, ◌||◌, none, some, [], ◌∷◌, ◌++◌,
  arith, ◌==◌, Bool-cases, Option-cases,
}
use mathlib.Core.List.{append-nil, append_assoc}
use mathlib.Core.Path.{subst}
use anfra.Agentsmd.{
  Text, newline, block_begin, block_end, starts_with, find, ends_with, current_block, block,
  with_block, separator,
}
use anfra.Agentsmd.Block.{
  Clear, Clear-within, Clear-find, find-Clear, starts_with-append, current_block-ended,
  with_block-Blocked, find-shifted, current_block-none, current_block-Blocked,
}

-- Anfra's guidance holds no end mark, nor does it end in the start of one.
abbrev pub IsBody : Text → Type 0
IsBody body = find block_end (body ++ block_end) ≡ some (body, block_end)

find-body :
    (body z : Text)
    → IsBody body
    → find block_end (body ++ (block_end ++ z)) ≡ some (body, block_end ++ z)
find-body body z h =
    let (_, _, clear) = find-Clear block_end (body ++ block_end) body block_end h in
    Clear-find block_end body (block_end ++ z)
      (Clear-within block_end body [] z
        (subst (λ t. Clear block_end body t) (sym (append-nil block_end)) clear))
      (starts_with-append block_end z)

block-append :
    (body after : Text)
    → block body ++ after ≡ block_begin ++ (body ++ (block_end ++ (newline ∷ after)))
block-append body after =
    append_assoc block_begin _ after ∙ ap (λ t. block_begin ++ t) (append_assoc body _ after)

-- The block of a file where nothing opens one before it.
current_block-written :
    (body before after : Text)
    → IsBody body
    → Clear block_begin before (block body ++ after)
    → current_block (before ++ (block body ++ after)) ≡ some (block body)
current_block-written body before after h clear =
    current_block-ended (before ++ (block body ++ after)) before (block body ++ after)
      (block_begin ++ body) (block_end ++ (newline ∷ after))
      (Clear-find block_begin before (block body ++ after) clear (
        ap (starts_with block_begin) (block-append body after)
        ∙ starts_with-append block_begin (body ++ (block_end ++ (newline ∷ after)))))
      (ap (find block_end) (block-append body after)
        ∙ find-shifted (body ++ (block_end ++ (newline ∷ after))) body
            (block_end ++ (newline ∷ after)) (find-body body (newline ∷ after) h))
    ∙ ap some (append_assoc block_begin body _)

with_block-written :
    (body before after : Text)
    → IsBody body
    → Clear block_begin before (block body ++ after)
    → with_block body (before ++ (block body ++ after)) ≡ before ++ (block body ++ after)
with_block-written body before after h clear =
    with_block-Blocked body (before ++ (block body ++ after)) (block body)
      (current_block-written body before after h clear)
      (record {
        before = before;
        inside = body;
        line_end = newline ∷ [];
        after = after;
        whole = refl;
        framed = refl;
        clear = clear;
      })

abbrev has_newline : Text → Bool
has_newline [] = false
has_newline (c ∷ s) = c == newline || has_newline s

-- A text that opens a block nowhere, with a line's end after it.
starts_with-newline :
    (mark u t : Text)
    → has_newline mark ≡ false
    → starts_with mark (u ++ []) ≡ false
    → starts_with mark (u ++ (newline ∷ t)) ≡ false
starts_with-newline [] u t plain h = cc
starts_with-newline (m ∷ mark) [] t plain h =
    let p : (m == newline) ≡ false = ground arith in rw p refl
starts_with-newline (m ∷ mark) (c ∷ u) t plain h = elim (Bool-cases (m == c)) [
  | inr other ↦ rw other refl
  | inl same ↦ rw same (starts_with-newline mark u t (ground arith) (sym (rw same refl) ∙ h))
]

Clear-newline : (u t : Text) → Clear block_begin u [] → Clear block_begin (u ++ newline ∷ []) t
Clear-newline [] t clear = (refl, tt)
Clear-newline (c ∷ u) t (other, clear) = (
  ap (λ r. starts_with block_begin (c ∷ r)) (append_assoc u (newline ∷ []) t)
      ∙ starts_with-newline block_begin (c ∷ u) t refl (
          ap (λ r. starts_with block_begin (c ∷ r)) (append-nil u)
          ∙ sym (ap (λ r. starts_with block_begin (c ∷ r)) (append-nil u))
          ∙ other),
  Clear-newline u t clear,
)

find-none : (s : Text) → find block_begin s ≡ none → Clear block_begin s []
unfolding find
find-none [] h = tt
find-none (c ∷ s) h = elim (Bool-cases (starts_with block_begin (c ∷ s))) [
  | inl here ↦ absurd (let e : find block_begin (c ∷ s) ≡ some ([], c ∷ s) = rw here refl in cc)
  | inr not_ ↦ elim (Option-cases (find block_begin s)) [
    | inl nowhere ↦
        (ap (λ r. starts_with block_begin (c ∷ r)) (append-nil s) ∙ not_, find-none s nowhere)
    | inr ((b, f), there) ↦
        absurd (let e : find block_begin (c ∷ s) ≡ some (c ∷ b, f) = rw not_ (rw there refl) in cc)
  ]
]

longer :
    (c : ℕ) (s : Text)
    → ((u : Text) × (s ≡ u ++ newline ∷ []))
    → (u : Text) × (c ∷ s ≡ u ++ newline ∷ [])
longer c s (u, e) = (c ∷ u, ap (λ t. c ∷ t) e)

ends_with-cut :
    (s : Text) → ends_with (newline ∷ newline ∷ []) s ≡ true → (u : Text) × (s ≡ u ++ newline ∷ [])
ends_with-cut [] h = cc
ends_with-cut (c ∷ []) h = absurd (ground arith)
ends_with-cut (c ∷ d ∷ []) h = let e : d ≡ newline = ground arith in (c ∷ [], rw e refl)
ends_with-cut (c ∷ d ∷ x ∷ s) h =
    let later : ends_with (newline ∷ newline ∷ []) (d ∷ x ∷ s) ≡ true = ground arith in
    longer c (d ∷ x ∷ s) (ends_with-cut (d ∷ x ∷ s) later)

Clear-cut : (u s t : Text) → Clear block_begin (u ++ s) t → Clear block_begin u (s ++ t)
Clear-cut [] s t clear = tt
Clear-cut (c ∷ u) s t (other, clear) = (
  ap (λ r. starts_with block_begin (c ∷ r)) (sym (append_assoc u s t)) ∙ other,
  Clear-cut u s t clear,
)

starts_with-less :
    (mark u s : Text) → starts_with mark (u ++ s) ≡ false → starts_with mark (u ++ []) ≡ false
starts_with-less [] u s h = cc
starts_with-less (m ∷ mark) [] s h = refl
starts_with-less (m ∷ mark) (c ∷ u) s h = elim (Bool-cases (m == c)) [
  | inr other ↦ rw other refl
  | inl same ↦ rw same (starts_with-less mark u s (sym (rw same refl) ∙ h))
]

Clear-less : (u s : Text) → Clear block_begin u s → Clear block_begin u []
Clear-less [] s clear = tt
Clear-less (c ∷ u) s (other, clear) =
    (starts_with-less block_begin (c ∷ u) s other, Clear-less u s clear)

-- A text that opens no block, and the break after it, open none, whatever follows.
separator-Clear : (s t : Text) → find block_begin s ≡ none → Clear block_begin (s ++ separator s) t
unfolding separator
separator-Clear [] t h = tt
separator-Clear (c ∷ s) t h = elim (Bool-cases (ends_with (newline ∷ newline ∷ []) (c ∷ s))) [
  | inl two ↦ rw two (
      subst (λ r. Clear block_begin r t) (sym (append-nil (c ∷ s)))
        (cut (ends_with-cut (c ∷ s) two)))
  | inr not_two ↦ elim (Bool-cases (ends_with (newline ∷ []) (c ∷ s))) [
    | inl one ↦ rw not_two (rw one (Clear-newline (c ∷ s) t (find-none (c ∷ s) h)))
    | inr not_one ↦ rw not_two (
        rw not_one (
          subst (λ r. Clear block_begin r t) (append_assoc (c ∷ s) (newline ∷ []) (newline ∷ []))
            (Clear-newline ((c ∷ s) ++ newline ∷ []) t
              (Clear-newline (c ∷ s) [] (find-none (c ∷ s) h)))))
  ]
]
  where
    cut : ((u : Text) × (c ∷ s ≡ u ++ newline ∷ [])) → Clear block_begin (c ∷ s) t
    cut (u, e) =
        let clear = subst (λ r. Clear block_begin r []) e (find-none (c ∷ s) h) in
        subst (λ r. Clear block_begin r t) (sym e)
          (Clear-newline u t (Clear-less u (newline ∷ []) (Clear-cut u (newline ∷ []) [] clear)))

with_block-none :
    (body s : Text)
    → current_block s ≡ none
    → with_block body s ≡ (s ++ separator s) ++ (block body ++ [])
unfolding with_block
with_block-none body s h =
    rw (h, with_block)
      (sym (append_assoc s (separator s) (block body))
        ∙ ap (λ t. (s ++ separator s) ++ t) (sym (append-nil (block body))))

-- `withBlock`, of a file that has a block, or that opens none: what it writes has this anfra's block,
-- and writing it again changes nothing.
pub with_block-again :
    (body s : Text)
    → IsBody body
    → (find block_begin s ≡ none) ⊎ ((current : Text) × (current_block s ≡ some current))
    → (current_block (with_block body s) ≡ some (block body))
      × (with_block body (with_block body s) ≡ with_block body s)
with_block-again body s h (inl nowhere) =
    let clear = separator-Clear s (block body ++ []) nowhere in
    subst (λ t. (current_block t ≡ some (block body)) × (with_block body t ≡ t))
      (sym (with_block-none body s (current_block-none s nowhere)))
      (
        current_block-written body (s ++ separator s) [] h clear,
        with_block-written body (s ++ separator s) [] h clear,
      )
with_block-again body s h (inr (current, has)) =
    let k = current_block-Blocked s current has in
    let rest = k.inside ++ (block_end ++ k.line_end) in
    let clear : Clear block_begin k.before (block body ++ k.after) =
      subst (λ t. Clear block_begin k.before t) (sym (block-append body k.after))
        (Clear-within block_begin k.before (rest ++ k.after)
          (body ++ (block_end ++ (newline ∷ k.after)))
          (subst (λ t. Clear block_begin k.before t)
            (ap (λ t. t ++ k.after) k.framed ∙ append_assoc block_begin rest k.after) k.clear)) in
    subst (λ t. (current_block t ≡ some (block body)) × (with_block body t ≡ t))
      (sym (with_block-Blocked body s current has k))
      (
        current_block-written body k.before k.after h clear,
        with_block-written body k.before k.after h clear,
      )
