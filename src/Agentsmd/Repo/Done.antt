-- ===== src/Agentsmd/Repo/Done.antt =====
-- internal/agents/agentsmd.go: what `CheckBlock` says of a repo after `WriteBlock`.
use anfra.Prelude.{
  ◌≡◌, refl, sym, ap, ◌∙◌, ◌⊎◌, inl, inr, Bool, true, false, not, ◌&&◌, ◌||◌, Option, none, some,
  [], ◌∷◌, ◌++◌, arith, ◌==◌, if◌then◌else◌, Bool-cases, is_some, is_nil, ok, err, Result-cases,
}
use anfra.Agentsmd.{
  Text, newline, claude_import, ends_with, find, block_begin, current_block, with_block, block,
}
use anfra.Agentsmd.Block.Again.{IsBody, with_block-again}
use anfra.Agentsmd.Repo.{
  regular, FileError, not_written, Repo, read_regular, contents, same_text, trim_left, trim_right,
  lines, any_line, has_line, up_to_date, outdated, Block, state_of, imported, check_block,
  add_import, write_import, after_block, write_block,
}
use mathlib.Core.Path.{subst}
use mathlib.Core.List.{append_assoc}

same_text_refl : (s : Text) → same_text s s ≡ true
same_text_refl [] = refl
same_text_refl (c ∷ s) = let e = same_text_refl s in ground (arith)

same_text-eq : (s t : Text) → same_text s t ≡ true → s ≡ t
same_text-eq [] [] h = refl
same_text-eq [] (c ∷ t) h = cc
same_text-eq (c ∷ s) [] h = cc
same_text-eq (c ∷ s) (d ∷ t) h =
    let same : c ≡ d = ground arith in rw same (ap (λ r. d ∷ r) (same_text-eq s t (ground arith)))

or_true : (b : Bool) → (b || true) ≡ true
or_true true = refl
or_true false = refl

-- A file that ends in the import's line has that line.
any_line-imported :
    (line s : Text)
    → any_line claude_import (lines line (s ++ (newline ∷ (claude_import ++ newline ∷ [])))) ≡ true
any_line-imported line [] = or_true (same_text (trim_right (trim_left line)) claude_import)
any_line-imported line (c ∷ s) = elim (Bool-cases (c == newline)) [
  | inl ends ↦ rw ends (
      ap (λ b. same_text (trim_right (trim_left line)) claude_import || b) (any_line-imported [] s)
      ∙ or_true (same_text (trim_right (trim_left line)) claude_import))
  | inr inside ↦ rw inside (any_line-imported (line ++ c ∷ []) s)
]

has_line-imported : (s : Text) → has_line (imported s) claude_import ≡ true
unfolding has_line
has_line-imported s = elim (Bool-cases (not (is_nil s) && not (ends_with (newline ∷ []) s))) [
  | inl open_ ↦ rw open_ (
      ap (λ t. any_line claude_import (lines [] t))
        (sym (append_assoc s (newline ∷ []) (newline ∷ (claude_import ++ newline ∷ []))))
      ∙ any_line-imported [] (s ++ newline ∷ []))
  | inr closed ↦ rw closed (any_line-imported [] s)
]

-- What a check says of a repo whose AGENTS.md can be read, by what it has of a CLAUDE.md.
check_block-linked :
    (body : Text) (r : Repo) (md : Option Text)
    → read_regular r.agents_md ≡ ok md
    → r.links ≡ true
    → check_block body r
      ≡ ok (record {
        state = state_of (block body) (current_block (contents md));
        has_claude_md = true;
        no_import = false;
      })
unfolding check_block
check_block-linked body r md read linked = rw read (rw linked refl)

check_block-unlinked :
    (body : Text) (r : Repo) (md claude : Option Text)
    → read_regular r.agents_md ≡ ok md
    → r.links ≡ false
    → read_regular r.claude_md ≡ ok claude
    → check_block body r
      ≡ ok (record {
        state = state_of (block body) (current_block (contents md));
        has_claude_md = is_some claude;
        no_import = is_some claude && not (has_line (contents claude) claude_import);
      })
unfolding check_block
check_block-unlinked body r md claude read unlinked read' = rw read (rw unlinked (rw read' refl))

-- What a check says is well: the block up to date, and no import missing.
abbrev IsWell : Text → Repo → Option Text → Type 0
IsWell body r md =
    (b : Block) × (check_block body r ≡ ok b)
    × (b.state ≡ state_of (block body) (current_block (contents md)))
    × (b.no_import ≡ false)

if_true : {A : Type 0} (b : Bool) (x y : A) → b ≡ true → (if b then x else y) ≡ x
if_true true x y h = refl
if_true false x y h = cc

if_false : {A : Type 0} (b : Bool) (x y : A) → b ≡ false → (if b then x else y) ≡ y
if_false true x y h = cc
if_false false x y h = refl

write_import-linked :
    (works : Bool) (r : Repo) → r.links ≡ true → write_import works r ≡ (r, ok false)
unfolding write_import
write_import-linked works r h = if_true r.links (r, ok false) (add_import works r) h

write_import-unlinked :
    (works : Bool) (r : Repo) → r.links ≡ false → write_import works r ≡ add_import works r
unfolding write_import
write_import-unlinked works r h = if_false r.links (r, ok false) (add_import works r) h

-- Adding the import to a CLAUDE.md of its own fails, or leaves a repo that is well.
add_import_lem :
    (body : Text) (works : Bool) (r : Repo) (md : Option Text)
    → read_regular r.agents_md ≡ ok md
    → r.links ≡ false
    → ((e : FileError) × ((add_import works r).1 ≡ err e)) ⊎ IsWell body (add_import works r).0 md
unfolding add_import
add_import_lem body works r md read unlinked = elim (Result-cases (read_regular r.claude_md)) [
  | inl (e, failed) ↦ inl (e, rw (failed, add_import) refl)
  | inr (none, empty) ↦ inr (
      well r false (rw (empty, add_import) refl)
        (_, check_block-unlinked body r md none read unlinked empty, refl, refl))
  | inr (some claude, there) ↦ elim (Bool-cases (has_line claude claude_import)) [
    | inl has ↦ inr (
        well r false (rw (there, add_import) (rw has refl))
          (_, check_block-unlinked body r md (some claude) read unlinked there, refl, rw has refl))
    | inr lacks ↦ elim (Bool-cases works) [
      | inr fails ↦ inl (not_written, rw (there, add_import) (rw lacks (rw fails refl)))
      | inl writes ↦
          let r' : Repo = record r { claude_md = regular (imported claude) } in
          inr (
            well r' true (rw (there, add_import) (rw lacks (rw writes refl))) (
              _,
              check_block-unlinked body r' md (some (imported claude)) read unlinked refl,
              refl,
              rw (has_line-imported claude) refl,
            ))
    ]
  ]
]
  where
    well :
        (r' : Repo) (added : Bool)
        → add_import works r ≡ (r', ok added)
        → IsWell body r' md
        → IsWell body (add_import works r).0 md
    well r' added e w = subst (λ p. IsWell body p.0 md) (sym e) w

write_import_lem :
    (body : Text) (works : Bool) (r : Repo) (md : Option Text)
    → read_regular r.agents_md ≡ ok md
    → ((e : FileError) × ((write_import works r).1 ≡ err e))
      ⊎ IsWell body (write_import works r).0 md
write_import_lem body works r md read = elim (Bool-cases r.links) [
  | inl linked ↦ inr (
      subst (λ p. IsWell body p.0 md) (sym (write_import-linked works r linked))
        (_, check_block-linked body r md read linked, refl, refl))
  | inr unlinked ↦
      subst (λ p. ((e : FileError) × (p.1 ≡ err e)) ⊎ IsWell body p.0 md)
        (sym (write_import-unlinked works r unlinked))
        (add_import_lem body works r md read unlinked)
]

up_to_date_lem :
    (body : Text) (r : Repo) (md : Option Text)
    → current_block (contents md) ≡ some (block body)
    → IsWell body r md
    → (b : Block) × (check_block body r ≡ ok b) × (b.state ≡ up_to_date) × (b.no_import ≡ false)
up_to_date_lem body r md h (b, checked, state, import) = (
  b,
  checked,
  state
      ∙ ap (state_of (block body)) h
      ∙ if_true (same_text (block body) (block body)) up_to_date outdated
          (same_text_refl (block body)),
  import,
)

-- `WriteBlock`, of a repo whose AGENTS.md can be read and has a block or opens none, with any of its
-- writes failing: it fails, or `CheckBlock` then finds the block up to date and no import missing.
pub write_block-check :
    (body : Text) (block_works import_works : Bool) (r : Repo) (md : Option Text)
    → IsBody body
    → read_regular r.agents_md ≡ ok md
    → (find block_begin (contents md) ≡ none)
      ⊎ ((current : Text) × (current_block (contents md) ≡ some current))
    → ((e : FileError) × ((write_block body block_works import_works r).2 ≡ err e))
      ⊎ ((b : Block) × (check_block body (write_block body block_works import_works r).0 ≡ ok b)
          × (b.state ≡ up_to_date)
          × (b.no_import ≡ false))
unfolding write_block
write_block-check body block_works import_works r md h read whole =
    let next = with_block body (contents md) in
    let current = (with_block-again body (contents md) h whole).0 in
    elim (Bool-cases (same_text next (contents md))) [
      | inl same ↦
          rw (read, write_block)
            (rw same (
              wrote false r md read
                (ap current_block (sym (same_text-eq next (contents md) same)) ∙ current)))
      | inr differs ↦ elim (Bool-cases block_works) [
        | inr fails ↦ inl (not_written, rw (read, write_block) (rw differs (rw fails refl)))
        | inl works ↦
            rw (read, write_block)
              (rw differs (
                rw works
                  (wrote true (record r { agents_md = regular next }) (some next) refl current)))
      ]
    ]
  where
    wrote :
        (written : Bool) (k : Repo) (md : Option Text)
        → read_regular k.agents_md ≡ ok md
        → current_block (contents md) ≡ some (block body)
        → ((e : FileError) × ((after_block written (write_import import_works k)).2 ≡ err e))
          ⊎ ((b : Block) × (check_block body (after_block written (write_import import_works k)).0
                ≡ ok b)
              × (b.state ≡ up_to_date)
              × (b.no_import ≡ false))
    wrote written k md read e = elim (write_import_lem body import_works k md read) [
      | inl failed ↦ inl failed
      | inr well ↦ inr (up_to_date_lem body (write_import import_works k).0 md e well)
    ]
