-- ===== src/Agentsmd.antt =====
-- internal/agents/agentsmd.go: anfra's block in a repo's AGENTS.md, and the import in its CLAUDE.md.
-- A text is its bytes. The body of the block, anfra's guidance, is a parameter.
pub mod Block
pub mod Repo
mod Tests
use anfra.Prelude.{
  ℕ, zero, suc, Bool, true, false, ◌&&◌, ◌||◌, Option, none, some, List, [], ◌∷◌, ◌++◌, ◌==◌,
  if◌then◌else◌, length, is_nil,
}

abbrev pub Text : Type 0
Text = List ℕ

abbrev pub newline : ℕ
newline = 10

-- "<!-- anfra:begin -->" and "<!-- anfra:end -->"
abbrev pub block_begin : Text
block_begin =
    60 ∷ 33 ∷ 45 ∷ 45 ∷ 32 ∷ 97 ∷ 110 ∷ 102 ∷ 114 ∷ 97 ∷ 58 ∷ 98 ∷ 101 ∷ 103 ∷ 105 ∷ 110 ∷ 32 ∷ 45
    ∷ 45 ∷ 62 ∷ []

abbrev pub block_end : Text
block_end =
    60 ∷ 33 ∷ 45 ∷ 45 ∷ 32 ∷ 97 ∷ 110 ∷ 102 ∷ 114 ∷ 97 ∷ 58 ∷ 101 ∷ 110 ∷ 100 ∷ 32 ∷ 45 ∷ 45 ∷ 62
    ∷ []

-- "@AGENTS.md"
abbrev pub claude_import : Text
claude_import = 64 ∷ 65 ∷ 71 ∷ 69 ∷ 78 ∷ 84 ∷ 83 ∷ 46 ∷ 109 ∷ 100 ∷ []

abbrev pub starts_with : Text → Text → Bool
starts_with [] s = true
starts_with (m ∷ mark) [] = false
starts_with (m ∷ mark) (c ∷ s) = m == c && starts_with mark s

abbrev pub after_byte : ℕ → Option (Text × Text) → Option (Text × Text)
after_byte c none = none
after_byte c (some (before, from)) = some (c ∷ before, from)

-- `strings.Index`: a text split before a mark's first occurrence.
pub find : Text → Text → Option (Text × Text)
find mark [] = if starts_with mark [] then some ([], []) else none
find mark (c ∷ s) =
    let rest = find mark s in
    if starts_with mark (c ∷ s) then some ([], c ∷ s) else after_byte c rest

abbrev pub drop : ℕ → Text → Text
drop zero s = s
drop (suc n) [] = []
drop (suc n) (c ∷ s) = drop n s

abbrev pub first_line_end : Text → Text
first_line_end [] = []
first_line_end (c ∷ s) = if c == newline then newline ∷ [] else []

abbrev pub ends_with : Text → Text → Bool
ends_with mark [] = is_nil mark
ends_with mark (c ∷ s) =
    (length (c ∷ s) == length mark && starts_with mark (c ∷ s)) || ends_with mark s

-- `currentBlock`
pub current_block : Text → Option Text
unfolding find
current_block s = elim (find block_begin s) [
  | none ↦ none
  | some (_, from) ↦ elim (find block_end from) [
    | none ↦ none
    | some (inside, ending) ↦
        some (inside ++ (block_end ++ first_line_end (drop (length block_end) ending)))
  ]
]

-- `strings.Replace`, of the first occurrence.
pub replace_first : Text → Text → Text → Text
unfolding find
replace_first s old new = elim (find old s) [
  | none ↦ s
  | some (before, from) ↦ before ++ (new ++ drop (length old) from)
]

-- The break before a block that is appended.
pub separator : Text → Text
separator s =
    if is_nil s || ends_with (newline ∷ newline ∷ []) s
    then []
    else if ends_with (newline ∷ []) s
    then newline ∷ []
    else newline ∷ newline ∷ []

module _ (body : Text) where
  -- `block`
  abbrev pub block : Text
  block = block_begin ++ (body ++ (block_end ++ newline ∷ []))

  -- `withBlock`
  pub with_block : Text → Text
  unfolding current_block replace_first separator
  with_block s = elim (current_block s) [
    | some current ↦ replace_first s current block
    | none ↦ s ++ (separator s ++ block)
  ]
