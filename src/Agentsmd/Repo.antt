-- ===== src/Agentsmd/Repo.antt =====
-- internal/agents/agentsmd.go: `CheckBlock` and `WriteBlock`, over a repo's two files.
-- White space is ASCII.
pub mod Done
use anfra.Prelude.{
  ℕ, Bool, true, false, not, ◌&&◌, ◌||◌, Option, none, some, List, [], ◌∷◌, ◌++◌, leb, ◌==◌,
  if◌then◌else◌, is_some, is_nil, Result, ok, err, ◌>>=◌, ◌>>◌,
}
use anfra.Agentsmd.{Text, newline, claude_import, ends_with, current_block, with_block, block}

-- What stands at a path: nothing, a symlink, something else that is no regular file, or a regular
-- file, readable or not.
pub data AtPath : Type 0 where
  absent symlink irregular unreadable : AtPath
  regular : Text → AtPath

pub data FileError : Type 0 where
  is_symlink is_irregular not_read not_written : FileError

pub record Repo : Type 0 where
  pub agents_md : AtPath
  pub claude_md : AtPath
  -- CLAUDE.md is a symlink to AGENTS.md, which is there: one to a file that a write makes is not here.
  pub links : Bool

-- `readRegular`
abbrev pub read_regular : AtPath → Result FileError (Option Text)
read_regular absent = ok none
read_regular symlink = err is_symlink
read_regular irregular = err is_irregular
read_regular unreadable = err not_read
read_regular (regular s) = ok (some s)

abbrev pub contents : Option Text → Text
contents none = []
contents (some s) = s

abbrev pub same_text : Text → Text → Bool
same_text [] [] = true
same_text [] (c ∷ t) = false
same_text (c ∷ s) [] = false
same_text (c ∷ s) (d ∷ t) = c == d && same_text s t

-- A text's lines, after those bytes of the first.
abbrev pub lines : Text → Text → List Text
lines line [] = line ∷ []
lines line (c ∷ s) =
    let next = lines [] s in
    let longer = lines (line ++ c ∷ []) s in if c == newline then line ∷ next else longer

abbrev pub is_space : ℕ → Bool
is_space c = c == 32 || (leb 9 c && leb c 13)

abbrev pub trim_left : Text → Text
trim_left [] = []
trim_left (c ∷ s) = let rest = trim_left s in if is_space c then rest else c ∷ s

abbrev pub all_space : Text → Bool
all_space [] = true
all_space (c ∷ s) = is_space c && all_space s

abbrev pub trim_right : Text → Text
trim_right [] = []
trim_right (c ∷ s) = let rest = trim_right s in if all_space (c ∷ s) then [] else c ∷ rest

-- `hasLine`
abbrev pub any_line : Text → List Text → Bool
any_line line [] = false
any_line line (l ∷ ls) = same_text (trim_right (trim_left l)) line || any_line line ls

pub has_line : Text → Text → Bool
has_line s line = any_line line (lines [] s)

pub data BlockState : Type 0 where
  missing outdated up_to_date : BlockState

-- `Block`
pub record Block : Type 0 where
  pub state : BlockState
  pub has_claude_md : Bool
  pub no_import : Bool

abbrev pub state_of : Text → Option Text → BlockState
state_of expected none = missing
state_of expected (some current) = if same_text current expected then up_to_date else outdated

-- The text that adds the import.
abbrev pub imported : Text → Text
imported s =
    s
    ++ ((if not (is_nil s) && not (ends_with (newline ∷ []) s)
          then newline ∷ newline ∷ []
          else newline ∷ [])
        ++ (claude_import ++ newline ∷ []))

-- The import, added to a CLAUDE.md that lacks it where its write works: whether it was, or a failure.
pub add_import : Bool → Repo → Repo × Result FileError Bool
unfolding has_line
add_import works r = elim (read_regular r.claude_md) [
  | err e ↦ (r, err e)
  | ok none ↦ (r, ok false)
  | ok (some claude) ↦
      if has_line claude claude_import
      then (r, ok false)
      else if works
      then (record r { claude_md = regular (imported claude) }, ok true)
      else (r, err not_written)
]

pub write_import : Bool → Repo → Repo × Result FileError Bool
unfolding add_import
write_import works r = if r.links then (r, ok false) else add_import works r

abbrev pub after_block : Bool → Repo × Result FileError Bool → Repo × Bool × Result FileError Bool
after_block wrote (r, result) = (r, wrote, result)

module _ (body : Text) where
  -- `CheckBlock`
  pub check_block : Repo → Result FileError Block
  unfolding has_line
  check_block r = do
    md ← read_regular r.agents_md
    let state = state_of (block body) (current_block (contents md))
    if r.links
        then ok (record { state = state; has_claude_md = true; no_import = false })
        else (read_regular r.claude_md >>= λ claude. ok (record {
          state = state;
          has_claude_md = is_some claude;
          no_import = is_some claude && not (has_line (contents claude) claude_import);
        }))

  -- `WriteBlock`, where each write works or not: the repo, whether the block was written, and
  -- whether the import was, or a failure, of the block or of the import.
  pub write_block : Bool → Bool → Repo → Repo × Bool × Result FileError Bool
  unfolding write_import
  write_block block_works import_works r = elim (read_regular r.agents_md) [
    | err e ↦ (r, false, err e)
    | ok md ↦
        let next = with_block body (contents md) in
        if same_text next (contents md)
        then after_block false (write_import import_works r)
        else if block_works
        then after_block true (write_import import_works (record r { agents_md = regular next }))
        else (r, false, err not_written)
  ]
