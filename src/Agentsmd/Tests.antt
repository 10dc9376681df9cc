-- ===== src/Agentsmd/Tests.antt =====
-- A file with an old block between a line before it and a line after it, and a repo with no AGENTS.md.
use anfra.Prelude.{◌≡◌, refl, ◌⊎◌, inl, inr, true, false, none, some, [], ◌∷◌, ◌++◌, ok, err}
use anfra.Agentsmd.{Text, newline, block_begin, block_end, find, current_block, block, with_block}
use anfra.Agentsmd.Block.{with_block-kept}
use anfra.Agentsmd.Block.Again.{IsBody, with_block-again}
use anfra.Agentsmd.Repo.{
  FileError, absent, regular, Repo, Block, up_to_date, check_block, write_block,
}
use anfra.Agentsmd.Repo.Done.{write_block-check}

abbrev guidance : Text
guidance = newline ∷ 35 ∷ 35 ∷ newline ∷ []

abbrev old_block : Text
old_block = block_begin ++ (120 ∷ (block_end ++ newline ∷ []))

abbrev old_file : Text
old_file = (97 ∷ newline ∷ old_block) ++ (122 ∷ newline ∷ [])

guidance-IsBody : IsBody guidance
unfolding find
guidance-IsBody = refl

old_file_lem : current_block old_file ≡ some old_block
unfolding current_block
old_file_lem = refl

with_block-kept_example :
    (before : Text) × (after : Text) × (old_file ≡ before ++ (old_block ++ after))
    × (with_block guidance old_file ≡ before ++ (block guidance ++ after))
with_block-kept_example = with_block-kept guidance old_file old_block old_file_lem

with_block-again_example :
    (current_block (with_block guidance old_file) ≡ some (block guidance))
    × (with_block guidance (with_block guidance old_file) ≡ with_block guidance old_file)
with_block-again_example =
    with_block-again guidance old_file guidance-IsBody (inr (old_block, old_file_lem))

-- A begin marker with no end marker after it: the first write appends a block, and the second takes
-- away what stood between.
orphan_test :
    with_block guidance (with_block guidance (97 ∷ (block_begin ++ (98 ∷ []))))
    ≡ 97 ∷ block guidance
unfolding with_block
orphan_test = refl

abbrev new_repo : Repo
new_repo = record { agents_md = absent; claude_md = regular (97 ∷ []); links = false }

write_block-check_example :
    ((e : FileError) × ((write_block guidance true true new_repo).2 ≡ err e))
    ⊎ ((b : Block) × (check_block guidance (write_block guidance true true new_repo).0 ≡ ok b)
        × (b.state ≡ up_to_date)
        × (b.no_import ≡ false))
unfolding find
write_block-check_example =
    write_block-check guidance true true new_repo none guidance-IsBody refl (inl refl)
