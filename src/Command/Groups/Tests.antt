-- ===== src/Command/Groups/Tests.antt =====
-- A group of two fields, as args.go writes it and violations.go reads it.
use anfra.Prelude.{String, ◌≡◌, refl, ◌↔◌, List, [], ◌∷◌, ◌++◌}
use anfra.Command.Groups.{exactly_one}
use anfra.Command.Groups.Violations.{set_count, exactly_one_iff, each_set, exactly_one_others}

abbrev fields : List String
fields = "source" ∷ []

abbrev both_set : List String
both_set = "source" ∷ "dataset" ∷ []

exactly_one_iff_example :
    ((exactly_one ("dataset" ∷ fields) both_set ≡ [])
      ↔ (set_count both_set ("dataset" ∷ fields) ≡ 1))
    × (set_count both_set ("dataset" ∷ fields) ≡ 0
        → exactly_one ("dataset" ∷ fields) both_set
          ≡ record { field = "dataset"; code = "required" } ∷ [])
exactly_one_iff_example = exactly_one_iff "dataset" fields both_set

exactly_one_others_example :
    exactly_one (("path" ∷ []) ++ "dataset" ∷ fields) both_set ≡ each_set both_set fields
exactly_one_others_example = exactly_one_others ("path" ∷ []) "dataset" fields both_set refl refl

second_invalid : each_set both_set fields ≡ record { field = "source"; code = "invalid" } ∷ []
second_invalid = refl
