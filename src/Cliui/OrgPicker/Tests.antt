-- ===== src/Cliui/OrgPicker/Tests.antt =====
-- Runs of the picker of internal/cli/ui/org_picker.go: one stored organization and the input.
use anfra.Prelude.{String, true, false, Option, none, some, List, [], ◌∷◌, str_eq, if◌then◌else◌}
use anfra.Cliui.OrgPicker.{OrgItem, Message, moved, enter, typed, Picker}

abbrev items : List OrgItem
items =
    record { name = "acme"; url = "https://bi.example.com/o/acme"; index = some 0; input = false }
    ∷ record { name = "Enter your organization URL"; url = ""; index = none; input = true }
    ∷ []

abbrev started : Picker
started = record {
  items = items;
  cursor = 0;
  value = "";
  width = 80;
  height = 20;
  editing = false;
  selected = false;
  finished = false;
  index = none;
  address = "";
  validation = "";
}

-- An address is taken as it is unless it is empty.
abbrev as_typed : String → Option String
as_typed s = if str_eq s "" then none else some s

-- The input is picked, refused empty, and then given an address.
abbrev presses : List Message
presses = moved 1 ∷ enter ∷ enter ∷ typed "https://bi.example.com/o/tea" ∷ enter ∷ []
