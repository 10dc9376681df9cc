-- ===== src/Cliui/OrgPicker.antt =====
-- internal/cliui/org_picker.go: the picker of an organization, as a state machine over key presses.
-- `cloudapi.ParseOrg`, with the address that it gives back, and the widgets of bubbletea are not
-- this package's: the first is an argument, and of the list and the text input only the selected
-- item and the value are kept, which an event other than those handled may change.
pub mod Outcome
mod Tests
use anfra.Prelude.{
  ℕ, ◌+◌, String, Bool, true, false, not, ◌&&◌, Option, none, some, List, [], ◌∷◌, ◌++◌, str_eq,
  ltb, if◌then◌else◌, length, is_nil, get_elem?,
}

pub record OrgItem : Type 0 where
  pub name : String
  pub url : String
  -- the stored index, `len(orgs)` for hosted, and none for -1
  pub index : Option ℕ
  pub input : Bool

pub record OrgChoice : Type 0 where
  pub name : String
  pub url : String

-- A key press by its meaning here, a window size, or any other message, after which the widget in
-- use may hold another value or another selection.
pub data Message : Type 0 where
  resize : ℕ → ℕ → Message
  ctrl_c esc enter : Message
  typed : String → Message
  moved : ℕ → Message

pub record Picker : Type 0 where
  pub items : List OrgItem
  pub cursor : ℕ
  pub value : String
  pub width : ℕ
  pub height : ℕ
  pub editing : Bool
  pub selected : Bool
  pub finished : Bool
  pub index : Option ℕ
  pub address : String
  pub validation : String

abbrev pub invalid_url : String
invalid_url = "Invalid organization URL. Use https://bi.example.com/o/acme."

-- The items of the stored organizations, in the caller's order. `safe` is `SafeText`, and `slug`
-- is `ParseOrg`'s.
org_items : (String → String) → (String → Option String) → ℕ → List OrgChoice → List OrgItem
org_items safe slug i [] = []
org_items safe slug i (org ∷ orgs) =
    record {
      name =
          if str_eq (safe org.name) ""
          then elim (slug org.url) [ some s ↦ s | none ↦ "Stored organization" ]
          else safe org.name;
      url = safe org.url;
      index = some i;
      input = false;
    }
    ∷ org_items safe slug (i + 1) orgs

-- The items that `PickOrg` offers, with the stable sort of the stored ones as an argument.
pub offered :
    (String → String)
    → (List OrgItem → List OrgItem)
    → (String → Option String)
    → List OrgChoice
    → String
    → Bool
    → List OrgItem
unfolding org_items
offered safe sorted slug orgs cloud_url allow_url =
    sorted (org_items safe slug 0 orgs)
    ++ (if not (str_eq cloud_url "") && allow_url
        then record { name = safe cloud_url; url = ""; index = some (length orgs); input = false }
          ∷ []
        else [])
    ++ (if allow_url
        then record { name = "Enter your organization URL"; url = ""; index = none; input = true }
          ∷ []
        else [])

-- The picker as `PickOrg` starts it; none where there is nothing to pick.
pub start_picker : List OrgItem → Option Picker
start_picker [] = none
start_picker (i ∷ is) = some (record {
  items = i ∷ is;
  cursor = 0;
  value = "";
  width = 80;
  height = 20;
  editing = is_nil is && i.input;
  selected = false;
  finished = false;
  index = none;
  address = "";
  validation = "";
})

-- `Enter` on an item of the list.
choose : OrgItem → Picker → Picker
choose i m =
    if i.input
    then record m { editing = true }
    else record m { index = i.index; selected = true; finished = true }

-- `Update`. `parse` is `ParseOrg` and its canonical address. The type assertion on the selected
-- item would panic on an empty list, which `start_picker` refuses.
pub update : (String → Option String) → Message → Picker → Picker
unfolding choose
update parse (resize w h) m = record m { width = w; height = h }
update parse ctrl_c m = record m { finished = true }
update parse esc m =
    if m.editing
    then record m { editing = false; validation = "" }
    else record m { finished = true }
update parse enter m =
    if m.editing
    then elim (parse m.value) [
      | none ↦ record m { validation = invalid_url }
      | some address ↦ record m {
        index = none;
        address = address;
        selected = true;
        finished = true;
      }
    ]
    else elim (get_elem? m.items m.cursor) [ some i ↦ choose i m | none ↦ m ]
update parse (typed s) m = if m.editing then record m { value = s } else m
update parse (moved i) m =
    if m.editing then m else record m { cursor = if ltb i (length m.items) then i else m.cursor }

-- The program's loop: messages until one finishes the picker.
pub run_picker : (String → Option String) → List Message → Picker → Picker
unfolding update
run_picker parse [] m = m
run_picker parse (e ∷ es) m =
    let rest = run_picker parse es (update parse e m) in if m.finished then m else rest

-- What `PickOrg` returns of a finished picker; none for `context.Canceled`.
pub result : Picker → Option (Option ℕ × String)
result m = if m.selected then some (m.index, m.address) else none
