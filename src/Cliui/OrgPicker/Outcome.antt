-- ===== src/Cliui/OrgPicker/Outcome.antt =====
-- internal/cliui/org_picker.go: what a finished picker has picked.
use anfra.Prelude.{
  ℕ, String, ◌≡◌, refl, inl, inr, Bool, true, false, ◌&&◌, Option, none, some, List, [], ◌∷◌, arith,
  Bool-cases, Option-cases, if_cases, is_nil, get_elem?,
}
use mathlib.Core.Path.{subst, subst₂}
use mathlib.Core.Option.{some-injective}
use anfra.Cliui.OrgPicker.{
  OrgItem, Message, resize, ctrl_c, esc, enter, typed, moved, Picker, start_picker, choose, update,
  run_picker, result,
}

-- A result that the caller may act on: an item of the list that is not the input, with no address,
-- or the canonical address of an organization that was typed.
pub data Picked (parse : String → Option String) (items : List OrgItem)
    : Option ℕ → String → Type 0 where
  listed :
      {n : Option ℕ} {a : String} (i : OrgItem) (at : ℕ)
      → get_elem? items at ≡ some i
      → i.input ≡ false
      → n ≡ i.index
      → a ≡ ""
      → Picked parse items n a
  entered :
      {n : Option ℕ} {a : String} (value : String)
      → parse value ≡ some a
      → n ≡ none
      → Picked parse items n a

-- While it runs, a picker has chosen nothing; once it has, it is finished.
pub record IsSound (parse : String → Option String) (items : List OrgItem) (m : Picker)
    : Type 0 where
  pub same_items : m.items ≡ items
  pub finished_first : m.selected ≡ true → m.finished ≡ true
  pub unset : m.selected ≡ false → (m.index ≡ none) × (m.address ≡ "")
  pub picked : m.selected ≡ true → Picked parse items m.index m.address

module _ (parse : String → Option String) (items : List OrgItem) where
  choose-IsSound :
      (i : OrgItem) (m : Picker)
      → get_elem? items m.cursor ≡ some i
      → m.selected ≡ false
      → IsSound parse items m
      → IsSound parse items (choose i m)
  unfolding choose
  choose-IsSound i m found idle v = elim (Bool-cases i.input) [
    | inl edits ↦ rw edits (record {
      same_items = v.same_items;
      finished_first = v.finished_first;
      unset = v.unset;
      picked = v.picked;
    })
    | inr plain_ ↦ rw plain_ (record {
      same_items = v.same_items;
      finished_first = λ _. refl;
      unset = λ e. cc;
      picked = λ _. listed i m.cursor found plain_ refl (v.unset idle).1;
    })
  ]

  -- A picker that has chosen nothing is sound.
  idle-IsSound :
      (m : Picker)
      → m.items ≡ items
      → m.selected ≡ false
      → (m.index ≡ none) × (m.address ≡ "")
      → IsSound parse items m
  idle-IsSound m same idle nothing = record {
    same_items = same;
    finished_first = λ e. cc;
    unset = λ _. nothing;
    picked = λ e. absurd (not_both m.selected e idle);
  }
    where
      not_both : (b : Bool) → b ≡ true → ¬ (b ≡ false)
      not_both b x y = cc

  entered-IsSound :
      (m : Picker) (a : String)
      → parse m.value ≡ some a
      → m.items ≡ items
      → IsSound parse items
          (record m { index = none; address = a; selected = true; finished = true })
  entered-IsSound m a e same = record {
    same_items = same;
    finished_first = λ _. refl;
    unset = λ x. cc;
    picked = λ _. entered m.value e refl;
  }

  update-IsSound :
      (e : Message) (m : Picker)
      → m.selected ≡ false
      → IsSound parse items m
      → IsSound parse items (update parse e m)
  unfolding update
  update-IsSound (resize w h) m idle v = idle-IsSound _ v.same_items idle (v.unset idle)
  update-IsSound ctrl_c m idle v = idle-IsSound _ v.same_items idle (v.unset idle)
  update-IsSound esc m idle v = elim (Bool-cases m.editing) [
    | inl edits ↦ rw edits (idle-IsSound _ v.same_items idle (v.unset idle))
    | inr lists ↦ rw lists (idle-IsSound _ v.same_items idle (v.unset idle))
  ]
  update-IsSound enter m idle v = elim (Bool-cases m.editing) [
    | inl edits ↦ elim (Option-cases (parse m.value)) [
      | inl bad ↦ rw (edits, bad) (idle-IsSound _ v.same_items idle (v.unset idle))
      | inr (a, good) ↦ rw (edits, good) (entered-IsSound m a good v.same_items)
    ]
    | inr lists ↦ elim (Option-cases (get_elem? m.items m.cursor)) [
      | inl none_ ↦ rw (lists, none_) v
      | inr (i, found) ↦ rw (lists, found) (choose-IsSound i m (rw v.same_items at found) idle v)
    ]
  ]
  update-IsSound (typed t) m idle v =
      if_cases (IsSound parse items) m.editing _ m
        (λ _. idle-IsSound _ v.same_items idle (v.unset idle)) (λ _. v)
  update-IsSound (moved i) m idle v =
      if_cases (IsSound parse items) m.editing m _ (λ _. v)
        (λ _. idle-IsSound _ v.same_items idle (v.unset idle))

  run_picker-IsSound :
      (es : List Message) (m : Picker)
      → IsSound parse items m
      → IsSound parse items (run_picker parse es m)
  unfolding run_picker
  run_picker-IsSound [] m v = v
  run_picker-IsSound (e ∷ es) m v =
      if_cases (IsSound parse items) m.finished m _ (λ _. v)
        (λ going.
          run_picker-IsSound es (update parse e m) (update-IsSound e m (idle_of m v going) v))
    where
      idle_of : (m : Picker) → IsSound parse items m → m.finished ≡ false → m.selected ≡ false
      idle_of m v going = ground (arith, v.finished_first)

-- Whatever is typed and pressed, a picker's result is one of the offered items that is not the
-- input, by its index and with no address, or the canonical address of an organization's URL.
pub run_picker-Picked :
    (parse : String → Option String) (items : List OrgItem) (m : Picker) (es : List Message)
    (n : Option ℕ) (a : String)
    → start_picker items ≡ some m
    → result (run_picker parse es m) ≡ some (n, a)
    → Picked parse items n a
unfolding start_picker result
run_picker-Picked parse items m es n a e h =
    of_result (run_picker parse es m) (run_picker-IsSound parse items es m (starts items m e)) h
  where
    starts :
        (items : List OrgItem) (m : Picker) → start_picker items ≡ some m → IsSound parse items m
    starts [] m e = cc
    starts (i ∷ is) m e =
        let s : IsSound parse (i ∷ is) (record {
          items = i ∷ is;
          cursor = 0;
          value = "";
          width = 80;
          height = 20;
          editing = is_nil is && i.input;
          selected = false;
          finished = false;
          index = none;
          address = "";
          validation = "";
        }) =
          idle-IsSound parse (i ∷ is) _ refl refl (refl, refl) in
        subst (IsSound parse (i ∷ is)) (some-injective _ _ e) s

    of_result :
        (m : Picker) → IsSound parse items m → result m ≡ some (n, a) → Picked parse items n a
    of_result m v h = elim (Bool-cases m.selected) [
      | inl chosen ↦
          let same : (m.index ≡ n) × (m.address ≡ a) = ground arith in
          subst₂ (Picked parse items) same.0 same.1 (v.picked chosen)
      | inr idle ↦ absurd (ground arith)
    ]
