-- ===== src/Pretty/Layout/Sound.antt =====
-- A view built from a result can be drawn.
use anfra.Prelude.{
  suc, ◌≤◌, String, ◌≡◌, refl, ap, inl, inr, Bool, true, false, ◌&&◌, ◌||◌, Option, none, some,
  List, [], ◌∷◌, ◌++◌, map, arith, if◌then◌else◌, Option-cases, if_cases, length, All, All-append,
  text_contains,
}
use anfra.Pretty.{Cell, Value, entry}
use anfra.Pretty.Tables.{longest}
use anfra.Pretty.View.{
  Hint, Node, absent, scalar, object, scalars, objects, lists, opaque, Fields, no_field, field,
  Objects, no_object, one_object, no_row, one_row, is_object, scalar_cell, scalar_cells, text_lines,
  data_rows,
}
use anfra.Pretty.Listing.{
  Seen, entries_of, titled, items_of, all_before, row_of, rows_of, table_of, list_of,
}
use anfra.Pretty.Layout.{
  Builder, see, value_of, see_inside, see_items, scalar_list, scalar_value, texts, seen, placed,
  table_cell,
}
use anfra.Pretty.Draw.Total.{IsSound, ValueIsSound, ItemsIsSound, TableIsSound}

-- In every list of lists a field has no more labels than the longest list has values, and every named
-- view's answer can be drawn, however deep the field is.
abbrev pub ViewIsSound : Option Value → Type 0
ViewIsSound none = Unit {0}
ViewIsSound (some v) = ValueIsSound v

unfoldable mutual
  unfolding data_rows

  pub IsLabelled : Builder → Fields → Type 0
  IsLabelled b no_field = Unit {0}
  IsLabelled b (field h n fs) = ViewIsSound h.view × NodeIsLabelled b h n × IsLabelled b fs

  pub NodeIsLabelled : Builder → Hint → Node → Type 0
  NodeIsLabelled b h absent = Unit {0}
  NodeIsLabelled b h (scalar s is_string empty) = Unit {0}
  NodeIsLabelled b h (object empty fs s) = IsLabelled b fs
  NodeIsLabelled b h (scalars ss s) = Unit {0}
  NodeIsLabelled b h (objects os s) = ObjectsAreLabelled b os
  NodeIsLabelled b h (lists rs s) = length h.labels ≤ longest (data_rows b.terminal h rs)
  NodeIsLabelled b h (opaque s) = Unit {0}

  pub ObjectsAreLabelled : Builder → Objects → Type 0
  ObjectsAreLabelled b no_object = Unit {0}
  ObjectsAreLabelled b (one_object fs os) = IsLabelled b fs × ObjectsAreLabelled b os

-- Every field's value can be drawn.
abbrev AllSound : List Seen → Type 0
AllSound = All (λ f. ValueIsSound f.value)

entries_of-IsSound : (fs : List Seen) → AllSound fs → IsSound (entries_of fs)
unfolding entries_of IsSound
entries_of-IsSound [] h = tt
entries_of-IsSound (f ∷ fs) (p, h) =
    if_cases IsSound f.omitted (entries_of fs) (entry f.label f.value (entries_of fs))
      (λ _. entries_of-IsSound fs h) (λ _. (p, entries_of-IsSound fs h))

titled-AllSound : (fs : List Seen) → AllSound fs → AllSound (titled fs).1
unfolding titled
titled-AllSound [] h = tt
titled-AllSound (f ∷ fs) (p, h) = elim (Option-cases f.title) [
  | inl e ↦ rw e (p, titled-AllSound fs h)
  | inr (s, e) ↦ rw e h
]

items_of-IsSound : (items : List (List Seen)) → All AllSound items → ItemsIsSound (items_of items)
unfolding items_of IsSound
items_of-IsSound [] h = tt
items_of-IsSound (fs ∷ items) (p, h) =
    (entries_of-IsSound (titled fs).1 (titled-AllSound fs p), items_of-IsSound items h)

all_before_inv {ℓ} :
    {A : Type ℓ} (x : Option A) (o : Option (List A)) (r : List A)
    → all_before x o ≡ some r
    → (a : A) × (l : List A) × (r ≡ a ∷ l) × (x ≡ some a) × (o ≡ some l)
unfolding all_before
all_before_inv none o r h = cc
all_before_inv (some a) none r h = cc
all_before_inv (some a) (some l) r h = (a, l, cc, refl, refl)

length-row_of : (fs : List Seen) (r : List Cell) → row_of fs ≡ some r → length r ≡ length fs
unfolding row_of
length-row_of [] r h = let e : r ≡ [] = cc in rw e refl
length-row_of (f ∷ fs) r h =
    let (c, l, whole, first, rest) = all_before_inv f.in_table (row_of fs) r h in
    rw whole (ap suc (length-row_of fs l rest))

length-map {ℓ κ} : {A : Type ℓ} {B : Type κ} (f : A → B) (l : List A) → length (map f l) ≡ length l
length-map f [] = refl
length-map f (a ∷ l) = ap suc (length-map f l)

-- The heading has as many columns as the first row.
header-le-longest :
    (upper : String → String) (fs : List Seen) (items : List (List Seen)) (rs : List (List Cell))
    → rows_of (fs ∷ items) ≡ some rs
    → length (map (λ f. upper f.label) fs) ≤ longest rs
unfolding rows_of
header-le-longest upper fs items rs h =
    let (r, l, whole, first, rest) = all_before_inv (row_of fs) (rows_of items) rs h in
    rw whole (omega (arith, length-row_of fs r first, length-map (λ (f : Seen). upper f.label) fs))

table_of-IsSound :
    (upper : String → String) (items : List (List Seen)) → TableIsSound (table_of upper items)
unfolding table_of
table_of-IsSound upper [] = omega arith
table_of-IsSound upper (fs ∷ items) = elim (Option-cases (rows_of (fs ∷ items))) [
  | inl e ↦ rw e tt
  | inr (rs, e) ↦ rw e (header-le-longest upper fs items rs e)
]

list_of-IsSound :
    (upper : String → String) (items : List (List Seen))
    → All AllSound items
    → ValueIsSound (list_of upper items)
unfolding list_of IsSound
list_of-IsSound upper items h = (table_of-IsSound upper items, items_of-IsSound items h)

scalar_value-IsSound :
    (b : Builder) (h : Hint) (s : String) (is_string : Bool)
    → ValueIsSound (scalar_value b h s is_string)
unfolding scalar_value IsSound
scalar_value-IsSound b h s is_string =
    if_cases ValueIsSound (is_string && (h.block || text_contains s "\n"))
      (Value.block (text_lines b.terminal s)) (Value.text (scalar_cell b.terminal h s)) (λ _. tt)
      (λ _. tt)

scalar_list-IsSound :
    (b : Builder) (h : Hint) (ns : List String) → ValueIsSound (scalar_list b h ns)
unfolding scalar_list IsSound
scalar_list-IsSound b h ns =
    if_cases ValueIsSound h.tree (Value.block (b.tree_lines (texts (scalar_cells b.terminal h ns))))
      (Value.lines (scalar_cells b.terminal h ns)) (λ _. tt) (λ _. tt)

placed-AllSound :
    (h : Hint) (n : Node) (own : Seen) (inside rest : List Seen)
    → ValueIsSound own.value
    → AllSound inside
    → AllSound rest
    → AllSound (placed h n own inside rest)
unfolding placed
placed-AllSound h n own inside rest p q r =
    if_cases AllSound h.hidden rest (if h.inline && is_object n then inside ++ rest else own ∷ rest)
      (λ _. r)
      (λ _.
        if_cases AllSound (h.inline && is_object n) (inside ++ rest) (own ∷ rest)
          (λ _. All-append (λ f. ValueIsSound f.value) inside rest q r) (λ _. (p, r)))

seen-IsSound :
    (b : Builder) (h : Hint) (n : Node) (v : Value) (c : Option Cell)
    → ValueIsSound v
    → ValueIsSound (seen b h n v c).value
unfolding seen
seen-IsSound b h n v c p = p

-- What a named view answers, or else the value's own view.
viewed-IsSound :
    (o : Option Value) (v : Value)
    → ViewIsSound o
    → ValueIsSound v
    → ValueIsSound (elim o [ none ↦ v | some w ↦ w ])
viewed-IsSound none v h k = k
viewed-IsSound (some w) v h k = h

mutual
  unfolding see IsLabelled IsSound

  see-AllSound : (b : Builder) (fs : Fields) → IsLabelled b fs → AllSound (see b fs)
  see-AllSound b no_field h = tt
  see-AllSound b (field k n fs) (v, p, h) =
      placed-AllSound k n
        (seen b k n (elim k.view [ none ↦ value_of b k n | some w ↦ w ]) (table_cell b k n))
        (see_inside b n) (see b fs)
        (seen-IsSound b k n _ (table_cell b k n)
          (viewed-IsSound k.view (value_of b k n) v (value_of-IsSound b k n p)))
        (see_inside-AllSound b k n p) (see-AllSound b fs h)

  value_of-IsSound :
      (b : Builder) (k : Hint) (n : Node) → NodeIsLabelled b k n → ValueIsSound (value_of b k n)
  value_of-IsSound b k absent h = tt
  value_of-IsSound b k (scalar s is_string true) h = tt
  value_of-IsSound b k (scalar s is_string false) h = scalar_value-IsSound b k s is_string
  value_of-IsSound b k (object true fs s) h = tt
  value_of-IsSound b k (object false fs s) h = entries_of-IsSound (see b fs) (see-AllSound b fs h)
  value_of-IsSound b k (scalars [] s) h = tt
  value_of-IsSound b k (scalars (x ∷ xs) s) h = scalar_list-IsSound b k (x ∷ xs)
  value_of-IsSound b k (objects no_object s) h = tt
  value_of-IsSound b k (objects (one_object fs os) s) (p, h) =
      list_of-IsSound b.upper (see b fs ∷ see_items b os)
        (see-AllSound b fs p, see_items-AllSound b os h)
  value_of-IsSound b k (lists no_row s) h = tt
  value_of-IsSound b k (lists (one_row r rs) s) h = h
  value_of-IsSound b k (opaque s) h = tt

  see_inside-AllSound :
      (b : Builder) (k : Hint) (n : Node) → NodeIsLabelled b k n → AllSound (see_inside b n)
  see_inside-AllSound b k (object empty fs s) h = see-AllSound b fs h
  see_inside-AllSound b k absent h = tt
  see_inside-AllSound b k (scalar s is_string empty) h = tt
  see_inside-AllSound b k (scalars ss s) h = tt
  see_inside-AllSound b k (objects os s) h = tt
  see_inside-AllSound b k (lists rs s) h = tt
  see_inside-AllSound b k (opaque s) h = tt

  see_items-AllSound :
      (b : Builder) (os : Objects) → ObjectsAreLabelled b os → All AllSound (see_items b os)
  see_items-AllSound b no_object h = tt
  see_items-AllSound b (one_object fs os) (p, h) = (see-AllSound b fs p, see_items-AllSound b os h)
