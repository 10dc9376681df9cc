-- ===== src/Command/Args/WellFormed.antt =====
-- internal/command/args.go: what `parseArgs` asks of the args that it accepts.
use anfra.Prelude.{
  ℕ, ◌+◌, ◌≤◌, String, ◌≡◌, refl, ◌≢◌, ◌⊎◌, inl, inr, true, false, ◌||◌, List, [], ◌∷◌, ◌++◌, arith,
  str_eq, eq_iff, leb, if◌then◌else◌, leb→le, Bool-cases, Option-cases, is_nil, All, All-append,
  contains, Result, ok, ◌>>=◌, require, >>=-eq-ok,
}
use std.Path.{subst}
use anfra.Command.Args.{
  Field, Arg, Refusal, ParseState, initial, is_string, is_string_array, arg_type, read_cli,
  check_arg, take_names, parse_field, parse_fields, declared, added, take_arg, check_groups,
  parse_args, count_name, many_positional,
}

-- One arg as its documentation has it.
pub record IsArg (a : Arg) : Type 0 where
  pub named : (a.name ≢ "") × (a.usage ≢ "")
  pub positional_text : a.positional ≡ true → is_string a.type || is_string_array a.type ≡ true
  pub required_text : a.required ≡ true → is_string a.type ≡ true
  pub stdin_text : a.stdin ≡ true → is_string a.type ≡ true
  pub default_text : a.default ≢ "" → (is_string a.type ≡ true) × (a.required ≡ false)
  pub default_listed : a.default ≢ "" → is_nil a.enum ≡ false → contains a.enum a.default ≡ true
  pub group_optional : a.group ≢ "" → a.required ≡ false

abbrev pub all_names : List Arg → List String
all_names [] = []
all_names (a ∷ as_) = a.name ∷ (a.aliases ++ all_names as_)

abbrev pub count_group : List Arg → String → ℕ
count_group [] g = 0
count_group (a ∷ as_) g = (if str_eq a.group g then 1 else 0) + count_group as_ g

abbrev pub count_short : List Arg → String → ℕ
count_short [] g = 0
count_short (a ∷ as_) g = (if str_eq a.shorthand g then 1 else 0) + count_short as_ g

abbrev pub count_positional : List Arg → ℕ
count_positional [] = 0
count_positional (a ∷ as_) = (if a.positional then 1 else 0) + count_positional as_

count_name-append :
    (xs ys : List String) (n : String) → count_name (xs ++ ys) n ≡ count_name xs n + count_name ys n
count_name-append [] ys n = omega arith
count_name-append (x ∷ xs) ys n = omega (arith, count_name-append xs ys n)

count_name_of_missing :
    (xs : List String) (n : String) → contains xs n ≡ false → count_name xs n ≡ 0
count_name_of_missing [] n h = refl
count_name_of_missing (x ∷ xs) n h = ground (arith, count_name_of_missing xs n)

-- Taking names keeps each at most once.
take_names-count :
    (name : String) (ns names : List String) {out : List String} (n : String)
    → take_names name ns names ≡ ok out
    → count_name names n ≤ 1
    → (count_name out n ≡ count_name ns n + count_name names n) × (count_name out n ≤ 1)
unfolding take_names
take_names-count name [] names n e h = ground arith
take_names-count name (m ∷ ns) names {out} n e h = elim (Bool-cases (contains names m)) [
  | inl taken ↦ absurd (ground arith)
  | inr fresh ↦ ground (
    arith,
    count_name_of_missing names m fresh,
    eq_iff m n,
    take_names-count name ns (m ∷ names) {out = out} n,
  )
]

check_arg-IsArg :
    (len : String → ℕ) (field : String) (a : Arg) (shorts : List String)
    → check_arg len field a shorts ≡ ok tt
    → IsArg a × ((a.shorthand ≡ "") ⊎ (contains shorts a.shorthand ≡ false))
unfolding check_arg
check_arg-IsArg len field a shorts e = ground (
  arith,
  eq_iff a.name "",
  eq_iff a.usage "",
  eq_iff a.default "",
  eq_iff a.group "",
  eq_iff a.shorthand "",
)

-- What reading the cli options keeps of an arg, and what it counts.
read_cli-kept :
    (name : String) (os : List String) (a : Arg) (n : ℕ) {b : Arg} {m : ℕ}
    → read_cli name os (a, n) ≡ ok (b, m)
    → ((if b.positional then 1 else 0) + n ≤ m + (if a.positional then 1 else 0))
      × (b.name ≡ a.name)
      × (b.aliases ≡ a.aliases)
      × (b.shorthand ≡ a.shorthand)
      × (b.group ≡ a.group)
unfolding read_cli
read_cli-kept name [] a n e = ground arith
read_cli-kept name (o ∷ os) a n {b} {m} e = elim (Bool-cases (str_eq o "positional")) [
  | inl p ↦
      let h =
        read_cli-kept name os (record a { positional = true }) (n + 1) {b = b} {m = m}
          (ground (arith)) in
      ground (arith, h)
  | inr np ↦ elim (Bool-cases (str_eq o "stdin")) [
    | inl i ↦
        let h =
          read_cli-kept name os (record a { stdin = true }) n {b = b} {m = m} (ground arith) in
        ground (arith, h)
    | inr ni ↦ let h = read_cli-kept name os a n {b = b} {m = m} (ground arith) in ground (arith, h)
  ]
]

-- The invariant of the loop over the fields.
pub record IsSound (s : ParseState) : Type 0 where
  pub each : All IsArg s.args
  pub names_counted :
      (n : String)
      → count_name s.names n ≡ count_name (all_names s.args) n + count_name ("help" ∷ []) n
  pub names_once : (n : String) → count_name s.names n ≤ 1
  pub shorts_counted : (x : String) → x ≢ "" → count_name s.shorts x ≡ count_short s.args x
  pub shorts_once : (x : String) → count_name s.shorts x ≤ 1
  pub groups_counted : (g : String) → g ≢ "" → count_name s.groups g ≡ count_group s.args g
  pub positional_counted : count_positional s.args ≤ s.positional

all_names-snoc :
    (as_ : List Arg) (a : Arg) (n : String)
    → count_name (all_names (as_ ++ a ∷ [])) n
      ≡ count_name (all_names as_) n + count_name (a.name ∷ a.aliases) n
all_names-snoc [] a n = omega (arith, count_name-append a.aliases [] n)
all_names-snoc (b ∷ as_) a n = omega (
  arith,
  all_names-snoc as_ a n,
  count_name-append b.aliases (all_names as_) n,
  count_name-append b.aliases (all_names (as_ ++ a ∷ [])) n,
)

count_group-snoc :
    (as_ : List Arg) (a : Arg) (g : String)
    → count_group (as_ ++ a ∷ []) g ≡ count_group as_ g + (if str_eq a.group g then 1 else 0)
count_group-snoc [] a g = omega arith
count_group-snoc (b ∷ as_) a g = omega (arith, count_group-snoc as_ a g)

count_short-snoc :
    (as_ : List Arg) (a : Arg) (g : String)
    → count_short (as_ ++ a ∷ []) g ≡ count_short as_ g + (if str_eq a.shorthand g then 1 else 0)
count_short-snoc [] a g = omega arith
count_short-snoc (b ∷ as_) a g = omega (arith, count_short-snoc as_ a g)

count_positional-snoc :
    (as_ : List Arg) (a : Arg)
    → count_positional (as_ ++ a ∷ []) ≡ count_positional as_ + (if a.positional then 1 else 0)
count_positional-snoc [] a = omega arith
count_positional-snoc (b ∷ as_) a = omega (arith, count_positional-snoc as_ a)

short_once :
    (shorts : List String) (y x : String)
    → (y ≡ "") ⊎ (contains shorts y ≡ false)
    → count_name shorts x ≤ 1
    → count_name (if str_eq y "" then shorts else y ∷ shorts) x ≤ 1
short_once shorts y x (inl e) h = ground (arith, eq_iff y "")
short_once shorts y x (inr e) h = ground (arith, count_name_of_missing shorts y e, eq_iff y x)

added-IsSound :
    (s : ParseState) (a : Arg) (names : List String) (positional : ℕ)
    → IsSound s
    → IsArg a
    → (a.shorthand ≡ "") ⊎ (contains s.shorts a.shorthand ≡ false)
    → take_names a.name (a.name ∷ a.aliases) s.names ≡ ok names
    → (if a.positional then 1 else 0) + s.positional ≤ positional
    → IsSound (added s a names positional)
added-IsSound s a names positional v fit short taken more = record {
  each = All-append IsArg s.args (a ∷ []) v.each (fit, tt);
  names_counted = λ n. omega (arith, (counted n).0, v.names_counted n, all_names-snoc s.args a n);
  names_once = λ n. (counted n).1;
  shorts_counted = λ x h. ground (
    arith,
    v.shorts_counted x h,
    count_short-snoc s.args a x,
    eq_iff a.shorthand "",
    eq_iff a.shorthand x,
  );
  shorts_once = λ x. short_once s.shorts a.shorthand x short (v.shorts_once x);
  groups_counted = λ g h. ground (
    arith,
    v.groups_counted g h,
    count_group-snoc s.args a g,
    eq_iff a.group "",
    eq_iff a.group g,
  );
  positional_counted = omega (arith, v.positional_counted, count_positional-snoc s.args a);
}
  where
    counted :
        (n : String)
        → (count_name names n ≡ count_name (a.name ∷ a.aliases) n + count_name s.names n)
          × (count_name names n ≤ 1)
    counted n =
        take_names-count a.name (a.name ∷ a.aliases) s.names {out = names} n taken (v.names_once n)

ok_inj : {s t : ParseState} → ◌≡◌ {A = Result Refusal ParseState} (ok s) (ok t) → s ≡ t
ok_inj e = cc

take_arg-IsSound :
    (len : String → ℕ) (f : Field) (s : ParseState) (a : Arg) (positional : ℕ) {out : ParseState}
    → take_arg len f s (a, positional) ≡ ok out
    → (if a.positional then 1 else 0) + s.positional ≤ positional
    → IsSound s
    → IsSound out
unfolding take_arg
take_arg-IsSound len f s a positional {out} e more v =
    let (u, checked, e1) = >>=-eq-ok (check_arg len f.name a s.shorts) _ e in
    let (names, taken, e2) = >>=-eq-ok (take_names a.name (a.name ∷ a.aliases) s.names) _ e1 in
    let (fit, short) = check_arg-IsArg len f.name a s.shorts checked in
    subst IsSound (ok_inj e2) (added-IsSound s a names positional v fit short taken more)

-- An accepted field adds nothing, or the arg its tags declare.
parse_field-cases :
    (len : String → ℕ) (f : Field) (s : ParseState) {out : ParseState}
    → parse_field len f s ≡ ok out
    → (s ≡ out)
      ⊎ ((a : Arg) × (n : ℕ) × ((if a.positional then 1 else 0) + s.positional ≤ n)
          × (take_arg len f s (a, n) ≡ ok out))
unfolding parse_field
parse_field-cases len f s {out} e = elim (Bool-cases f.anonymous) [
  | inl embedded ↦ inl (ground (arith))
  | inr own ↦ elim (Option-cases f.json) [
    | inl untagged ↦ inl (ground (arith))
    | inr (tag, tagged) ↦
        let e0 : ((arg_type tag.0 f >>= λ type.
        read_cli tag.0 f.cli (declared f tag.0 tag.1 type, s.positional) >>= λ read.
        take_arg len f s read)
            ≡ ok out) =
          ground (arith) in
        let (type, typed, e1) = >>=-eq-ok (arg_type tag.0 f) _ e0 in
        let (read, kept, e2) =
          >>=-eq-ok (read_cli tag.0 f.cli (declared f tag.0 tag.1 type, s.positional)) _ e1 in
        inr (
          read.0,
          read.1,
          omega (
            arith,
            (read_cli-kept tag.0 f.cli (declared f tag.0 tag.1 type) s.positional {b = read.0}
                {m = read.1} kept).0,
          ),
          e2,
        )
  ]
]

-- One accepted field keeps the loop's variables sound.
parse_field-IsSound :
    (len : String → ℕ) (f : Field) (s : ParseState) {out : ParseState}
    → parse_field len f s ≡ ok out
    → IsSound s
    → IsSound out
parse_field-IsSound len f s {out} e v = elim (parse_field-cases len f s {out = out} e) [
  | inl same ↦ subst IsSound same v
  | inr (a, n, more, taken) ↦ take_arg-IsSound len f s a n {out = out} taken more v
]

parse_fields-IsSound :
    (len : String → ℕ) (fs : List Field) (s : ParseState) {out : ParseState}
    → parse_fields len fs s ≡ ok out
    → IsSound s
    → IsSound out
unfolding parse_fields
parse_fields-IsSound len [] s e v = subst IsSound (ok_inj e) v
parse_fields-IsSound len (f ∷ fs) s {out} e v =
    let (s', first, e') = >>=-eq-ok (parse_field len f s) _ e in
    parse_fields-IsSound len fs s' {out = out} e' (parse_field-IsSound len f s {out = s'} first v)

initial-IsSound : IsSound initial
initial-IsSound = record {
  each = tt;
  names_counted = λ n. omega arith;
  names_once = λ n. ground arith;
  shorts_counted = λ x h. refl;
  shorts_once = λ x. omega arith;
  groups_counted = λ g h. refl;
  positional_counted = omega arith;
}

check_groups-all :
    (all gs : List String) {u : Unit {0}} (g : String)
    → check_groups all gs ≡ ok u
    → 1 ≤ count_name gs g
    → 2 ≤ count_name all g
unfolding check_groups
check_groups-all all [] g e h = absurd (omega (arith, h))
check_groups-all all (x ∷ gs) {u} g e h =
    ground (arith, eq_iff x g, check_groups-all all gs {u = u} g)

-- What `parseArgs` promises of the args it accepts.
pub record IsAccepted (as_ : List Arg) : Type 0 where
  pub documented : All IsArg as_
  pub names_once : (n : String) → count_name (all_names as_) n + count_name ("help" ∷ []) n ≤ 1
  pub shorts_once : (x : String) → x ≢ "" → count_short as_ x ≤ 1
  pub groups_shared : (g : String) → g ≢ "" → 1 ≤ count_group as_ g → 2 ≤ count_group as_ g
  pub positional_once : count_positional as_ ≤ 1

-- If `parse_args` accepts a struct's fields, then every arg has a name and a usage, is positional,
-- required, read from stdin or defaulted only where its type allows it, is not both required and
-- defaulted, has its default among a non-empty enum, and is not required in a group; no name or
-- alias occurs twice, and none is "help"; no shorthand occurs twice; at most one arg is positional;
-- and a group that one arg names is named by at least two.
pub parse_args-IsAccepted :
    (len : String → ℕ) (fields : List Field) {out : List Arg}
    → parse_args len fields ≡ ok out
    → IsAccepted out
unfolding parse_args
parse_args-IsAccepted len fields {out} e =
    let (s, parsed, e1) = >>=-eq-ok (parse_fields len fields initial) _ e in
    let (u, single, e2) = >>=-eq-ok (require (leb s.positional 1) many_positional) _ e1 in
    let (w, shared, e3) = >>=-eq-ok (check_groups s.groups s.groups) _ e2 in
    let v = parse_fields-IsSound len fields initial {out = s} parsed initial-IsSound in
    subst IsAccepted (args_inj e3) (record {
      documented = v.each;
      names_once = λ n. omega (arith, v.names_counted n, v.names_once n);
      shorts_once = λ x h. omega (arith, v.shorts_counted x h, v.shorts_once x);
      groups_shared = λ g h used. omega (
        arith,
        v.groups_counted g h,
        check_groups-all s.groups s.groups {u = w} g shared
            (omega (arith, v.groups_counted g h, used)),
      );
      positional_once = omega (arith, v.positional_counted, single_lem s.positional single);
    })
  where
    single_lem : (n : ℕ) {u : Unit {0}} → require (leb n 1) many_positional ≡ ok u → n ≤ 1
    single_lem n h = elim (Bool-cases (leb n 1)) [
      | inl le ↦ leb→le n 1 le
      | inr gt ↦ absurd (ground (arith))
    ]

    args_inj : {xs ys : List Arg} → ◌≡◌ {A = Result Refusal (List Arg)} (ok xs) (ok ys) → xs ≡ ys
    args_inj h = cc
