-- ===== src/Apperr/Codes/Registry.antt =====
-- shared/apperr/apperr.go: the catalogs that the Define functions build.
use anfra.Prelude.{
  ℕ, zero, suc, String, ◌≡◌, refl, sym, ap, ◌∙◌, ◌⊎◌, inl, inr, true, false, Option, none, some,
  List, [], ◌∷◌, ◌++◌, map, arith, str_eq, eq_iff, Bool-cases, Option-cases, is_some, length,
  contains, get_elem?, ok, Result-cases,
}
use anfra.Apperr.Codes.{
  Entry, Catalog, qualify, is_public, qualified_name, define_internal, define_public, Built, define,
  public_of, nothing, scope_of, Scope, Code, public, internal, empty_catalog, generic,
}

-- A `*code`'s fields fit: a public code has a scope, an internal one maps to a public code and
-- has none.
abbrev EntryFits : Catalog → Entry → Type 0
EntryFits c e =
    ((e.public ≡ none) × (is_some e.scope ≡ true))
    ⊎ ((p : ℕ) × (e.public ≡ some p) × (is_public c (some p) ≡ true))

abbrev qualified_names : List Entry → List String
qualified_names = map (λ (e : Entry). qualify e.ns e.name)

get_elem?-append :
    (es : List Entry) (x : Entry) (p : ℕ) {e : Entry}
    → get_elem? es p ≡ some e
    → get_elem? (es ++ x ∷ []) p ≡ some e
get_elem?-append [] x p h = cc
get_elem?-append (y ∷ es) x zero h = h
get_elem?-append (y ∷ es) x (suc p) h = get_elem?-append es x p h

get_elem?-snoc :
    (es : List Entry) (x : Entry) (p : ℕ) {e : Entry}
    → get_elem? (es ++ x ∷ []) p ≡ some e
    → (get_elem? es p ≡ some e) ⊎ ((p ≡ length es) × (x ≡ e))
get_elem?-snoc [] x zero h = inr (refl, ground arith)
get_elem?-snoc [] x (suc p) h = cc
get_elem?-snoc (y ∷ es) x zero h = inl h
get_elem?-snoc (y ∷ es) x (suc p) h = elim (get_elem?-snoc es x p h) [
  | inl old ↦ inl old
  | inr (e, same) ↦ inr (ap suc e, same)
]

pub record IsSound (c : Catalog) : Type 0 where
  pub fits : (p : ℕ) (e : Entry) → get_elem? c.registered p ≡ some e → EntryFits c e
  pub names :
      (p : ℕ) (e : Entry)
      → get_elem? c.registered p ≡ some e
      → contains c.qualified (qualify e.ns e.name) ≡ true
  pub unique :
      (p q : ℕ) (d e : Entry)
      → get_elem? c.registered p ≡ some d
      → get_elem? c.registered q ≡ some e
      → qualify d.ns d.name ≡ qualify e.ns e.name
      → p ≡ q

is_public-snoc :
    (c d : Catalog) (x : Entry) (p : ℕ)
    → d.registered ≡ c.registered ++ x ∷ []
    → is_public c (some p) ≡ true
    → is_public d (some p) ≡ true
unfolding is_public
is_public-snoc c d x p e h = elim (Option-cases (get_elem? c.registered p)) [
  | inl missing ↦ absurd (ground arith)
  | inr (y, found) ↦
      ground (arith, get_elem?-append c.registered x p found, ap (λ es. get_elem? es p) e)
]

EntryFits-snoc :
    (c d : Catalog) (x e : Entry)
    → d.registered ≡ c.registered ++ x ∷ []
    → EntryFits c e
    → EntryFits d e
EntryFits-snoc c d x e s (inl h) = inl h
EntryFits-snoc c d x e s (inr (p, to, h)) = inr (p, to, is_public-snoc c d x p s h)

-- Adding one entry whose qualified name is new keeps a catalog sound.
snoc-IsSound :
    (c d : Catalog) (x : Entry)
    → d.registered ≡ c.registered ++ x ∷ []
    → d.qualified ≡ qualify x.ns x.name ∷ c.qualified
    → contains c.qualified (qualify x.ns x.name) ≡ false
    → EntryFits c x
    → IsSound c
    → IsSound d
snoc-IsSound c d x s q fresh f v = record {
  fits = λ p e h. elim (split p e h) [
    | inl old ↦ EntryFits-snoc c d x e s (v.fits p e old)
    | inr (_, same) ↦ rw (← same) (EntryFits-snoc c d x x s f)
  ];
  names = λ p e h. elim (split p e h) [
    | inl old ↦ rw q (ground (arith, v.names p e old))
    | inr (_, same) ↦
        rw (q, ← same) (ground (arith, eq_iff (qualify x.ns x.name) (qualify x.ns x.name)))
  ];
  unique = λ p r a b h k same. elim (split p a h) [
    | inl oldp ↦ elim (split r b k) [
      | inl oldr ↦ v.unique p r a b oldp oldr same
      | inr (_, e) ↦ absurd (
          ground (
            arith,
            v.names p a oldp,
            ap (λ (y : Entry). qualify y.ns y.name) e,
            ap (contains c.qualified) same,
          ))
    ]
    | inr (pe, e) ↦ elim (split r b k) [
      | inl oldr ↦ absurd (
          ground (
            arith,
            v.names r b oldr,
            ap (λ (y : Entry). qualify y.ns y.name) e,
            ap (contains c.qualified) same,
          ))
      | inr (re, _) ↦ pe ∙ sym re
    ]
  ];
}
  where
    split :
        (p : ℕ) (e : Entry)
        → get_elem? d.registered p ≡ some e
        → (get_elem? c.registered p ≡ some e) ⊎ ((p ≡ length c.registered) × (x ≡ e))
    split p e h = get_elem?-snoc c.registered x p (rw s at h)

define-IsSound :
    (ns name : String) (scope : Option Scope) (message : String) (to : Option ℕ) (c d : Catalog)
    (code : Code)
    → ((to ≡ none) × (is_some scope ≡ true))
      ⊎ ((p : ℕ) × (to ≡ some p) × (is_public c (some p) ≡ true))
    → define ns name scope message to c ≡ ok (d, code)
    → IsSound c
    → IsSound d
      × (d.registered
          ≡ c.registered
            ++ record { ns = ns; name = name; scope = scope; message = message; public = to } ∷ [])
unfolding define
define-IsSound ns name scope message to c d code f e v =
    (snoc-IsSound c d _ added listed fresh f v, added)
  where
    fresh : contains c.qualified (qualify ns name) ≡ false
    fresh = ground arith

    added :
        d.registered
        ≡ c.registered
          ++ record { ns = ns; name = name; scope = scope; message = message; public = to } ∷ []
    added = ground arith

    listed : d.qualified ≡ qualify ns name ∷ c.qualified
    listed = ground arith

IsSound-generic_names :
    (c : Catalog) (names : List String) → IsSound c → IsSound (record c { generic_names = names })
unfolding is_public
IsSound-generic_names c names v = record { fits = v.fits; names = v.names; unique = v.unique }

define_public-IsSound :
    (ns name : String) (scope : Option Scope) (message : String) (c d : Catalog) (code : Code)
    → define_public ns name scope message c ≡ ok (d, code)
    → IsSound c
    → IsSound d
unfolding define_public
define_public-IsSound ns name scope message c d code e v =
    elim (Result-cases (define ns name scope message none c)) [
      | inl (p, x) ↦ absurd (ground arith)
      | inr ((c', k), x) ↦
          let (v', _) =
            define-IsSound ns name scope message none c c' k (inl (refl, ground arith)) x v in
          elim (Bool-cases (str_eq ns generic)) [
            | inl g ↦
                let same : d ≡ record c' { generic_names = name ∷ c'.generic_names } =
                  ground arith in
                rw same (IsSound-generic_names c' _ v')
            | inr o ↦ let same : d ≡ c' = ground arith in rw same v'
          ]
    ]

define_internal-IsSound :
    (ns name : String) (to : Code) (message : String) (c d : Catalog) (code : Code)
    → define_internal ns name to message c ≡ ok (d, code)
    → IsSound c
    → IsSound d
unfolding define_internal
define_internal-IsSound ns name none message c d code e v = cc
define_internal-IsSound ns name (some p) message c d code e v =
    (define-IsSound ns name none message (some p) c d code (inr (p, refl, ground arith))
      (ground arith) v).0

empty_catalog-IsSound : IsSound empty_catalog
unfolding empty_catalog
empty_catalog-IsSound = record {
  fits = λ p e h. cc;
  names = λ p e h. cc;
  unique = λ p q d e h k s. cc;
}

pub Built-IsSound : {c : Catalog} → Built c → IsSound c
Built-IsSound (nothing {c} e) = rw e empty_catalog-IsSound
Built-IsSound {c = d} (public {c} ns name scope message code b e) =
    define_public-IsSound ns name scope message c d code e (Built-IsSound b)
Built-IsSound {c = d} (internal {c} ns name to message code b e) =
    define_internal-IsSound ns name to message c d code e (Built-IsSound b)

abbrev Resolves : Catalog → ℕ → Type 0
Resolves c p =
    (is_public c (public_of c (some p)) ≡ true)
    × (public_of c (public_of c (some p)) ≡ public_of c (some p))
    × ((s : Scope) × (scope_of c (some p) ≡ some s))

of_public :
    (c : Catalog) (p : ℕ) (e : Entry)
    → get_elem? c.registered p ≡ some e
    → e.public ≡ none
    → is_some e.scope ≡ true
    → Resolves c p
unfolding is_public public_of scope_of
of_public c p e h n s = elim (Option-cases e.scope) [
  | inl missing ↦ absurd (ground arith)
  | inr (sc, known) ↦ (ground arith, ground arith, (sc, ground arith))
]

of_internal :
    (c : Catalog) (p q : ℕ) (e x : Entry)
    → get_elem? c.registered p ≡ some e
    → e.public ≡ some q
    → get_elem? c.registered q ≡ some x
    → x.public ≡ none
    → is_some x.scope ≡ true
    → Resolves c p
unfolding is_public public_of scope_of
of_internal c p q e x h to k n s = elim (Option-cases x.scope) [
  | inl missing ↦ absurd (ground arith)
  | inr (sc, known) ↦ (ground arith, ground arith, (sc, ground arith))
]

-- In a catalog that the Define functions built, each code's public code is a public code, with a
-- scope of its own, and it is its own public code.
pub public_of-is_public :
    (c : Catalog) (p : ℕ) (e : Entry)
    → Built c
    → get_elem? c.registered p ≡ some e
    → (is_public c (public_of c (some p)) ≡ true)
      × (public_of c (public_of c (some p)) ≡ public_of c (some p))
      × ((s : Scope) × (scope_of c (some p) ≡ some s))
unfolding is_public public_of scope_of
public_of-is_public c p e b h =
    let v = Built-IsSound b in
    elim (v.fits p e h) [
      | inl f ↦ of_public c p e h f.0 f.1
      | inr (q, to, mapped) ↦ elim (Option-cases (get_elem? c.registered q)) [
        | inl missing ↦ absurd (ground arith)
        | inr (x, found) ↦ elim (v.fits q x found) [
          | inl f ↦ of_internal c p q e x h to found f.0 f.1
          | inr (r, to', _) ↦ absurd (ground arith)
        ]
      ]
    ]

-- In a catalog that the Define functions built, two codes of one qualified name are the same code.
pub qualified_name-injective :
    (c : Catalog) (p q : ℕ) (d e : Entry)
    → Built c
    → get_elem? c.registered p ≡ some d
    → get_elem? c.registered q ≡ some e
    → qualified_name c (some p) ≡ qualified_name c (some q)
    → p ≡ q
unfolding qualified_name
qualified_name-injective c p q d e b h k same = (Built-IsSound b).unique p q d e h k (ground arith)

-- The public code of a code is its own public code, for a code of any origin.
pub public_of_idem :
    (c : Catalog) (k : Code) → Built c → public_of c (public_of c k) ≡ public_of c k
unfolding public_of
public_of_idem c none b = refl
public_of_idem c (some p) b = elim (Option-cases (get_elem? c.registered p)) [
  | inl missing ↦ ground arith
  | inr (e, found) ↦ (public_of-is_public c p e b found).1
]
