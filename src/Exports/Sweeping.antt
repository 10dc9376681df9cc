-- ===== src/Exports/Sweeping.antt =====
-- internal/exports/exports.go: what a sweep keeps.
use anfra.Prelude.{
  ℕ, ◌+◌, String, ◌≡◌, refl, sym, ap, ◌∙◌, inl, inr, Bool, true, false, not, ◌||◌, Option, none,
  some, List, [], ◌∷◌, arith, str_eq, eq_iff, ltb, if◌then◌else◌, Bool-cases, Option-cases, is_some,
  All, lookup,
}
use mathlib.Core.Path.{subst}
use anfra.Exports.{
  Link, Files, delete, remove, is_expired, expired, remove_all, kept, sweep, serve, open_file,
  finish,
}

-- Each link's file is named by its token.
abbrev pub IsPlaced : Files → Type 0
IsPlaced fs = (token : String) (l : Link) → lookup token fs.links ≡ some l → l.path ≡ token

lookup-delete :
    {A : Type 0} (k token : String) (m : List (String × A))
    → str_eq k token ≡ false
    → lookup token (delete k m) ≡ lookup token m
lookup-delete k token [] other = refl
lookup-delete k token ((j, a) ∷ m) other = elim (Bool-cases (str_eq j k)) [
  | inl same ↦
      let not_token : str_eq j token ≡ false =
        subst (λ i. str_eq i token ≡ false) (sym ((eq_iff j k).0 same)) other in
      rw same (rw not_token (lookup-delete k token m other))
  | inr differs ↦ elim (Bool-cases (str_eq j token)) [
    | inl here ↦ rw differs (rw here refl)
    | inr there ↦ rw differs (rw there (lookup-delete k token m other))
  ]
]

lookup-deleted : {A : Type 0} (k : String) (m : List (String × A)) → lookup k (delete k m) ≡ none
lookup-deleted k [] = refl
lookup-deleted k ((j, a) ∷ m) = elim (Bool-cases (str_eq j k)) [
  | inl same ↦ rw same (lookup-deleted k m)
  | inr differs ↦ rw differs (rw differs (lookup-deleted k m))
]

-- Two folders' files that are the same for a token.
abbrev Alike : String → Files → Files → Type 0
Alike token fs fs' =
    (lookup token fs'.links ≡ lookup token fs.links)
    × (lookup token fs'.folder ≡ lookup token fs.folder)

remove-Alike :
    (k token : String) (fs : Files)
    → IsPlaced fs
    → str_eq k token ≡ false
    → Alike token fs (remove k fs) × IsPlaced (remove k fs)
unfolding remove
remove-Alike k token fs placed other = elim (Option-cases (lookup k fs.links)) [
  | inl none_ ↦
      let unchanged : remove k fs ≡ fs = rw (none_, remove) refl in
      subst (λ r. Alike token fs r × IsPlaced r) (sym unchanged) ((refl, refl), placed)
  | inr (l, has) ↦
      let at = placed k l has in
      let gone : Files = record fs {
        links = delete k fs.links;
        folder = delete l.path fs.folder;
      } in
      let removed : remove k fs ≡ gone = rw (has, remove) refl in
      subst (λ r. Alike token fs r × IsPlaced r) (sym removed)
        (
          (
            lookup-delete k token fs.links other,
            ap (λ p. lookup token (delete p fs.folder)) at ∙ lookup-delete k token fs.folder other,
          ),
          λ t x held. elim (Bool-cases (str_eq k t)) [
            | inl same ↦ absurd (
                let e =
                  subst (λ j. lookup j (delete k fs.links) ≡ none) ((eq_iff k t).0 same)
                    (lookup-deleted k fs.links) in
                cc)
            | inr differs ↦ placed t x (sym (lookup-delete k t fs.links differs) ∙ held)
          ],
        )
]

remove_all-Alike :
    (ks : List String) (token : String) (fs : Files)
    → IsPlaced fs
    → All (λ k. str_eq k token ≡ false) ks
    → Alike token fs (remove_all ks fs)
unfolding remove_all
remove_all-Alike [] token fs placed others = (refl, refl)
remove_all-Alike (k ∷ ks) token fs placed (other, others) =
    let (same, placed') = remove-Alike k token fs placed other in
    let later = remove_all-Alike ks token (remove k fs) placed' others in
    (later.0 ∙ same.0, later.1 ∙ same.1)

-- A token whose link lives is not among those whose links have expired.
expired-others :
    (now : ℕ) (links rest : List (String × Link)) (token : String)
    → is_expired now (lookup token links) ≡ false
    → All (λ k. str_eq k token ≡ false) (expired now links rest)
expired-others now links [] token live = tt
expired-others now links ((k, l) ∷ rest) token live =
    elim (Bool-cases (is_expired now (lookup k links))) [
      | inr keeps ↦ rw keeps (expired-others now links rest token live)
      | inl over ↦ rw over (
        elim (Bool-cases (str_eq k token)) [
          | inr other ↦ other
          | inl same ↦ absurd (
              let e =
                subst (λ j. is_expired now (lookup j links) ≡ true) ((eq_iff k token).0 same)
                  over in
              cc)
        ],
        expired-others now links rest token live,
      )
    ]

lookup-kept :
    (fs : Files) (now : ℕ) (folder : List (String × ℕ)) (token : String)
    → is_some (lookup token fs.links) ≡ true
    → lookup token (kept fs now folder) ≡ lookup token folder
lookup-kept fs now [] token ours = refl
lookup-kept fs now ((name, written) ∷ rest) token ours =
    elim (Bool-cases (is_some (lookup name fs.links) || not (ltb (written + fs.ttl) now))) [
      | inl stays ↦ elim (Bool-cases (str_eq name token)) [
        | inl here ↦ rw stays (rw here refl)
        | inr there ↦ rw stays (rw there (lookup-kept fs now rest token ours))
      ]
      | inr goes ↦ elim (Bool-cases (str_eq name token)) [
        | inl here ↦ absurd (
            let e =
              subst (λ j. is_some (lookup j fs.links) ≡ true) (sym ((eq_iff name token).0 here))
                ours in
            ground (arith, goes, e))
        | inr there ↦ rw goes (rw there (lookup-kept fs now rest token ours))
      ]
    ]

-- A sweep, at any time: a link that has not expired by then serves, at every time, what it served
-- before, its file not removed however long ago it was written. Each link's file is named by its token.
pub sweep-live :
    (now later : ℕ) (token : String) (l : Link) (fs : Files)
    → IsPlaced fs
    → lookup token fs.links ≡ some l
    → ltb l.expires_at now ≡ false
    → open_file later token (sweep now fs) ≡ open_file later token fs
unfolding sweep open_file
sweep-live now later token l fs placed has live =
    let over = expired now fs.links fs.links in
    let left = remove_all over fs in
    let alive : is_expired now (lookup token fs.links) ≡ false = ap (is_expired now) has ∙ live in
    let (same, there) =
      remove_all-Alike over token fs placed (expired-others now fs.links fs.links token alive) in
    let held = same ∙ has in
    let kept_there = lookup-kept left now left.folder token (ap is_some held) ∙ there in
    let at = placed token l has in
    served (lookup token left.links) (lookup token fs.links) (kept left now left.folder) fs.folder
      held has
      (ap (λ p. lookup p (kept left now left.folder)) at
        ∙ kept_there
        ∙ ap (λ p. lookup p fs.folder) (sym at))
  where
    served :
        (x y : Option Link) (f g : List (String × ℕ))
        → x ≡ some l
        → y ≡ some l
        → lookup l.path f ≡ lookup l.path g
        → serve later f x ≡ serve later g y
    served x y f g ex ey e =
        ap (serve later f) ex
        ∙ ap
            (λ o.
              if ltb l.expires_at later
              then none
              else if is_some o
              then some (l.filename, l.content_type)
              else none)
            e
        ∙ sym (ap (serve later g) ey)

-- An export that is finished keeps each link's file named by its token.
finish-IsPlaced :
    (closed : Bool) (now written : ℕ) (token filename content_type : String) (fs : Files)
    → IsPlaced fs
    → IsPlaced (finish closed now written token filename content_type fs)
unfolding finish
finish-IsPlaced false now written token filename content_type fs placed t l has = placed t l has
finish-IsPlaced true now written token filename content_type fs placed t l has =
    elim (Bool-cases (str_eq token t)) [
      | inl same ↦
          let made : Link = record {
            path = token;
            filename = filename;
            content_type = content_type;
            expires_at = now + fs.ttl;
          } in
          let e : ◌≡◌ {A = Option Link} (some made) (some l) = sym (rw same refl) ∙ has in
          let its : made ≡ l = cc in ap (λ (x : Link). x.path) (sym its) ∙ (eq_iff token t).0 same
      | inr other ↦
          let e : lookup t (
                (
                  token,
                  record {
                    path = token;
                    filename = filename;
                    content_type = content_type;
                    expires_at = now + fs.ttl;
                  },
                )
                ∷ delete token fs.links)
              ≡ lookup t fs.links =
            rw other (lookup-delete token t fs.links other) in
          placed t l (sym e ∙ has)
    ]
