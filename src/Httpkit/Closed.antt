-- ===== src/Httpkit/Closed.antt =====
-- shared/httpkit/status.go: the codes that a server answers with.
use anfra.Prelude.{
  String, ◌≡◌, refl, ap, ◌∙◌, ◌⊎◌, inl, inr, Bool, true, false, none, some, ◌++◌, arith, eq_iff,
  Bool-cases, contains,
}
use anfra.Apperr.Codes.{Catalog, Code, generic, public_of, namespace_of, message_of, name_of, Built}
use anfra.Apperr.Errors.{
  Head, Error, leaf, formal, bare, Response, code_eq, from, response, describe_all, to_error,
}
use anfra.Apperr.Codes.Registry.{public_of_idem}
use anfra.Httpkit.{
  ServedCodes, GenericCodes, is_served, served, status_of, stand_in, render, has_code,
}

-- What the definitions of apperr give: internal_server_error is public and generic.
pub record IsGeneric (c : Catalog) (g : GenericCodes) : Type 0 where
  pub built : Built c
  pub own_public : public_of c g.internal_server_error ≡ g.internal_server_error
  pub own_namespace : namespace_of c g.internal_server_error ≡ generic

code_eq_refl : (k : Code) → code_eq k k ≡ true
code_eq_refl none = refl
code_eq_refl (some p) = ground arith

code_eq→eq : (j k : Code) → code_eq j k ≡ true → j ≡ k
code_eq→eq none none h = refl
code_eq→eq none (some p) h = cc
code_eq→eq (some p) none h = cc
code_eq→eq (some p) (some q) h = ground arith

-- What a server serves: generic codes, its namespaces', and the ones it imports.
abbrev pub Serves : Catalog → ServedCodes → Code → Type 0
Serves c cs k =
    (namespace_of c k ≡ generic)
    ⊎ (contains cs.namespaces (namespace_of c k) ≡ true)
    ⊎ (has_code cs.imported k ≡ true)

module _ (c : Catalog) (g : GenericCodes) (cs : ServedCodes) (v : IsGeneric c g) where
  served_ise : served c g cs g.internal_server_error ≡ g.internal_server_error
  unfolding served
  served_ise = ground (arith, v)

  status_of_ise : status_of c g cs g.internal_server_error ≡ 500
  unfolding status_of
  status_of_ise = rw (served_ise, status_of) (rw (code_eq_refl g.internal_server_error) refl)

  differs :
      (k : Code)
      → is_served c g cs (public_of c k) ≡ false
      → code_eq (served c g cs (public_of c k)) (public_of c k) ≡ false
  unfolding served
  differs k h = elim (Bool-cases (code_eq g.internal_server_error (public_of c k))) [
    | inl same ↦
        let e = code_eq→eq g.internal_server_error (public_of c k) same in
        absurd (
          ground (
            arith,
            v,
            public_of_idem c k v.built,
            ap (namespace_of c) e,
            eq_iff (namespace_of c g.internal_server_error) generic,
          ))
    | inr other ↦ rw (public_of_idem c k v.built) (rw h other)
  ]

  agrees :
      (k : Code)
      → is_served c g cs (public_of c k) ≡ true
      → code_eq (served c g cs (public_of c k)) (public_of c k) ≡ true
  unfolding served
  agrees k h = rw (public_of_idem c k v.built) (rw h (code_eq_refl (public_of c k)))

  -- In a built catalog whose internal_server_error is generic and its own public code, an error
  -- whose public code the server does not serve is answered as internal_server_error,
  -- with status 500, that code's default message, no details, and as context the error's own steps
  -- alone, while errors are encapsulated.
  pub render-unserved :
      (e : Error) (request_id : String)
      → is_served c g cs (public_of c (from c g.internal_server_error true e).0.code) ≡ false
      → let r = render c g cs true e request_id in
        (r.code ≡ name_of c g.internal_server_error)
        × (r.status ≡ 500)
        × (r.message ≡ message_of c g.internal_server_error)
        × (r.details ≡ none)
        × (r.context ≡ describe_all (from c g.internal_server_error true e).0.steps)
  unfolding render stand_in
  render-unserved e r h = ground (
    arith,
    v,
    differs (from c g.internal_server_error true e).0.code h,
    status_of_ise,
    code_eq_refl g.internal_server_error,
  )

  stand_in-served :
      (enc : Bool) (e : Error)
      → is_served c g cs (public_of c (from c g.internal_server_error enc e).0.code) ≡ true
      → stand_in c g cs enc e ≡ to_error (from c g.internal_server_error enc e)
  unfolding stand_in
  stand_in-served enc e h = rw (agrees _ h) refl

  abbrev answer : Bool → String → Error → Response
  answer enc r e = record (response c g.internal_server_error enc e r) {
    status = status_of c g cs (from c g.internal_server_error enc e).0.code;
  }

  answer-to_error :
      (enc : Bool) (r : String) (e : Error)
      → answer enc r (to_error (from c g.internal_server_error enc e)) ≡ answer enc r e
  unfolding response
  answer-to_error enc r (leaf f) = refl
  answer-to_error enc r (formal f i) = refl
  answer-to_error enc r (bare k) = refl
  answer-to_error enc r e = refl

  -- In a built catalog whose internal_server_error is generic and its own public code, an error
  -- whose public code the server serves is answered with its own response, and the status of its
  -- code.
  pub render-served :
      (encapsulating : Bool) (e : Error) (request_id : String)
      → is_served c g cs (public_of c (from c g.internal_server_error encapsulating e).0.code)
        ≡ true
      → render c g cs encapsulating e request_id
        ≡ record (response c g.internal_server_error encapsulating e request_id) {
          status = status_of c g cs (from c g.internal_server_error encapsulating e).0.code;
        }
  unfolding render
  render-served enc e r h = ap (answer enc r) (stand_in-served enc e h) ∙ answer-to_error enc r e

  is_served-Serves : (k : Code) → is_served c g cs k ≡ true → Serves c cs k
  is_served-Serves k h = ground (arith, h, eq_iff (namespace_of c k) generic)

  is_served-unserved : (k : Code) → is_served c g cs k ≡ false → ¬ Serves c cs k
  is_served-unserved k h = ground (arith, h, eq_iff (namespace_of c k) generic)

  -- In a built catalog whose internal_server_error is generic and its own public code, and while errors
  -- are encapsulated, an error whose public code is generic, of the server's namespaces or imported is
  -- answered with its own response, and the status of its code. Any other is answered as
  -- internal_server_error, with status 500, that code's default message, no details, and as context
  -- the error's own steps alone.
  pub render-closed :
      (e : Error) (request_id : String)
      → let f = (from c g.internal_server_error true e).0 in
        let r = render c g cs true e request_id in
        (Serves c cs (public_of c f.code)
          × (r ≡ record (response c g.internal_server_error true e request_id) {
            status = status_of c g cs f.code;
          }))
        ⊎ (¬ Serves c cs (public_of c f.code)
            × (r.code ≡ name_of c g.internal_server_error)
            × (r.status ≡ 500)
            × (r.message ≡ message_of c g.internal_server_error)
            × (r.details ≡ none)
            × (r.context ≡ describe_all f.steps))
  render-closed e request_id =
      let k = public_of c (from c g.internal_server_error true e).0.code in
      let answered = render-unserved e request_id in
      elim (Bool-cases (is_served c g cs k)) [
        | inl h ↦ inl (is_served-Serves k h, render-served true e request_id h)
        | inr h ↦
            let (name, status, message, details, context) = answered h in
            inr (is_served-unserved k h, name, status, message, details, context)
      ]

  -- In a built catalog whose internal_server_error is generic and its own public code, and with
  -- encapsulation disabled, the context of an unserved error that has no
  -- inner error names the error's own steps twice:
  -- once as the stand-in's, and once more as those of the inner error that it discloses.
  pub render-unserved_disclosing :
      (h : Head) (request_id : String)
      → is_served c g cs (public_of c h.code) ≡ false
      → (render c g cs false (leaf h) request_id).context ≡ describe_all (h.steps ++ h.steps)
  unfolding render stand_in
  render-unserved_disclosing h r n = ground (arith, differs h.code n)
