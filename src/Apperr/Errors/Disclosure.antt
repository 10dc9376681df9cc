-- ===== src/Apperr/Errors/Disclosure.antt =====
-- shared/apperr: what a client sees of an error, in error.go, context.go and response.go.
use anfra.Prelude.{String, ◌≡◌, refl, Bool, true, false, Option, some, List, [], ◌∷◌, ◌++◌, arith}
use anfra.Appstep.{Step}
use anfra.Apperr.Codes.{Catalog, Code, message_of, public_of, name_of}
use anfra.Apperr.Errors.{
  Details, Head, Error, leaf, formal, bare, code_eq, from, client_message, response, translate,
  new_error, with_step, disclosed_steps, describe_all,
}

module _ (c : Catalog) (ise : Code) where
  -- While errors are encapsulated, the response to an error whose public code is
  -- internal_server_error has that code's default message, whatever the error says; any other
  -- error's response has its own message.
  pub response-message :
      (e : Error) (request_id : String)
      → (code_eq (public_of c (from c ise true e).0.code) ise ≡ true
          → (response c ise true e request_id).message ≡ message_of c ise)
        × (code_eq (public_of c (from c ise true e).0.code) ise ≡ false
            → (response c ise true e request_id).message ≡ (from c ise true e).0.message)
  unfolding response
  response-message e r = ground arith

  -- While errors are encapsulated, an error that encapsulates another has one response, whatever
  -- the inner error is: none of it, its steps included, reaches the client.
  pub response-new_error :
      (e f : Error) (k : Code) (msg : String) (details : Option Details) (request_id : String)
      → response c ise true (new_error c ise true (some e) k msg details) request_id
        ≡ response c ise true (new_error c ise true (some f) k msg details) request_id
  unfolding response new_error
  response-new_error e f k msg details r = ground arith

describe_all-cons :
    (s : Step) (ss : List Step) → describe_all (s ∷ ss) ≡ describe_all (s ∷ []) ++ describe_all ss
unfolding describe_all
describe_all-cons s ss = ground arith

module _ (c : Catalog) (ise : Code) (encapsulating : Bool) where
  client_message-steps :
      (h : Head) (ss : List Step) (inner : Option Error)
      → client_message c ise encapsulating (record h { steps = ss }, inner)
        ≡ client_message c ise encapsulating (h, inner)
  unfolding client_message
  client_message-steps h ss inner = refl

  -- Recording a step puts the step's description, where it has one, before the response's context,
  -- and leaves every other field of the response as it was.
  pub response-with_step :
      (e : Error) (s : Step) (request_id : String)
      → response c ise encapsulating (with_step c ise encapsulating e s) request_id
        ≡ record (response c ise encapsulating e request_id) {
          context = describe_all (s ∷ []) ++ (response c ise encapsulating e request_id).context;
        }
  unfolding response with_step
  response-with_step (leaf h) s r = ground (arith, describe_all-cons s h.steps)
  response-with_step (formal h i) s r = ground (
    arith,
    describe_all-cons s h.steps,
    describe_all-cons s (h.steps ++ disclosed_steps c ise encapsulating i),
  )
  response-with_step (bare k) s r = ground (arith, describe_all-cons s [])
  response-with_step e s r = ground (arith, describe_all-cons s [])

  -- An error translated to a code whose public code is not internal_server_error has in its
  -- response that public code, the new details and the context of the error it re-codes; and that
  -- error's message, unless its public code is internal_server_error: then, while errors are
  -- encapsulated, the new code's default message.
  pub response-translate :
      (e : Error) (k : Code) (details : Option Details) (request_id : String)
      → code_eq (public_of c k) ise ≡ false
      → let t =
          response c ise encapsulating (translate c ise encapsulating e k details) request_id in
        (t.code ≡ name_of c (public_of c k))
        × (t.details ≡ details)
        × (t.context ≡ (response c ise encapsulating e request_id).context)
        × (code_eq (public_of c (from c ise encapsulating e).0.code) ise ≡ false
            → t.message ≡ (response c ise encapsulating e request_id).message)
        × (code_eq (public_of c (from c ise encapsulating e).0.code) ise ≡ true
            → encapsulating ≡ true
            → t.message ≡ message_of c k)
  unfolding response translate
  response-translate (leaf f) k details r h = ground arith
  response-translate (formal f i) k details r h = ground arith
  response-translate (bare b) k details r h = ground arith
  response-translate e k details r h = ground arith
