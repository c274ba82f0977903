-- ===== src/Sdk/Server/Replies.antt =====
-- Every request is answered.
use nusim.Base.{
  ℕ, ◌≡◌, refl, ap, inl, inr, Bool, true, false, Option, none, some, List, [], ◌∷◌, ◌++◌, arith,
  if◌then◌else◌, Bool-cases, Option-cases, All, ℤ,
}
use nusim.Double.{Double}
use nusim.Message.{Message}
use nusim.Sdk.Json.{Json}
use nusim.Sdk.Dispatch.{RpcOutcome, dispatch_rpc, parse_or_empty}
use nusim.Sdk.Dispatch.Outcomes.{IsTyped, IsTypedBody, dispatch_rpc-returns}
use nusim.Sdk.Server.{
  Request, Effect, warned_api, emitted, written, action_message, emit_all, response_to, answer,
  handle_sample, handle_rpc_request,
}

-- The uuids of the responses among the effects.
unfoldable pub replied : {D : Type 0} → List (Effect D) → List (List ℕ)
replied [] = []
replied (warned_api i s ∷ es) = replied es
replied (emitted m ∷ es) = replied es
replied (written r ∷ es) = r.uuid ∷ replied es

-- The uuids of the requests with data.
unfoldable pub asked : List Request → List (List ℕ)
asked [] = []
asked (r ∷ rs) = if r.valid_data then r.uuid ∷ asked rs else asked rs

pub replied-append :
    {D : Type 0} (es fs : List (Effect D)) → replied (es ++ fs) ≡ replied es ++ replied fs
unfolding replied
replied-append [] fs = refl
replied-append (warned_api i s ∷ es) fs = replied-append es fs
replied-append (emitted m ∷ es) fs = replied-append es fs
replied-append (written r ∷ es) fs = ap (◌∷◌ r.uuid) (replied-append es fs)

module _ {D J : Type 0} ⦃f : Double D⦄ (json : Json D J) where
  replied-answer : (req : Request) (o : RpcOutcome D) → replied (answer json req o) ≡ req.uuid ∷ []
  unfolding answer replied response_to
  replied-answer req o = go o.unknown_api_id (action_message o.action)
    where
      go :
          (b : Bool) (m : Option (Message D))
          → replied (
              (if b then warned_api o.api_id o.status ∷ [] else [])
              ++ (emit_all m ++ (written (response_to json req o) ∷ [])))
            ≡ req.uuid ∷ []
      go true none = refl
      go true (some m) = refl
      go false none = refl
      go false (some m) = refl

  -- A request whose texts hold values of the types that they are read as.
  abbrev pub IsTypedRequest : Request → Type 0
  IsTypedRequest r =
      IsTyped json json.get_int64 (parse_or_empty json r.header) "api_id"
      × IsTypedBody json (parse_or_empty json r.body)

  -- The uuid of a request with data.
  abbrev own_uuid : Request → List (List ℕ)
  own_uuid r = if r.valid_data then r.uuid ∷ [] else []

  handle_sample-replied :
      (st : ℤ) (r : Request)
      → IsTypedRequest r
      → (es : List (Effect D)) × (handle_sample json st r ≡ some es) × (replied es ≡ own_uuid r)
  unfolding handle_sample replied
  handle_sample-replied st r h =
      elim (Option-cases (dispatch_rpc json r.header r.body r.current_mode st)) [
        | inl e ↦ absurd (dispatch_rpc-returns json r.header r.body r.current_mode st h.0 h.1 e)
        | inr (o, e) ↦ elim (Bool-cases r.valid_data) [
          | inl carries ↦ (answer json r o, ground arith, ground (arith, replied-answer r o))
          | inr bare ↦ ([], ground arith, ground arith)
        ]
      ]

  -- A callback on requests whose keys hold values of the types that they are read as does not
  -- throw, and answers each that carries data exactly once, under its own uuid and in the order of
  -- arrival.
  pub handle_rpc_request-replied :
      (st : ℤ) (reqs : List Request)
      → All IsTypedRequest reqs
      → ((handle_rpc_request json st reqs).1 ≡ true)
        × (replied (handle_rpc_request json st reqs).0 ≡ asked reqs)
  unfolding handle_rpc_request replied asked
  handle_rpc_request-replied st [] h = (refl, refl)
  handle_rpc_request-replied st (r ∷ rs) h =
      let (done, q) = handle_rpc_request-replied st rs h.1 in
      let (es, p, own) = handle_sample-replied st r h.0 in
      ground (arith, p, own, done, q, replied-append es (handle_rpc_request json st rs).0)
