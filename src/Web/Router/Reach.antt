-- ===== src/Web/Router/Reach.antt =====
-- The reward claims service behind the whole API server: which requests reach it, and which status
-- the client sees.
use game_rewards_service.Base.{
  ℕ, ◌≡◌, ◌⊎◌, inl, inr, refl, ap, ◌∙◌, Bool, true, false, Option, none, some, List, [], ◌∷◌, ◌++◌,
  arith, Bool-cases, Result, ok, err,
}
use game_rewards_service.Base.Text.{bytes, str_eq, eq_of_str_eq}
use game_rewards_service.Errors.{Err}
use game_rewards_service.Rewards.Claim.{CreateClaimCommand, CreateClaimResult}
use game_rewards_service.Http.{
  Response, silent, method_not_allowed, error_response, raw_json, HttpLibrary, Creator,
}
use game_rewards_service.Http.Handler.{Handled, handle, respond}
use game_rewards_service.Http.Outcomes.{IsAccepted, is_rejection, handle-cases}
use game_rewards_service.Web.{
  Call, set_header, Reply, WebRequest, Handler, record_calls, new_recorder,
}
use game_rewards_service.Web.Responses.{WebLibrary, response_calls}
use game_rewards_service.Web.Recorded.{wire_status}
use game_rewards_service.Web.Health.{Check, replied}
use game_rewards_service.Web.RequestId.{request_id_for}
use game_rewards_service.Web.Middleware.{
  Served, with_middleware, request_logger, secure_headers, without_response-made,
}
use game_rewards_service.Web.Middleware.Sound.{identified}
use game_rewards_service.Web.Router.{ClaimParts, claim_request, claims_handler, route, new_router}

abbrev pub status_of : Response → Option ℕ
status_of silent = none
status_of (method_not_allowed allowed) = some 405
status_of (error_response status code message) = some status
status_of (raw_json status body replayed) = some status

abbrev pub security : List Call
security =
    set_header (bytes "X-Content-Type-Options") (bytes "nosniff")
    ∷ set_header (bytes "Referrer-Policy") (bytes "no-referrer")
    ∷ []

-- Around a reply without a panic the middleware passes on what the recorder makes of it.
with_middleware-plain :
    {S : Type 0} (lib : WebLibrary) (random : List ℕ) (observers : List Bool) (handler : Handler S)
    (calls : List Call) (r : WebRequest) (s s' : S)
    → handler (identified random r) s ≡ (replied calls, s')
    → ((with_middleware lib random observers handler r s).calls
        ≡ set_header (bytes "X-Request-ID") (request_id_for random r.header_request_id)
          ∷ (record_calls (security ++ calls) new_recorder).made)
      × ((with_middleware lib random observers handler r s).state ≡ s')
unfolding with_middleware request_logger secure_headers
with_middleware-plain lib random observers handler calls r s s' h =
    let id = request_id_for random r.header_request_id in
    let rec = record_calls (security ++ calls) new_recorder in
    rw h (
      ap (λ cs. set_header (bytes "X-Request-ID") id ∷ cs) (without_response-made r.ctx_error rec),
      refl,
    )

-- What reaches the client of a response, by way of the middleware.
abbrev pub sent : WebLibrary → List ℕ → WebRequest → Response → List Call
sent lib random r x =
    set_header (bytes "X-Request-ID") (request_id_for random r.header_request_id)
    ∷ (record_calls (security ++ response_calls lib x) new_recorder).made

response-wire :
    (lib : WebLibrary) (x : Response)
    → wire_status (record_calls (security ++ response_calls lib x) new_recorder).made ≡ status_of x
unfolding wire_status record_calls response_calls
response-wire lib silent = refl
response-wire lib (method_not_allowed allowed) = refl
response-wire lib (error_response status code message) = refl
response-wire lib (raw_json status body true) = refl
response-wire lib (raw_json status body false) = refl

-- The case that is not the reward claims path leaves the state as it is.
route-elsewhere :
    {S : Type 0} (lib : WebLibrary) (metrics : Option (WebRequest → Reply)) (checks : List Check)
    (claims : Handler S) (r : WebRequest) (s : S)
    → str_eq r.path (bytes "/v1/reward-claims") ≡ false
    → (route lib metrics checks claims r s).1 ≡ s
unfolding route
route-elsewhere lib metrics checks claims r s h = ground arith

route-claims :
    {S : Type 0} (lib : WebLibrary) (metrics : Option (WebRequest → Reply)) (checks : List Check)
    (claims : Handler S) (r : WebRequest) (s : S)
    → str_eq r.path (bytes "/v1/reward-claims") ≡ true
    → route lib metrics checks claims r s ≡ claims r s
unfolding route str_eq
route-claims lib metrics checks claims r s h =
    rw (route, eq_of_str_eq r.path (bytes "/v1/reward-claims") h)

with_middleware-state :
    {S : Type 0} (lib : WebLibrary) (random : List ℕ) (observers : List Bool) (handler : Handler S)
    (r : WebRequest) (s : S)
    → (with_middleware lib random observers handler r s).state ≡ (handler (identified random r) s).1
unfolding with_middleware request_logger secure_headers
with_middleware-state lib random observers handler r s = refl

module _ {S : Type 0} (lib : WebLibrary) (hlib : HttpLibrary) (service : Creator S)
    (parts : ClaimParts) (metrics : Option (WebRequest → Reply)) (checks : List Check)
    (random : List ℕ) (observer : Bool) (r : WebRequest) (s : S) where
  abbrev served : Served S
  served = new_router lib random observer metrics checks (claims_handler lib hlib service parts) r s

  claims_handler-lem :
      (h : Handled S)
      → handle hlib service (claim_request parts r) s ≡ h
      → claims_handler lib hlib service parts (identified random r) s
        ≡ (replied (response_calls lib h.response), h.state)
  unfolding claims_handler
  claims_handler-lem h handled = rw handled

  pub served-sent :
      (h : Handled S)
      → str_eq r.path (bytes "/v1/reward-claims") ≡ true
      → handle hlib service (claim_request parts r) s ≡ h
      → (served.state ≡ h.state) × (served.calls ≡ sent lib random r h.response)
  unfolding new_router
  served-sent h claimed handled =
      let (calls, state) =
        with_middleware-plain lib random (observer ∷ [])
          (route lib metrics checks (claims_handler lib hlib service parts))
          (response_calls lib h.response) r s h.state
          (route-claims lib metrics checks (claims_handler lib hlib service parts)
              (identified random r) s claimed
            ∙ claims_handler-lem h handled) in
      (state, calls)

  served-claims :
      (h : Handled S)
      → str_eq r.path (bytes "/v1/reward-claims") ≡ true
      → handle hlib service (claim_request parts r) s ≡ h
      → (served.state ≡ h.state) × (wire_status served.calls ≡ status_of h.response)
  unfolding wire_status
  served-claims h claimed handled =
      let (state, calls) = served-sent h claimed handled in
      (state, ap wire_status calls ∙ response-wire lib h.response)

  served-answer :
      (answer : Result Err CreateClaimResult × S)
      → str_eq r.path (bytes "/v1/reward-claims") ≡ true
      → handle hlib service (claim_request parts r) s ≡ respond (claim_request parts r) answer
      → (served.state ≡ answer.1)
        × (wire_status served.calls ≡ status_of (respond (claim_request parts r) answer).response)
  unfolding respond
  served-answer (ok result, s') claimed handled = served-claims _ claimed handled
  served-answer (err e, s') claimed handled = served-claims _ claimed handled

  -- On the reward claims path either the request passes the handler's checks, the state is what the
  -- service leaves on its command, and the status sent is that of the service's answer; or the state
  -- is unchanged and the status sent is that of a rejection. On any other path the state is unchanged.
  pub new_router-reaches :
      ((str_eq r.path (bytes "/v1/reward-claims") ≡ true)
        × (cmd : CreateClaimCommand) × IsAccepted hlib (claim_request parts r) cmd
        × (served.state ≡ (service cmd s).1)
        × (wire_status served.calls
            ≡ status_of (respond (claim_request parts r) (service cmd s)).response))
      ⊎ ((str_eq r.path (bytes "/v1/reward-claims") ≡ true)
          × (x : Response) × (is_rejection x ≡ true)
          × (served.state ≡ s)
          × (wire_status served.calls ≡ status_of x))
      ⊎ ((str_eq r.path (bytes "/v1/reward-claims") ≡ false) × (served.state ≡ s))
  unfolding new_router
  new_router-reaches = elim (Bool-cases (str_eq r.path (bytes "/v1/reward-claims"))) [
    | inl claimed ↦ elim (handle-cases hlib service (claim_request parts r) s) [
      | inl (cmd, accepted, handled) ↦
          let (state, status) = served-answer (service cmd s) claimed handled in
          inl (claimed, cmd, accepted, state, status)
      | inr (x, rejected, handled) ↦
          let (state, status) = served-claims _ claimed handled in
          inr (inl (claimed, x, rejected, state, status))
    ]
    | inr other ↦ inr (
        inr (
          other,
          with_middleware-state lib random (observer ∷ [])
                (route lib metrics checks (claims_handler lib hlib service parts)) r s
              ∙ route-elsewhere lib metrics checks (claims_handler lib hlib service parts)
                  (identified random r) s other,
        ))
  ]
