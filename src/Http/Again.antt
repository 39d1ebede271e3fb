-- ===== src/Http/Again.antt =====
-- The reward claims handler of internal/httpapi/reward_claims.go over the service of
-- internal/rewards/service.go: a request that is sent again.
use game_rewards_service.Base.{
  ℕ, suc, ◌≡◌, refl, sym, ap, Bool, true, false, none, some, List, [], arith, length, Result, ok,
  err, inl, inr, if◌then◌else◌, Bool-cases, subst, Option-cases, ◌∙◌,
}
use game_rewards_service.Base.Text.{Bytes, bytes, is_empty}
use game_rewards_service.Errors.{
  Err, is_context_error, is, as_invalid_input, sentinel, wrap, idempotency_key_reused, sentinel_eq,
}
use game_rewards_service.Postgres.{Driver}
use game_rewards_service.Rewards.Claim.{
  CreateClaimCommand, CreateClaimParams, CreateClaimResult, Library,
}
use game_rewards_service.Rewards.Validate.{prepare_create_claim}
use game_rewards_service.Rewards.Tables.{Db}
use game_rewards_service.Rewards.Transaction.{Turn}
use game_rewards_service.Rewards.Create.{Fresh, create_claim}
use game_rewards_service.Rewards.Create.Linked.{IsJson, IsLinked}
use game_rewards_service.Rewards.Create.Traffic.{IsTraffic, AreTraffic}
use game_rewards_service.Rewards.Create.Kept.{of_key}
use game_rewards_service.Rewards.Create.Retry.{is_same, create_claim_again}
use game_rewards_service.Rewards.Service.{
  claim_service, claim_service-state, claim_service-ok, claim_service-answers, claim_service-fails,
}
use game_rewards_service.Http.{
  Request, Response, silent, method_not_allowed, error_response, raw_json, HttpLibrary, Creator,
}
use game_rewards_service.Http.Handler.{command, handle, respond, write_create_claim_error}

-- A command that the handler makes is not a raw response.
abbrev is_raw : Response → Bool
is_raw (raw_json status body replayed) = true
is_raw silent = false
is_raw (method_not_allowed allowed) = false
is_raw (error_response status code text) = false

error-raw : (e : Err) → is_raw (write_create_claim_error e) ≡ false
unfolding write_create_claim_error
error-raw e = elim (Option-cases (as_invalid_input e)) [
  | inl other ↦ ground arith
  | inr (text, invalid) ↦ ground arith
]

failed-raw :
    {S : Type 0} (r : Request) (e : Err) (s : S) → is_raw (respond r (err e, s)).response ≡ false
unfolding respond
failed-raw r e s =
    let never = error-raw e in
    elim (Bool-cases (is_context_error r.ctx_error e)) [
      | inl gone ↦ rw gone
      | inr here ↦ rw (here, never)
    ]

-- A first answer that is raw JSON is the service's.
respond-raw :
    {S : Type 0} (r : Request) (a : Result Err CreateClaimResult × S) (status : ℕ) (body : Bytes)
    → (respond r a).response ≡ raw_json status body false
    → a.0 ≡ ok (record { status_code = status; response_body = body; replayed = false })
unfolding respond
respond-raw r (ok result, s) status body h = cc
respond-raw r (err e, s) status body h =
    let raw = subst (λ x. is_raw x ≡ false) h (failed-raw r e s) in absurd (ground arith)

module _ (hlib : HttpLibrary) where
  pub handle_accepted :
      {S : Type 0} (service : Creator S) (r : Request) (s : S) (cmd : CreateClaimCommand)
      → command hlib r ≡ ok cmd
      → handle hlib service r s ≡ respond r (service cmd s)
  unfolding handle
  handle_accepted service r s cmd h = rw (handle, h)

  respond-state :
      {S : Type 0} (r : Request) (a : Result Err CreateClaimResult × S) → (respond r a).state ≡ a.1
  unfolding respond
  respond-state r (ok result, s) = refl
  respond-state r (err e, s) = refl

  -- The answer to a repeated request.
  abbrev pub answer_again : CreateClaimParams → CreateClaimParams → ℕ → Bytes → Response
  answer_again p q status body =
      if is_same p q
      then raw_json status body true
      else error_response 409 (bytes "idempotency_key_reused")
          (bytes "Idempotency-Key was reused with a different request payload")

  respond-again :
      (r : Request) (a : Result Err CreateClaimResult × Db) (db : Db) (same : Bool) (status : ℕ)
      (body : Bytes)
      → r.ctx_error ≡ none
      → a ≡ (
        if same
            then ok (record { status_code = status; response_body = body; replayed = true })
            else err (wrap "create reward claim" (sentinel idempotency_key_reused)),
        db,
      )
      → ((respond r a).response ≡ (
          if same
          then raw_json status body true
          else error_response 409
              (bytes "idempotency_key_reused")
              (bytes "Idempotency-Key was reused with a different request payload")))
        × ((respond r a).state ≡ db)
  unfolding respond write_create_claim_error is_context_error is sentinel_eq
  respond-again r a db true status body waits h = rw h (refl, refl)
  respond-again r a db false status body waits h = rw (h, waits) (refl, refl)

  module _ (lib : Library) (d : Driver) (later : Fresh) (cmd : CreateClaimCommand)
      (q : CreateClaimParams) (is_prepared : prepare_create_claim lib cmd ≡ ok q) where
    service_again :
        (same : Bool) (status : ℕ) (body : Bytes) (db : Db)
        → create_claim lib d q 1 later [] db ≡ (
          if same
              then ok
                  (some (record { status_code = status; response_body = body; replayed = true }))
              else err (sentinel idempotency_key_reused),
          db,
        )
        → claim_service lib d later [] cmd db ≡ (
          if same
              then ok (record { status_code = status; response_body = body; replayed = true })
              else err (wrap "create reward claim" (sentinel idempotency_key_reused)),
          db,
        )
    service_again true status body db h =
        claim_service-answers lib d later [] cmd q db is_prepared _ db h
    service_again false status body db h =
        claim_service-fails lib d later [] cmd q db is_prepared _ db h

    second_answer :
        (p : CreateClaimParams) (r : Request) (status : ℕ) (body : Bytes) (db : Db)
        → command hlib r ≡ ok cmd
        → r.ctx_error ≡ none
        → create_claim lib d q 1 later [] db ≡ (
          if is_same p q
              then ok
                  (some (record { status_code = status; response_body = body; replayed = true }))
              else err (sentinel idempotency_key_reused),
          db,
        )
        → ((handle hlib (claim_service lib d later []) r db).response
            ≡ answer_again p q status body)
          × ((handle hlib (claim_service lib d later []) r db).state ≡ db)
    second_answer p r status body db accepted waits h =
        rw (handle_accepted (claim_service lib d later []) r db cmd accepted) (
          respond-again r (claim_service lib d later [] cmd db) db (is_same p q) status body waits
            (service_again (is_same p q) status body db h))

  -- On linked tables, a request that the handler answers for the first time with a raw response is
  -- answered with the same status and body, marked as replayed, when it is sent again, whatever
  -- requests and clean-ups that spare its key run beside it and between; a request with its key for
  -- another reward is answered 409 with the code idempotency_key_reused. The later request leaves the
  -- tables as they are, is alone, and its client waits; the encoder gives JSON, and the new claim's
  -- identifier is not empty.
  pub handle_again :
      (lib : Library) (d : Driver) (json : IsJson lib) (fresh later : Fresh) (turns : List Turn)
      (db : Db) (first second : Request) (cmd cmd' : CreateClaimCommand) (p q : CreateClaimParams)
      (status : ℕ) (body : Bytes) (f : Db → Db)
      → IsLinked lib db
      → is_empty fresh.claim_id ≡ false
      → AreTraffic lib d (of_key p.key_hash) turns
      → command hlib first ≡ ok cmd
      → prepare_create_claim lib cmd ≡ ok p
      → (handle hlib (claim_service lib d fresh turns) first db).response
        ≡ raw_json status body false
      → IsTraffic lib d (of_key p.key_hash) f
      → command hlib second ≡ ok cmd'
      → second.ctx_error ≡ none
      → prepare_create_claim lib cmd' ≡ ok q
      → q.key_hash ≡ p.key_hash
      → let after = f (handle hlib (claim_service lib d fresh turns) first db).state in
        ((handle hlib (claim_service lib d later []) second after).response
          ≡ answer_again p q status body)
        × ((handle hlib (claim_service lib d later []) second after).state ≡ after)
  handle_again lib d json fresh later turns db first second cmd cmd' p q status body f v named
        beside c1 p1 answered t c2 waits p2 key =
      let service = claim_service lib d fresh turns in
      let e = handle_accepted service first db cmd c1 in
      let raw =
        respond-raw first (service cmd db) status body (sym (ap (λ x. x.response) e) ∙ answered) in
      let claimed = claim_service-ok lib d fresh turns cmd p db p1 _ raw in
      let left =
        ap (λ x. x.state) e
        ∙ respond-state first (service cmd db)
        ∙ claim_service-state lib d fresh turns cmd p db p1 in
      subst
        (λ x.
          ((handle hlib (claim_service lib d later []) second (f x)).response
            ≡ answer_again p q status body)
          × ((handle hlib (claim_service lib d later []) second (f x)).state ≡ f x))
        (sym left)
        (second_answer lib d later cmd' q p2 p second status body _ c2 waits (
          create_claim_again lib d json p q fresh later (suc (length turns)) 0 turns db _ f v named
            beside claimed refl t key))
