-- ===== src/Http/Handler.antt =====
-- rewardClaimsHandler of internal/httpapi/reward_claims.go. The log keeps the level and class of each
-- line; the observer keeps what it is told.
use game_rewards_service.Base.{
  Bool, true, false, ◌||◌, Option, none, some, List, [], ◌∷◌, if◌then◌else◌, Result, ok, err, bind,
}
use game_rewards_service.Base.Text.{Bytes, bytes, str_eq}
use game_rewards_service.Errors.{
  Err, is, as_invalid_input, is_context_error, claims_unavailable, claims_internal,
  idempotency_key_reused,
}
use game_rewards_service.Rewards.Claim.{CreateClaimCommand, CreateClaimResult}
use game_rewards_service.Http.{
  Request, Response, silent, method_not_allowed, error_response, raw_json, HttpLibrary, Creator,
}
use game_rewards_service.Http.Decode.{
  KeyError, missing_key, invalid_key, read_idempotency_key, is_json_content_type,
  decode_create_reward_claim_request,
}

pub data LogLine : Type 0 where
  warn_unavailable : LogLine
  error_internal : LogLine
  error_unexpected : LogLine

pub record Handled (S : Type 0) : Type 0 where
  pub response : Response
  pub state : S
  pub observed : List (Result Err CreateClaimResult)
  pub logged : List LogLine

is_some {ℓ} : {A : Type ℓ} → Option A → Bool
is_some none = false
is_some (some a) = true

unfoldable pub log_create_claim_error : Err → List LogLine
unfolding is_some
log_create_claim_error e =
    if is e claims_unavailable
    then warn_unavailable ∷ []
    else if is e claims_internal
    then error_internal ∷ []
    else if is_some (as_invalid_input e) || is e idempotency_key_reused
    then []
    else error_unexpected ∷ []

unfoldable pub write_create_claim_error : Err → Response
write_create_claim_error e =
    if is e idempotency_key_reused
    then error_response 409 (bytes "idempotency_key_reused")
        (bytes "Idempotency-Key was reused with a different request payload")
    else elim (as_invalid_input e) [
      | some message ↦ error_response 400 (bytes "invalid_request") message
      | none ↦
          if is e claims_unavailable
          then error_response 503 (bytes "service_unavailable") (bytes "Service unavailable")
          else error_response 500 (bytes "internal_error") (bytes "Internal server error")
    ]

unfoldable pub key_error_response : KeyError → Response
key_error_response missing_key =
    error_response 400 (bytes "idempotency_key_required")
      (bytes "Idempotency-Key header is required")
key_error_response invalid_key =
    error_response 400 (bytes "invalid_idempotency_key") (bytes "Idempotency-Key header is invalid")

-- What the handler does with the service's answer.
unfoldable pub respond : {S : Type 0} → Request → Result Err CreateClaimResult × S → Handled S
unfolding is_some log_create_claim_error write_create_claim_error
respond r (ok result, s) = record {
  response = raw_json result.status_code result.response_body result.replayed;
  state = s;
  observed = ok result ∷ [];
  logged = [];
}
respond r (err e, s) = record {
  response = if is_context_error r.ctx_error e then silent else write_create_claim_error e;
  state = s;
  observed = if is_some (as_invalid_input e) then [] else err e ∷ [];
  logged = if is_context_error r.ctx_error e then [] else log_create_claim_error e;
}

unfoldable pub check_media : HttpLibrary → Request → Result Response (Unit {0})
check_media lib r =
    if is_json_content_type lib r.content_type
    then ok tt
    else err (
        error_response 415 (bytes "unsupported_media_type")
          (bytes "Content-Type must be application/json"))

unfoldable pub check_key : Request → Result Response Bytes
unfolding key_error_response
check_key r = elim (read_idempotency_key r.idempotency_keys) [
  | ok k ↦ ok k
  | err e ↦ err (key_error_response e)
]

unfoldable pub check_method : Request → Result Response (Unit {0})
check_method r =
    if str_eq r.method (bytes "POST") then ok tt else err (method_not_allowed (bytes "POST"))

-- The part of the handler before the service is called: its command, or a response.
unfoldable pub command : HttpLibrary → Request → Result Response CreateClaimCommand
unfolding check_method check_key check_media
command lib r = bind (check_method r) (λ _. bind (check_key r) (λ k. bind (check_media lib r) (λ _.
    bind (decode_create_reward_claim_request lib r.body) (λ req. ok (record {
      player_id = req.player_id;
      campaign_id = req.campaign_id;
      reward_id = req.reward_id;
      idempotency_key = k;
    })))))

unfoldable pub handle : {S : Type 0} → HttpLibrary → Creator S → Request → S → Handled S
unfolding respond
handle lib service r s = elim (command lib r) [
  | err response ↦ record { response = response; state = s; observed = []; logged = [] }
  | ok cmd ↦ respond r (service cmd s)
]
