-- ===== src/Http.antt =====
-- internal/httpapi/reward_claims.go: the requests and responses of the reward claims route.
pub mod Decode
pub mod Handler
pub mod Outcomes
pub mod Again
mod Tests
use game_rewards_service.Base.{ℕ, ◌*◌, Bool, Option, List, Result}
use game_rewards_service.Base.Text.{Bytes, bytes}
use game_rewards_service.Errors.{Err, Sentinel}
use game_rewards_service.Rewards.Claim.{CreateClaimCommand, CreateClaimResult}

abbrev pub max_idempotency_key_length : ℕ
max_idempotency_key_length = 255

abbrev pub max_reward_claim_body_bytes : ℕ
max_reward_claim_body_bytes = 64 * 1024

pub record CreateRewardClaimRequest : Type 0 where
  pub player_id : Bytes
  pub campaign_id : Bytes
  pub reward_id : Bytes

-- The errors of reading and decoding a body, as far as the handler tells them apart.
pub data DecodeError : Type 0 where
  max_bytes : DecodeError
  unknown_name : DecodeError
  other_error : DecodeError

-- The request, and its context's error once the service has answered. The body is its bytes, or the
-- error of reading them.
pub record Request : Type 0 where
  pub method : Bytes
  pub idempotency_keys : List Bytes
  pub content_type : Bytes
  pub body : Result DecodeError Bytes
  pub ctx_error : Option Sentinel

-- What the handler writes; `silent` is a return without a response.
pub data Response : Type 0 where
  silent : Response
  method_not_allowed : Bytes → Response
  error_response : ℕ → Bytes → Bytes → Response
  raw_json : ℕ → Bytes → Bool → Response

-- mime.ParseMediaType and json.Unmarshal with RejectUnknownMembers; `ok none` is a JSON null.
pub record HttpLibrary : Type 0 where
  pub parse_media_type : Bytes → Option Bytes
  pub unmarshal : Bytes → Result DecodeError (Option CreateRewardClaimRequest)

-- `rewardClaimCreator`, over the state that the service changes.
abbrev pub Creator : Type 0 → Type 0
Creator S = CreateClaimCommand → S → Result Err CreateClaimResult × S
