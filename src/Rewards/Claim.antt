-- ===== src/Rewards/Claim.antt =====
-- internal/rewards/claim.go, event.go and response.go: the data of a claim.
use game_rewards_service.Base.{ℕ, Bool, Option}
use game_rewards_service.Base.Text.{Bytes, bytes}

abbrev pub max_id_length : ℕ
max_id_length = 128

abbrev pub max_idempotency_key_length : ℕ
max_idempotency_key_length = 255

abbrev pub create_claim_status_created : ℕ
create_claim_status_created = 201

abbrev pub create_claim_status_conflict : ℕ
create_claim_status_conflict = 409

-- `created_at` is an instant; the rendering of instants belongs to the JSON encoder below.
pub record Claim : Type 0 where
  pub id : Bytes
  pub player_id : Bytes
  pub campaign_id : Bytes
  pub reward_id : Bytes
  pub created_at : ℕ

pub record CreateClaimCommand : Type 0 where
  pub player_id : Bytes
  pub campaign_id : Bytes
  pub reward_id : Bytes
  pub idempotency_key : Bytes

pub record CreateClaimResult : Type 0 where
  pub status_code : ℕ
  pub response_body : Bytes
  pub replayed : Bool

pub record CreateClaimParams : Type 0 where
  pub player_id : Bytes
  pub campaign_id : Bytes
  pub reward_id : Bytes
  pub key_hash : Bytes

pub record RewardClaimedEvent : Type 0 where
  pub schema_version : ℕ
  pub event_id : Bytes
  pub event_type : Bytes
  pub occurred_at : ℕ
  pub claim : Claim

abbrev pub outbox_aggregate_type_reward_claim : Bytes
outbox_aggregate_type_reward_claim = bytes "reward_claim"

abbrev pub outbox_event_type_reward_claimed : Bytes
outbox_event_type_reward_claimed = bytes "RewardClaimed"

abbrev pub new_reward_claimed_event : Bytes → Claim → RewardClaimedEvent
new_reward_claimed_event event_id claim = record {
  schema_version = 1;
  event_id = event_id;
  event_type = outbox_event_type_reward_claimed;
  occurred_at = claim.created_at;
  claim = claim;
}

pub record ErrorBody : Type 0 where
  pub code : Bytes
  pub message : Bytes

abbrev pub duplicate_claim_error : ErrorBody
duplicate_claim_error = record {
  code = bytes "reward_already_claimed";
  message = bytes "Reward has already been claimed";
}

pub record CreateClaimResponse : Type 0 where
  pub claim_id : Bytes
  pub player_id : Bytes
  pub campaign_id : Bytes
  pub reward_id : Bytes
  pub claimed_at : Bytes

-- crypto/sha256, time.Time.Format with RFC 3339 in UTC, and encoding/json; `none` is an encoding
-- error.
pub record Library : Type 0 where
  pub sha256 : Bytes → Bytes
  pub json_valid : Bytes → Bool
  pub format_time : ℕ → Bytes
  pub encode_claim : CreateClaimResponse → Option Bytes
  pub encode_error : ErrorBody → Option Bytes
  pub encode_event : RewardClaimedEvent → Option Bytes

abbrev pub create_claim_response : Library → Claim → CreateClaimResponse
create_claim_response lib claim = record {
  claim_id = claim.id;
  player_id = claim.player_id;
  campaign_id = claim.campaign_id;
  reward_id = claim.reward_id;
  claimed_at = lib.format_time claim.created_at;
}

-- The encoded response to a created claim.
abbrev pub created_body : Library → Claim → Option Bytes
created_body lib claim = lib.encode_claim (create_claim_response lib claim)
