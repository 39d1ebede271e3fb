-- ===== src/Rewards/Samples.antt =====
-- Values of internal/rewards that the tests share.
use game_rewards_service.Base.{
  ◌≡◌, refl, subst, Bool, true, false, not, ◌&&◌, Option, some, none, [], ok,
}
use game_rewards_service.Base.Text.{Bytes, bytes, is_empty}
use game_rewards_service.Base.Text.Utf8.{valid_string, chunks, rune_count}
use game_rewards_service.Postgres.{Driver}
use game_rewards_service.Rewards.Claim.{CreateClaimParams, Library}
use game_rewards_service.Rewards.Create.{Fresh, create_claim}
use game_rewards_service.Rewards.Tables.{find_key, find_claim, has_claim_id, has_clash}
use game_rewards_service.Rewards.Create.Rows.{db_created}
use game_rewards_service.Rewards.Create.Serial.{create_claim_created}
use game_rewards_service.Rewards.Create.Linked.{IsJson}
use game_rewards_service.Rewards.Create.Traffic.{no_rows_yet}

abbrev pub digest : Bytes
digest = bytes "0123456789abcdef0123456789abcdef"

abbrev pub driver : Driver
driver = record { is_timeout = λ e. false; interval = λ n. 0 }

abbrev pub params : CreateClaimParams
params = record {
  player_id = bytes "p1";
  campaign_id = bytes "summer";
  reward_id = bytes "r1";
  key_hash = digest;
}

abbrev pub fresh_ids : Fresh
fresh_ids = record { claim_id = bytes "c1"; event_id = bytes "e1"; now = 5 }

abbrev pub later_ids : Fresh
later_ids = record { claim_id = bytes "c2"; event_id = bytes "e2"; now = 9 }

abbrev pub json_library : Library
json_library = record {
  sha256 = λ key. digest;
  json_valid = λ body. true;
  format_time = λ n. [];
  encode_claim = λ c. some (bytes "{}");
  encode_error = λ e. some (bytes "{}");
  encode_event = λ e. some (bytes "{}");
}

abbrev is_json_body : Option Bytes → Bool
is_json_body none = false
is_json_body (some b) = not (is_empty b) && (valid_string b && true)

constant_json :
    (body : Bytes)
    → ◌≡◌ {A = Option Bytes} (some (bytes "{}")) (some body)
    → not (is_empty body) && (valid_string body && true) ≡ true
unfolding valid_string chunks
constant_json body e = subst (λ o. is_json_body o ≡ true) e refl

pub is_json : IsJson json_library
is_json = record {
  claim = λ c body e. constant_json body e;
  error = λ c body e. constant_json body e;
}

-- A first request on the empty tables.
pub first_claimed : create_claim json_library driver params 1 later_ids [] no_rows_yet ≡ (
  ok (some (record { status_code = 201; response_body = bytes "{}"; replayed = false })),
  db_created params later_ids no_rows_yet (bytes "{}") (bytes "{}"),
)
unfolding find_key find_claim has_claim_id has_clash rune_count
first_claimed =
    create_claim_created json_library driver params later_ids 0 no_rows_yet refl refl refl refl refl
      refl refl refl refl refl

-- A key of its own, for another reward.
abbrev pub rival_params : CreateClaimParams
rival_params = record {
  player_id = bytes "p2";
  campaign_id = bytes "summer";
  reward_id = bytes "r1";
  key_hash = bytes "fedcba9876543210fedcba9876543210";
}
