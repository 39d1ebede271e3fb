-- ===== src/Rewards/Tests.antt =====
-- Concrete claims, on which the theorems about internal/rewards are tried.
use game_rewards_service.Base.{
  ℕ, length, List, ◌≡◌, ◌≢◌, ◌↔◌, refl, true, false, none, some, [], ◌∷◌, arith, ok,
}
use game_rewards_service.Base.Text.{bytes, str_eq}
use game_rewards_service.Base.Text.Hex.{hex_encode}
use game_rewards_service.Base.Text.Utf8.{rune_count, chunks, valid_string}
use game_rewards_service.Base.Text.Space.{trim_space}
use game_rewards_service.Errors.{sentinel, unexpected_eof}
use game_rewards_service.Rewards.Samples.{digest, driver, params, fresh_ids}
use game_rewards_service.Rewards.Claim.{Claim, CreateClaimCommand, Library}
use game_rewards_service.Rewards.Validate.{
  prepare_create_claim, prepare_create_claim_iff, validate_claim_id, validate_idempotency_key,
  validate_create_claim_command, IsCommand, trimmed, params_of,
}
use game_rewards_service.Rewards.Tables.{
  Db, KeyRow, find_key, find_claim, has_claim_id, has_clash, completed,
}
use game_rewards_service.Rewards.Transaction.{Turn, quiet}
use game_rewards_service.Rewards.Create.{create_claim}
use game_rewards_service.Rewards.Create.Serial.{create_claim_created, create_claim_conflict}
use game_rewards_service.Rewards.Create.Rows.{db_created, new_key}
use game_rewards_service.Rewards.Create.Rounds.{create_claim-ends}
use game_rewards_service.Rewards.Create.Batch.{IsAtomic}
use game_rewards_service.Rewards.Create.Atomic.{create_claim-IsAtomic}
use game_rewards_service.Rewards.Uuid.{new_uuid_v4, parse_uuid, marked, parse_uuid-new_uuid_v4}

abbrev library : Library
library = record {
  sha256 = λ key. digest;
  json_valid = λ body. true;
  format_time = λ n. [];
  encode_claim = λ c. some c.claim_id;
  encode_error = λ e. some e.code;
  encode_event = λ e. some e.event_id;
}

abbrev command : CreateClaimCommand
command = record {
  player_id = bytes " p1";
  campaign_id = bytes "summer ";
  reward_id = bytes "r1";
  idempotency_key = bytes "k-1";
}

abbrev empty_db : Db
empty_db = record { claims = []; keys = []; events = [] }

abbrev old_claim : Claim
old_claim = record {
  id = bytes "c0";
  player_id = bytes "p1";
  campaign_id = bytes "summer";
  reward_id = bytes "r1";
  created_at = 1;
}

abbrev claimed_db : Db
claimed_db = record { claims = old_claim ∷ []; keys = []; events = [] }

abbrev stored_key : KeyRow
stored_key = record {
  key_hash = digest;
  player_id = bytes "p1";
  campaign_id = bytes "summer";
  reward_id = bytes "r1";
  response_status = some 409;
  response_body = some (bytes "{}");
  reward_claim_id = none;
}

prepare_create_claim_iff_example :
    (prepare_create_claim library command ≡ ok params)
    ↔ (IsCommand (trimmed command) × (params ≡ params_of library (trimmed command)))
prepare_create_claim_iff_example = prepare_create_claim_iff library command params

-- The surrounding spaces go and the rest is accepted.
prepared_command : prepare_create_claim library command ≡ ok params
unfolding prepare_create_claim validate_create_claim_command validate_claim_id
    validate_idempotency_key trim_space chunks valid_string rune_count
prepared_command = refl

create_claim_created_example : create_claim library driver params 1 fresh_ids [] empty_db ≡ (
  ok (some (record { status_code = 201; response_body = bytes "c1"; replayed = false })),
  db_created params fresh_ids empty_db (bytes "c1") (bytes "e1"),
)
unfolding find_key find_claim has_claim_id has_clash rune_count
create_claim_created_example =
    create_claim_created library driver params fresh_ids 0 empty_db refl refl refl refl refl refl
      refl refl refl refl

create_claim_conflict_example : create_claim library driver params 1 fresh_ids [] claimed_db ≡ (
  ok (
      some (record {
        status_code = 409;
        response_body = bytes "reward_already_claimed";
        replayed = false;
      })),
  record claimed_db {
    keys = completed 409 (bytes "reward_already_claimed") [] (new_key params) ∷ [];
  },
)
unfolding find_key find_claim str_eq rune_count
create_claim_conflict_example =
    create_claim_conflict library driver params fresh_ids 0 claimed_db refl refl refl refl refl refl

abbrev busy : Turn
busy = record {
  other = λ db. record db { keys = stored_key ∷ db.keys };
  fault = none;
  applied = false;
  ctx = quiet;
}

create_claim-ends_example :
    (create_claim library driver params 3 fresh_ids (busy ∷ busy ∷ []) empty_db).0 ≢ ok none
create_claim-ends_example =
    create_claim-ends library driver params 3 fresh_ids (busy ∷ busy ∷ []) empty_db (omega arith)

-- The connection breaks in the commit, which the server carries out.
abbrev broken : Turn
broken = record {
  other = λ db. db;
  fault = some (sentinel unexpected_eof);
  applied = true;
  ctx = quiet;
}

create_claim-IsAtomic_example :
    IsAtomic library driver params fresh_ids empty_db
      (busy ∷ broken ∷ [])
      (create_claim library driver params 3 fresh_ids (busy ∷ broken ∷ []) empty_db).0
      (create_claim library driver params 3 fresh_ids (busy ∷ broken ∷ []) empty_db).1
create_claim-IsAtomic_example =
    create_claim-IsAtomic library driver params fresh_ids empty_db (busy ∷ broken ∷ []) 3

abbrev random : List ℕ
random = 0 ∷ 1 ∷ 2 ∷ 3 ∷ 250 ∷ 5 ∷ 6 ∷ 7 ∷ 8 ∷ 9 ∷ 10 ∷ 11 ∷ 12 ∷ 13 ∷ 14 ∷ 255 ∷ []

new_id : new_uuid_v4 random ≡ bytes "00010203-fa05-4607-8809-0a0b0c0d0eff"
unfolding new_uuid_v4 hex_encode
new_id = refl

parse_uuid-new_uuid_v4_example :
    (parse_uuid (new_uuid_v4 random) ≡ some (marked random)) × (length (new_uuid_v4 random) ≡ 36)
parse_uuid-new_uuid_v4_example = parse_uuid-new_uuid_v4 random refl ground arith
