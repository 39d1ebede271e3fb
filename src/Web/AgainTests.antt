-- ===== src/Web/AgainTests.antt =====
-- A claim that is sent to the API twice, on which the theorem about the whole API is tried.
use game_rewards_service.Base.{◌≡◌, refl, ap, ◌∙◌, true, false, none, [], ok}
use game_rewards_service.Base.Text.{bytes, str_eq}
use game_rewards_service.Base.Text.Utf8.{chunks, valid_string, rune_count}
use game_rewards_service.Base.Text.Space.{trim_space}
use game_rewards_service.Rewards.Claim.{CreateClaimCommand}
use game_rewards_service.Rewards.Tables.{Db}
use game_rewards_service.Rewards.Samples.{
  json_library, is_json, driver, params, fresh_ids, later_ids, first_claimed, rival_params,
}
use game_rewards_service.Rewards.Validate.{
  prepare_create_claim, validate_claim_id, validate_idempotency_key, validate_create_claim_command,
}
use game_rewards_service.Rewards.Service.{claim_service, claim_service-answers}
use game_rewards_service.Rewards.Create.{create_claim}
use game_rewards_service.Rewards.Create.Traffic.{no_rows_yet, request, no_turns}
use game_rewards_service.Http.{raw_json}
use game_rewards_service.Http.Decode.{
  read_idempotency_key, is_json_content_type, decode_create_reward_claim_request,
}
use game_rewards_service.Http.Handler.{command, handle, respond}
use game_rewards_service.Http.Again.{handle_accepted}
use game_rewards_service.Web.Samples.{web, post, random, two_checks, json, parts}
use game_rewards_service.Web.Middleware.{Served}
use game_rewards_service.Web.Router.{claim_request}
use game_rewards_service.Web.Router.Reach.{sent}
use game_rewards_service.Web.Router.Again.{api, new_router_again}

abbrev posted : CreateClaimCommand
posted = record {
  player_id = bytes "p1";
  campaign_id = bytes "summer";
  reward_id = bytes "r1";
  idempotency_key = bytes "k-1";
}

accepted : command json (claim_request parts post) ≡ ok posted
unfolding command read_idempotency_key is_json_content_type decode_create_reward_claim_request
    trim_space str_eq chunks
accepted = refl

prepared : prepare_create_claim json_library posted ≡ ok params
unfolding prepare_create_claim validate_create_claim_command validate_claim_id
    validate_idempotency_key trim_space chunks valid_string rune_count
prepared = refl

answered :
    (handle json
      (claim_service json_library driver later_ids [])
      (claim_request parts post)
      no_rows_yet).response
    ≡ raw_json 201 (bytes "{}") false
unfolding respond
answered =
    ap (λ x. x.response)
      (handle_accepted json (claim_service json_library driver later_ids [])
          (claim_request parts post) no_rows_yet posted accepted
        ∙ ap (respond (claim_request parts post)) (
            claim_service-answers json_library driver later_ids [] posted params no_rows_yet
              prepared _ _ first_claimed))

-- What another player's claim does between the two.
abbrev between : Db → Db
between db = (create_claim json_library driver rival_params 1 fresh_ids [] db).1

-- The API, with what createClaim meets.
abbrev first_reply : Served Db
first_reply =
    api web json none two_checks true json_library driver later_ids [] random parts post no_rows_yet

abbrev second_reply : Served Db
second_reply =
    api web json none two_checks true json_library driver fresh_ids [] random parts post
      (between first_reply.state)

new_router_again_example :
    (second_reply.calls ≡ sent web random post (raw_json 201 (bytes "{}") true))
    × (second_reply.state ≡ between first_reply.state)
unfolding str_eq
new_router_again_example =
    new_router_again web json none two_checks true json_library driver is_json later_ids fresh_ids
      [] no_rows_yet random random parts parts post post posted posted params params 201
      (bytes "{}") between (record { told = refl; sourced = refl; answered = refl }) refl no_turns
      refl accepted prepared answered (request rival_params fresh_ids 1 [] refl no_turns) refl
      accepted refl prepared refl
