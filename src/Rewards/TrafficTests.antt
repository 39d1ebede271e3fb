-- ===== src/Rewards/TrafficTests.antt =====
-- Concurrent requests on small tables, on which the theorems about internal/rewards are tried.
use game_rewards_service.Base.{ap, err, ◌≡◌, refl, sym, some, none, false, [], ◌∷◌, subst}
use game_rewards_service.Base.Text.{bytes, str_eq}
use game_rewards_service.Rewards.Samples.{
  rival_params, first_claimed, json_library, is_json, digest, driver, params, fresh_ids, later_ids,
}
use game_rewards_service.Rewards.Claim.{CreateClaimParams}
use game_rewards_service.Rewards.Tables.{Db, KeyRow, completed, find_key}
use game_rewards_service.Rewards.Transaction.{Turn, quiet}
use game_rewards_service.Rewards.Create.{create_claim}
use game_rewards_service.Rewards.Create.Rows.{new_key}
use game_rewards_service.Errors.{sentinel, idempotency_key_reused}
use game_rewards_service.Rewards.Create.Retry.{create_claim_again}
use game_rewards_service.Rewards.Create.Found.{IsFound, create_claim-IsFound}
use game_rewards_service.Rewards.Create.Linked.{IsLinked}
use game_rewards_service.Rewards.Create.Traffic.{
  IsTraffic, request, no_turns, a_turn, no_rows_yet, traffic-IsLinked,
}

-- The same request, made again, commits first.
abbrev rival : Db → Db
rival db = (create_claim json_library driver params 1 later_ids [] db).1

abbrev rival_turn : Turn
rival_turn = record { other = rival; fault = none; applied = false; ctx = quiet }

abbrev race : Db → Db
race db = (create_claim json_library driver params 2 fresh_ids (rival_turn ∷ []) db).1

race-IsTraffic : IsTraffic json_library driver (λ k. false) race
race-IsTraffic =
    request params fresh_ids 2 (rival_turn ∷ []) refl
      (a_turn rival_turn [] (request params later_ids 1 [] refl no_turns) no_turns)

traffic-IsLinked_example : IsLinked json_library (race no_rows_yet)
traffic-IsLinked_example =
    traffic-IsLinked json_library driver (λ k. false) is_json race race-IsTraffic

abbrev raced_key : KeyRow
raced_key = completed 201 (bytes "{}") (bytes "c2") (new_key params)

raced : find_key digest (rival no_rows_yet).keys ≡ some raced_key
unfolding find_key str_eq
raced = subst (λ x. find_key digest (x.1).keys ≡ some raced_key) (sym first_claimed) refl

create_claim-IsFound_example :
    IsFound json_library driver params fresh_ids 0 (rival no_rows_yet) raced_key
create_claim-IsFound_example =
    create_claim-IsFound json_library driver (λ k. false) is_json rival
      (request params later_ids 1 [] refl no_turns) params fresh_ids 0 raced_key raced

abbrev beside : Db → Db
beside db = (create_claim json_library driver rival_params 1 fresh_ids [] db).1

abbrev reused_params : CreateClaimParams
reused_params = record params { reward_id = bytes "r2" }

-- The key of a claim is used for another reward, after another player's claim.
create_claim_again_example :
    create_claim json_library driver reused_params 1 fresh_ids []
      (beside (create_claim json_library driver params 1 later_ids [] no_rows_yet).1)
    ≡ (
      err (sentinel idempotency_key_reused),
      beside (create_claim json_library driver params 1 later_ids [] no_rows_yet).1,
    )
unfolding str_eq
create_claim_again_example =
    create_claim_again json_library driver is_json params reused_params later_ids fresh_ids 1 0 []
      no_rows_yet (record { status_code = 201; response_body = bytes "{}"; replayed = false })
      beside (record { told = refl; sourced = refl; answered = refl }) refl no_turns
      (ap (λ x. x.0) first_claimed) refl (request rival_params fresh_ids 1 [] refl no_turns) refl
