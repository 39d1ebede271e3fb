-- ===== src/Metrics/Rewards.antt =====
-- internal/observability/rewards.go.
pub mod Counted
use game_rewards_service.Base.{
  ℕ, Bool, true, false, not, ◌&&◌, ◌||◌, Option, none, some, List, [], ◌∷◌, ◌++◌, leb,
  if◌then◌else◌, Result, ok, err, all, ◌==◌,
}
use game_rewards_service.Base.Text.{Bytes, bytes, str_eq}
use game_rewards_service.Errors.{
  Err, is, canceled, deadline_exceeded, idempotency_key_reused, claims_unavailable,
}
use game_rewards_service.Rewards.Claim.{CreateClaimResult}
use game_rewards_service.Metrics.{Collector, Registry, Sample, is_one_of, register, vector, sample}

abbrev pub reward_collectors : List Collector
reward_collectors =
    vector (bytes "reward_claim") (bytes "operations_total") (bytes "outcome" ∷ [])
    ∷ vector (bytes "idempotency") (bytes "operations_total") (bytes "outcome" ∷ [])
    ∷ []

unfoldable pub new_reward_metrics : {S : Type 0} → Option (Registry S) → S → Option Err × S
unfolding register
new_reward_metrics registerer s = register registerer reward_collectors s

unfoldable pub map_claim_success : CreateClaimResult → Bytes
map_claim_success result =
    if result.replayed
    then if result.status_code == 201
      then bytes "replayed_created"
      else if result.status_code == 409
      then bytes "replayed_already_claimed"
      else bytes "internal_error"
    else if result.status_code == 201
    then bytes "created"
    else if result.status_code == 409
    then bytes "already_claimed"
    else bytes "internal_error"

unfoldable pub map_idempotency_success : CreateClaimResult → Bytes
map_idempotency_success result = if result.replayed then bytes "replayed" else bytes "new"

abbrev pub claims_sample : Bytes → Sample
claims_sample outcome = sample (bytes "reward_claim") (bytes "operations_total") (outcome ∷ [])

abbrev pub idempotency_sample : Bytes → Sample
idempotency_sample outcome = sample (bytes "idempotency") (bytes "operations_total") (outcome ∷ [])

unfoldable pub observe_reward_claim : Bool → Result Err CreateClaimResult → List Sample
unfolding map_claim_success map_idempotency_success
observe_reward_claim false outcome = []
observe_reward_claim true (ok result) =
    idempotency_sample (map_idempotency_success result)
    ∷ claims_sample (map_claim_success result)
    ∷ []
observe_reward_claim true (err e) =
    if is e idempotency_key_reused
    then claims_sample (bytes "idempotency_key_reused")
      ∷ idempotency_sample (bytes "key_reused")
      ∷ []
    else if is e canceled || is e deadline_exceeded
    then claims_sample (bytes "canceled") ∷ idempotency_sample (bytes "canceled") ∷ []
    else if is e claims_unavailable
    then claims_sample (bytes "unavailable") ∷ idempotency_sample (bytes "failed") ∷ []
    else claims_sample (bytes "internal_error") ∷ idempotency_sample (bytes "failed") ∷ []
