-- ===== src/Metrics/Worker.antt =====
-- internal/observability/worker.go.
pub mod Bounded
use game_rewards_service.Base.{
  ℕ, Bool, true, false, not, ◌&&◌, ◌||◌, Option, none, some, List, [], ◌∷◌, ◌++◌, leb,
  if◌then◌else◌, Result, ok, err, all, ◌==◌,
}
use game_rewards_service.Base.Text.{Bytes, bytes, str_eq}
use game_rewards_service.Errors.{Err}
use game_rewards_service.Outbox.Observer.{
  claim_outcome_string, publish_outcome_string, operation_string, Observation, observe_claim,
  observe_publish, observe_published, observe_retry, observe_dead_letter, observe_lease_loss,
  observe_operation_error,
}
use game_rewards_service.Metrics.{Collector, Registry, Sample, is_one_of, register, vector, sample}

abbrev pub worker_collectors : List Collector
worker_collectors =
    vector (bytes "outbox") (bytes "claim_attempts_total") (bytes "outcome" ∷ [])
    ∷ vector (bytes "outbox") (bytes "publish_attempts_total")
        (bytes "event_type" ∷ bytes "outcome" ∷ [])
    ∷ vector (bytes "outbox") (bytes "publish_duration_seconds")
        (bytes "event_type" ∷ bytes "outcome" ∷ [])
    ∷ vector (bytes "outbox") (bytes "events_published_total") (bytes "event_type" ∷ [])
    ∷ vector (bytes "outbox") (bytes "retries_scheduled_total")
        (bytes "event_type" ∷ bytes "failure_reason" ∷ [])
    ∷ vector (bytes "outbox") (bytes "events_dead_lettered_total")
        (bytes "event_type" ∷ bytes "failure_reason" ∷ [])
    ∷ vector (bytes "outbox") (bytes "lease_losses_total")
        (bytes "event_type" ∷ bytes "operation" ∷ [])
    ∷ vector (bytes "outbox") (bytes "operation_errors_total") (bytes "operation" ∷ [])
    ∷ []

unfoldable pub new_worker_metrics : {S : Type 0} → Option (Registry S) → S → Option Err × S
unfolding register
new_worker_metrics registerer s = register registerer worker_collectors s

unfoldable pub normalize_event_type : Bytes → Bytes
normalize_event_type event_type =
    if str_eq event_type (bytes "RewardClaimed") then bytes "reward_claimed" else bytes "unknown"

unfoldable pub normalize_claim_outcome : Bytes → Bytes
unfolding is_one_of
normalize_claim_outcome outcome =
    if is_one_of outcome (bytes "claimed" ∷ bytes "empty" ∷ bytes "error" ∷ [])
    then outcome
    else bytes "error"

unfoldable pub normalize_publish_outcome : Bytes → Bytes
unfolding is_one_of
normalize_publish_outcome outcome =
    if is_one_of outcome
      (bytes "success" ∷ bytes "failed" ∷ bytes "timeout" ∷ bytes "canceled" ∷ [])
    then outcome
    else bytes "failed"

unfoldable pub normalize_failure_reason : Bytes → Bytes
unfolding is_one_of
normalize_failure_reason outcome =
    if is_one_of outcome (bytes "failed" ∷ bytes "timeout" ∷ bytes "canceled" ∷ [])
    then outcome
    else bytes "unknown"

unfoldable pub normalize_operation : Bytes → Bytes
unfolding is_one_of
normalize_operation operation =
    if is_one_of operation (
      bytes "claim"
      ∷ bytes "mark_published"
      ∷ bytes "schedule_retry"
      ∷ bytes "mark_dead_letter"
      ∷ [])
    then operation
    else bytes "unknown"

abbrev outbox_sample : Bytes → List Bytes → Sample
outbox_sample name values = sample (bytes "outbox") name values

-- The seven methods of WorkerMetrics; the Boolean says whether the receiver is given.
unfoldable pub observe : Bool → Observation → List Sample
unfolding normalize_event_type normalize_claim_outcome normalize_publish_outcome
    normalize_failure_reason normalize_operation
observe false o = []
observe true (observe_claim outcome) =
    outbox_sample (bytes "claim_attempts_total")
      (normalize_claim_outcome (claim_outcome_string outcome) ∷ [])
    ∷ []
observe true (observe_publish event_type outcome) =
    let labels =
      normalize_event_type event_type
      ∷ normalize_publish_outcome (publish_outcome_string outcome)
      ∷ [] in
    outbox_sample (bytes "publish_attempts_total") labels
    ∷ outbox_sample (bytes "publish_duration_seconds") labels
    ∷ []
observe true (observe_published event_type) =
    outbox_sample (bytes "events_published_total") (normalize_event_type event_type ∷ []) ∷ []
observe true (observe_retry event_type outcome) =
    outbox_sample (bytes "retries_scheduled_total") (
      normalize_event_type event_type
      ∷ normalize_failure_reason (publish_outcome_string outcome)
      ∷ [])
    ∷ []
observe true (observe_dead_letter event_type outcome) =
    outbox_sample (bytes "events_dead_lettered_total") (
      normalize_event_type event_type
      ∷ normalize_failure_reason (publish_outcome_string outcome)
      ∷ [])
    ∷ []
observe true (observe_lease_loss event_type operation) =
    outbox_sample (bytes "lease_losses_total")
      (normalize_event_type event_type ∷ normalize_operation (operation_string operation) ∷ [])
    ∷ []
observe true (observe_operation_error operation) =
    outbox_sample (bytes "operation_errors_total")
      (normalize_operation (operation_string operation) ∷ [])
    ∷ []
