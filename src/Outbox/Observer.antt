-- ===== src/Outbox/Observer.antt =====
-- internal/outbox/observer.go. An observer is modelled by the sequence of the calls made to it.
use game_rewards_service.Base.Text.{Bytes, bytes}

pub data ClaimOutcome : Type 0 where
  claimed empty error : ClaimOutcome

pub data PublishOutcome : Type 0 where
  success failed timeout canceled : PublishOutcome

pub data Operation : Type 0 where
  claim mark_published schedule_retry mark_dead_letter : Operation

abbrev pub claim_outcome_string : ClaimOutcome → Bytes
claim_outcome_string claimed = bytes "claimed"
claim_outcome_string empty = bytes "empty"
claim_outcome_string error = bytes "error"

abbrev pub publish_outcome_string : PublishOutcome → Bytes
publish_outcome_string success = bytes "success"
publish_outcome_string failed = bytes "failed"
publish_outcome_string timeout = bytes "timeout"
publish_outcome_string canceled = bytes "canceled"

abbrev pub operation_string : Operation → Bytes
operation_string claim = bytes "claim"
operation_string mark_published = bytes "mark_published"
operation_string schedule_retry = bytes "schedule_retry"
operation_string mark_dead_letter = bytes "mark_dead_letter"

-- One call of the `Observer` interface; the measured duration is not kept.
pub data Observation : Type 0 where
  observe_claim : ClaimOutcome → Observation
  observe_publish : Bytes → PublishOutcome → Observation
  observe_published : Bytes → Observation
  observe_retry : Bytes → PublishOutcome → Observation
  observe_dead_letter : Bytes → PublishOutcome → Observation
  observe_lease_loss : Bytes → Operation → Observation
  observe_operation_error : Operation → Observation
