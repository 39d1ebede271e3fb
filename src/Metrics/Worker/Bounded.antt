-- ===== src/Metrics/Worker/Bounded.antt =====
-- The series that the outbox worker can make.
use game_rewards_service.Base.{
  ◌≡◌, refl, Bool, true, false, ◌&&◌, ◌||◌, List, [], ◌∷◌, ◌++◌, arith, all,
}
use game_rewards_service.Base.Text.{Bytes, bytes, str_eq}
use game_rewards_service.Outbox.Observer.{
  success, failed, timeout, canceled, claim, mark_published, schedule_retry, mark_dead_letter,
  claimed, empty, error, Observation, observe_claim, observe_publish, observe_published,
  observe_retry, observe_dead_letter, observe_lease_loss, observe_operation_error,
}
use game_rewards_service.Metrics.{Sample, full_name, is_one_of}
use game_rewards_service.Metrics.Worker.{
  observe, normalize_event_type, normalize_claim_outcome, normalize_publish_outcome,
  normalize_failure_reason, normalize_operation,
}

unfoldable pub recorded : List Observation → List Sample
unfolding observe
recorded [] = []
recorded (o ∷ os) = observe true o ++ recorded os

abbrev event_types : List Bytes
event_types = bytes "reward_claimed" ∷ bytes "unknown" ∷ []

abbrev reasons : List Bytes
reasons = bytes "failed" ∷ bytes "timeout" ∷ bytes "canceled" ∷ bytes "unknown" ∷ []

abbrev outcomes : List Bytes
outcomes = bytes "success" ∷ bytes "failed" ∷ bytes "timeout" ∷ bytes "canceled" ∷ []

abbrev operations : List Bytes
operations =
    bytes "claim" ∷ bytes "mark_published" ∷ bytes "schedule_retry" ∷ bytes "mark_dead_letter" ∷ []

-- The values that each label of a collector may take.
abbrev pub permitted : List (Bytes × List (List Bytes))
permitted =
    (
      full_name (bytes "outbox") (bytes "claim_attempts_total"),
      (bytes "claimed" ∷ bytes "empty" ∷ bytes "error" ∷ []) ∷ [],
    )
    ∷ (full_name (bytes "outbox") (bytes "publish_attempts_total"), event_types ∷ outcomes ∷ [])
    ∷ (full_name (bytes "outbox") (bytes "publish_duration_seconds"), event_types ∷ outcomes ∷ [])
    ∷ (full_name (bytes "outbox") (bytes "events_published_total"), event_types ∷ [])
    ∷ (full_name (bytes "outbox") (bytes "retries_scheduled_total"), event_types ∷ reasons ∷ [])
    ∷ (full_name (bytes "outbox") (bytes "events_dead_lettered_total"), event_types ∷ reasons ∷ [])
    ∷ (full_name (bytes "outbox") (bytes "lease_losses_total"), event_types ∷ operations ∷ [])
    ∷ (full_name (bytes "outbox") (bytes "operation_errors_total"), operations ∷ [])
    ∷ []

unfoldable pub takes : List Bytes → List (List Bytes) → Bool
unfolding is_one_of
takes [] [] = true
takes [] (d ∷ ds) = false
takes (v ∷ vs) [] = false
takes (v ∷ vs) (d ∷ ds) = is_one_of v d && takes vs ds

unfoldable pub is_permitted : List (Bytes × List (List Bytes)) → Sample → Bool
unfolding takes str_eq
is_permitted [] q = false
is_permitted ((name, domains) ∷ rest) q =
    (str_eq name q.name && takes q.values domains) || is_permitted rest q

observe-IsPermitted : (o : Observation) → all (is_permitted permitted) (observe true o) ≡ true
unfolding observe is_permitted takes is_one_of str_eq normalize_event_type normalize_claim_outcome
    normalize_publish_outcome normalize_failure_reason normalize_operation
observe-IsPermitted (observe_claim claimed) = refl
observe-IsPermitted (observe_claim empty) = refl
observe-IsPermitted (observe_claim error) = refl
observe-IsPermitted (observe_publish event_type success) = ground arith
observe-IsPermitted (observe_publish event_type failed) = ground arith
observe-IsPermitted (observe_publish event_type timeout) = ground arith
observe-IsPermitted (observe_publish event_type canceled) = ground arith
observe-IsPermitted (observe_published event_type) = ground arith
observe-IsPermitted (observe_retry event_type success) = ground arith
observe-IsPermitted (observe_retry event_type failed) = ground arith
observe-IsPermitted (observe_retry event_type timeout) = ground arith
observe-IsPermitted (observe_retry event_type canceled) = ground arith
observe-IsPermitted (observe_dead_letter event_type success) = ground arith
observe-IsPermitted (observe_dead_letter event_type failed) = ground arith
observe-IsPermitted (observe_dead_letter event_type timeout) = ground arith
observe-IsPermitted (observe_dead_letter event_type canceled) = ground arith
observe-IsPermitted (observe_lease_loss event_type claim) = ground arith
observe-IsPermitted (observe_lease_loss event_type mark_published) = ground arith
observe-IsPermitted (observe_lease_loss event_type schedule_retry) = ground arith
observe-IsPermitted (observe_lease_loss event_type mark_dead_letter) = ground arith
observe-IsPermitted (observe_operation_error claim) = refl
observe-IsPermitted (observe_operation_error mark_published) = refl
observe-IsPermitted (observe_operation_error schedule_retry) = refl
observe-IsPermitted (observe_operation_error mark_dead_letter) = refl

all-append {ℓ} :
    {A : Type ℓ} (p : A → Bool) (xs ys : List A)
    → all p xs ≡ true
    → all p ys ≡ true
    → all p (xs ++ ys) ≡ true
all-append p [] ys h k = k
all-append p (x ∷ xs) ys h k = ground (arith, all-append p xs ys)

-- Whatever events the worker meets and whatever types they have, the series that it makes are within
-- a fixed table: one of two event types, and the outcomes, reasons and operations that are named.
pub recorded-IsPermitted :
    (os : List Observation) → all (is_permitted permitted) (recorded os) ≡ true
unfolding recorded
recorded-IsPermitted [] = refl
recorded-IsPermitted (o ∷ os) =
    all-append (is_permitted permitted) (observe true o) (recorded os) (observe-IsPermitted o)
      (recorded-IsPermitted os)
