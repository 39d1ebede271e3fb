-- ===== src/Outbox/Worker.antt =====
-- internal/outbox/worker.go and publisher.go. The logger's lines and the measured durations are not
-- modelled; the observer is the list of the calls made to it, oldest first.
pub mod Config
use Prim.Native.String.{String}
use game_rewards_service.Base.{
  ℕ, ◌+◌, ◌≡◌, Bool, true, false, not, ◌&&◌, ◌||◌, Option, none, some, List, [], ◌∷◌, ◌++◌, ltb,
  if◌then◌else◌, Result, ok, err,
}
use game_rewards_service.Base.Int.{ℤ, pos, leb_ℤ}
use game_rewards_service.Base.Text.{Bytes, is_empty}
use game_rewards_service.Base.Text.Utf8.{rune_count}
use game_rewards_service.Errors.{
  Err, sentinel, message, wrap, operation, is, is_context_error, as_operation, Sentinel,
  canceled as ctx_canceled, deadline_exceeded, lease_lost, store_unavailable, worker_fatal,
}
use game_rewards_service.Outbox.Observer.{
  ClaimOutcome, claimed, empty, error, PublishOutcome, success, failed, timeout, canceled,
  Operation, claim, mark_published, schedule_retry, mark_dead_letter, Observation, observe_claim,
  observe_publish, observe_published, observe_retry, observe_dead_letter, observe_lease_loss,
  observe_operation_error,
}
use game_rewards_service.Outbox.Backoff.{BackoffPolicy, new_backoff_policy, retry_delay}
use game_rewards_service.Outbox.Store.{Event}

-- The interface `Store`, over the state that its methods change.
pub record Store (S : Type 0) : Type 0 where
  pub claim_next : Bytes → ℤ → S → Result Err (Option Event) × S
  pub mark_published : Bytes → Bytes → S → Result Err (Unit {0}) × S
  pub schedule_retry : Bytes → Bytes → ℤ → PublishOutcome → S → Result Err (Unit {0}) × S
  pub mark_dead_letter : Bytes → Bytes → PublishOutcome → S → Result Err (Unit {0}) × S

pub record Worker : Type 0 where
  pub worker_id : Bytes
  pub poll_interval : ℤ
  pub lock_ttl : ℤ
  pub publish_timeout : ℤ
  pub max_failures : ℤ
  pub backoff : BackoffPolicy

pub record WorkerConfig : Type 0 where
  pub worker_id : Bytes
  pub poll_interval : ℤ
  pub lock_ttl : ℤ
  pub publish_timeout : ℤ
  pub max_failures : ℤ
  pub base_backoff : ℤ
  pub max_backoff : ℤ

abbrev pub max_worker_id_length : ℕ
max_worker_id_length = 128

unfoldable pub with_backoff : WorkerConfig → Result Err BackoffPolicy → Result Err Worker
with_backoff cfg (err e) = err (wrap "invalid backoff policy" e)
with_backoff cfg (ok p) = ok (record {
  worker_id = cfg.worker_id;
  poll_interval = cfg.poll_interval;
  lock_ttl = cfg.lock_ttl;
  publish_timeout = cfg.publish_timeout;
  max_failures = cfg.max_failures;
  backoff = p;
})

-- The first three arguments say whether the store, the publisher and the logger are given.
unfoldable pub new_worker : Bool → Bool → Bool → WorkerConfig → Result Err Worker
unfolding with_backoff
new_worker store publisher logger cfg =
    if not store
    then err (message "store must not be nil")
    else if not publisher
    then err (message "publisher must not be nil")
    else if not logger
    then err (message "logger must not be nil")
    else if is_empty cfg.worker_id
    then err (message "worker id must not be empty")
    else if ltb max_worker_id_length (rune_count cfg.worker_id)
    then err (message "worker id must be at most 128 characters")
    else if leb_ℤ cfg.poll_interval (pos 0)
    then err (message "poll interval must be greater than zero")
    else if leb_ℤ cfg.lock_ttl (pos 0)
    then err (message "lock ttl must be greater than zero")
    else if leb_ℤ cfg.publish_timeout (pos 0)
    then err (message "publish timeout must be greater than zero")
    else if leb_ℤ cfg.lock_ttl cfg.publish_timeout
    then err (message "lock ttl must be greater than publish timeout")
    else if leb_ℤ cfg.max_failures (pos 0)
    then err (message "max failures must be greater than zero")
    else with_backoff cfg (new_backoff_policy cfg.base_backoff cfg.max_backoff)

-- What one iteration meets: the publisher's answer, and ctx.Err() or publishCtx.Err() at each place
-- where the code reads it.
pub record Iteration : Type 0 where
  pub publish : Event → Option Err
  pub after_claim : Option Sentinel
  pub at_classify : Option Sentinel
  pub after_publish : Option Sentinel
  pub after_transition : Option Sentinel
  pub after_iteration : Option Sentinel

pub record World (S : Type 0) : Type 0 where
  pub store : S
  pub observed : List Observation

abbrev pub observe : {S : Type 0} → Observation → World S → World S
observe o s = record s { observed = s.observed ++ o ∷ [] }

-- publisher.go: the logging publisher fails only with the error of its context.
unfoldable pub logging_publish : Option Sentinel → Event → Option Err
logging_publish none e = none
logging_publish (some s) e = some (sentinel s)

-- errors.Is(publishCtx.Err(), s)
is_reading : Option Sentinel → Sentinel → Bool
is_reading none s = false
is_reading (some t) s = is (sentinel t) s

unfoldable pub classify_publish_outcome : Option Sentinel → Option Err → PublishOutcome
unfolding is_reading
classify_publish_outcome ctx none = success
classify_publish_outcome ctx (some e) =
    if is_reading ctx deadline_exceeded
    then timeout
    else if is e deadline_exceeded
    then timeout
    else if is_reading ctx ctx_canceled
    then canceled
    else if is e ctx_canceled
    then canceled
    else failed

abbrev from_context : Option Sentinel → Err → Err
from_context none e = e
from_context (some s) e = sentinel s

-- The error that stands for a failed transition, and what the observer is told.
unfoldable pub handle_transition_error :
    {S : Type 0} → Option Sentinel → Event → Operation → Err → World S → Err × World S
handle_transition_error ctx event op e s =
    if is_context_error ctx e
    then (from_context ctx e, s)
    else if is e lease_lost
    then (sentinel lease_lost, observe (observe_lease_loss event.event_type op) s)
    else (operation op e, observe (observe_operation_error op) s)

-- After a transition: done, or the error wrapped.
unfoldable pub finish_transition :
    {S : Type 0}
    → Option Sentinel
    → Event
    → Operation
    → String
    → Observation
    → Result Err (Unit {0}) × S
    → World S
    → Option Err × World S
unfolding handle_transition_error
finish_transition ctx event op label done (ok _, store) s =
    (none, observe done (record s { store = store }))
finish_transition ctx event op label done (err e, store) s =
    let (e', s') = handle_transition_error ctx event op e (record s { store = store }) in
    (some (wrap label e'), s')

module _ {S : Type 0} (store : Store S) (w : Worker) where
  -- The part of processEvent after the publisher has answered and its outcome is observed.
  unfoldable pub settle :
      Iteration → Event → PublishOutcome → Option Err → World S → Option Err × World S
  unfolding finish_transition
  settle it event outcome none s =
      finish_transition it.after_transition event mark_published "mark published event"
        (observe_published event.event_type) (store.mark_published w.worker_id event.id s.store) s
  settle it event outcome (some e) s = elim it.after_publish [
    | some stopped ↦ (some (sentinel stopped), s)
    | none ↦
        if leb_ℤ w.max_failures (pos (event.failed_attempts + 1))
        then finish_transition it.after_transition event mark_dead_letter "mark event dead letter"
            (observe_dead_letter event.event_type outcome)
            (store.mark_dead_letter w.worker_id event.id outcome s.store) s
        else finish_transition it.after_transition event schedule_retry "schedule retry for event"
            (observe_retry event.event_type outcome)
            (store.schedule_retry w.worker_id event.id
              (retry_delay w.backoff (pos (event.failed_attempts + 1))) outcome s.store)
            s
  ]

  unfoldable pub process_event : Iteration → Event → World S → Option Err × World S
  unfolding settle classify_publish_outcome
  process_event it event s =
      let outcome = classify_publish_outcome it.at_classify (it.publish event) in
      settle it event outcome (it.publish event)
        (observe (observe_publish event.event_type outcome) s)

  unfoldable pub conclude : Option Err × World S → Result Err Bool × World S
  conclude (none, s) = (ok true, s)
  conclude (some e, s) = (if is e lease_lost then ok false else err e, s)

  -- The answer of ClaimNext: an error, no event, or an event to process.
  unfoldable pub dispatch :
      Iteration → Result Err (Option Event) → World S → Result Err Bool × World S
  unfolding conclude process_event
  dispatch it (err e) s =
      if is_context_error it.after_claim e then (err (from_context it.after_claim e), s) else (
        err (operation claim e),
        observe (observe_operation_error claim) (observe (observe_claim error) s),
      )
  dispatch it (ok none) s = (ok false, observe (observe_claim empty) s)
  dispatch it (ok (some event)) s =
      conclude (process_event it event (observe (observe_claim claimed) s))

  unfoldable pub run_once : Iteration → World S → Result Err Bool × World S
  unfolding dispatch
  run_once it s =
      let (r, store') = store.claim_next w.worker_id w.lock_ttl s.store in
      dispatch it r (record s { store = store' })
