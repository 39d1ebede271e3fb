-- ===== src/Outbox/Delivery.antt =====
-- A worker over the PostgreSQL store: one iteration from the claim to the row that it leaves.
pub mod Requests
pub mod Iterations
pub mod Queue
pub mod Drain
pub mod Publishes
pub mod Enqueued
use native.Mathlib.Numerals.{add-one}
use game_rewards_service.Base.{
  ℕ, suc, ◌+◌, ◌^◌, ◌≤◌, ◌<◌, ◌≡◌, refl, sym, ap, Bool, true, false, Option, none, some, List, [],
  ◌∷◌, ◌++◌, arith, All, if◌then◌else◌, Result, ok, err, Bool-cases,
}
use game_rewards_service.Base.Int.{ℤ, pos, leb_ℤ, ◌≤ℤ◌, max_int64}
use game_rewards_service.Base.Text.{Bytes, str_eq, is_empty}
use game_rewards_service.Errors.{Err, sentinel, Sentinel, is, lease_lost}
use game_rewards_service.Postgres.{Driver}
use game_rewards_service.Outbox.Observer.{
  PublishOutcome, success, failed, timeout, canceled, claimed, Observation, observe_claim,
  observe_publish, observe_published, observe_retry, observe_dead_letter,
}
use game_rewards_service.Outbox.Row.{Row, reason_ok}
use game_rewards_service.Outbox.Backoff.{retry_delay, retry_delay_pos}
use game_rewards_service.Outbox.Store.{
  claim_next as sql_claim_next, mark_published as sql_mark_published,
  schedule_retry as sql_schedule_retry, mark_dead_letter as sql_mark_dead_letter,
}
use game_rewards_service.Outbox.Store.{Call, Event, answered, event_of, claimed_row}
use game_rewards_service.Outbox.Store.Transition.{
  Transition, publish, retry, bury, perform, IsPermitted, moved,
}
use game_rewards_service.Outbox.Worker.{
  Worker, Store, World, Iteration, run_once, process_event, settle, classify_publish_outcome,
}

-- The table, and the number of statements sent so far: the surroundings of the next one are
-- `script sent`.
pub record Database : Type 0 where
  pub table : List Row
  pub sent : ℕ

module _ (d : Driver) (script : ℕ → Call) where
  sending : {A : Type 0} → (Call → List Row → A × List Row) → Database → A × Database
  sending f db =
      let (a, table') = f (script db.sent) db.table in
      (a, record { table = table'; sent = db.sent + 1 })

  unfoldable pub postgres_store : Store Database
  unfolding sending
  postgres_store = record {
    claim_next = λ w ttl. sending (sql_claim_next d w ttl);
    mark_published = λ w e. sending (sql_mark_published d w e);
    schedule_retry = λ w e delay o. sending (sql_schedule_retry d w e delay o);
    mark_dead_letter = λ w e o. sending (sql_mark_dead_letter d w e o);
  }

-- The transition that the worker asks for after a publish attempt; `none` if it was told to stop.
decide_after : Worker → Event → PublishOutcome → Option Err → Option Sentinel → Option Transition
decide_after w e outcome none stopped = some publish
decide_after w e outcome (some x) (some s) = none
decide_after w e outcome (some x) none =
    if leb_ℤ w.max_failures (pos (e.failed_attempts + 1))
    then some (bury outcome)
    else some (retry (retry_delay w.backoff (pos (e.failed_attempts + 1))) outcome)

pub decision : Worker → Iteration → Event → Option Transition
unfolding decide_after
decision w it e =
    decide_after w e (classify_publish_outcome it.at_classify (it.publish e)) (it.publish e)
      it.after_publish

decide_after-none :
    (w : Worker) (e : Event) (outcome : PublishOutcome) (answer : Option Err)
    (told : Option Sentinel)
    → decide_after w e outcome answer told ≡ none
    → (y : Err) × (x : Sentinel) × (answer ≡ some y) × (told ≡ some x)
unfolding decide_after
decide_after-none w e outcome none told h = cc
decide_after-none w e outcome (some y) (some x) h = (y, x, refl, refl)
decide_after-none w e outcome (some y) none h = absurd (ground arith)

abbrev pub done_observation : Event → Transition → Observation
done_observation e publish = observe_published e.event_type
done_observation e (retry delay outcome) = observe_retry e.event_type outcome
done_observation e (bury outcome) = observe_dead_letter e.event_type outcome

module _ (d : Driver) (script : ℕ → Call) (w : Worker) (it : Iteration) (e : Event) where
  abbrev outcome : PublishOutcome
  outcome = classify_publish_outcome it.at_classify (it.publish e)

  -- A transition that the store grants ends the event's processing with no error.
  process_event-perform :
      (m : Transition) (t' : List Row) (s : World Database)
      → decision w it e ≡ some m
      → perform d w.worker_id e.id m (script s.store.sent) s.store.table ≡ (ok tt, t')
      → process_event (postgres_store d script) w it e s ≡ (
        none,
        record {
          store = record { table = t'; sent = s.store.sent + 1 };
          observed =
              (s.observed ++ observe_publish e.event_type outcome ∷ [])
              ++ done_observation e m ∷ [];
        },
      )
  unfolding decision process_event perform postgres_store
  process_event-perform m t' s h k = ground arith

  -- Told to stop, the worker leaves the store alone.
  process_event-stopped :
      (s : World Database)
      → decision w it e ≡ none
      → (x : Sentinel) × (it.after_publish ≡ some x)
        × (process_event (postgres_store d script) w it e s ≡ (
          some (sentinel x),
          record s { observed = s.observed ++ observe_publish e.event_type outcome ∷ [] },
        ))
  unfolding decision process_event
  process_event-stopped s h =
      let (y, x, failed_with, told) =
        decide_after-none w e outcome (it.publish e) it.after_publish h in
      (x, told, ground arith)
