-- ===== src/Outbox/Delivery/Queue.antt =====
-- The events that wait in the outbox, and how many publish attempts they have left.
use game_rewards_service.Base.{
  ℕ, ◌+◌, ◌-◌, ◌^◌, ◌≤◌, ◌<◌, ◌≡◌, refl, false, Option, none, some, List, [], ◌∷◌, arith, All,
  if◌then◌else◌,
}
use game_rewards_service.Base.Int.{ℤ, pos}
use game_rewards_service.Base.Text.{is_empty}
use game_rewards_service.Errors.{Err, Sentinel}
use game_rewards_service.Postgres.{Driver}
use game_rewards_service.Outbox.Observer.{PublishOutcome}
use game_rewards_service.Outbox.Row.{Row, is_final}
use game_rewards_service.Outbox.Store.{Call, Event, answered, event_of, claimed_row}
use game_rewards_service.Outbox.Store.Transition.{IsValid, Transition, publish, retry, bury, moved}
use game_rewards_service.Outbox.Worker.{Worker, Iteration, classify_publish_outcome}
use game_rewards_service.Outbox.Delivery.{decision, decide_after}

-- How many more publish attempts the event can take before it is published or buried, if the worker
-- allows `m` failures.
abbrev pub attempts_left : ℕ → Row → ℕ
attempts_left m r = if is_final r.status then 0 else 1 + (m - (r.failed_attempts + 1))

-- An event that is tried again has failed less often than the worker allows.
retry_room :
    (w : Worker) (m : ℕ) (e : Event) (o : PublishOutcome) (x : Err) (delay : ℤ) (q : PublishOutcome)
    → w.max_failures ≡ pos m
    → decide_after w e o (some x) none ≡ some (retry delay q)
    → e.failed_attempts + 1 < m
unfolding decide_after
retry_room w m e o x delay q bound h = ground arith

decide_after-left :
    (d : Driver) (w : Worker) (m : ℕ) (r : Row) (o : PublishOutcome) (answer : Option Err)
    (told : Option Sentinel) (move : Transition) (now1 now2 : ℕ)
    → w.max_failures ≡ pos m
    → is_final r.status ≡ false
    → decide_after w (event_of r) o answer told ≡ some move
    → (attempts_left m (moved d move now2 (claimed_row d w.worker_id w.lock_ttl now1 r)) + 1
        ≤ attempts_left m r)
      × ((moved d move now2 (claimed_row d w.worker_id w.lock_ttl now1 r)).failed_attempts
            + attempts_left m (moved d move now2 (claimed_row d w.worker_id w.lock_ttl now1 r))
          ≤ r.failed_attempts + attempts_left m r)
unfolding decide_after
decide_after-left d w m r o none told publish now1 now2 bound unfinished h =
    (ground arith, ground arith)
decide_after-left d w m r o (some x) (some y) move now1 now2 bound unfinished h = cc
decide_after-left d w m r o (some x) none publish now1 now2 bound unfinished h =
    (ground arith, ground arith)
decide_after-left d w m r o (some x) none (retry delay q) now1 now2 bound unfinished h =
    let room = retry_room w m (event_of r) o x delay q bound h in (ground arith, ground arith)
decide_after-left d w m r o (some x) none (bury q) now1 now2 bound unfinished h =
    (ground arith, ground arith)
decide_after-left d w m r o none told (retry delay q) now1 now2 bound unfinished h = cc
decide_after-left d w m r o none told (bury q) now1 now2 bound unfinished h = cc

-- Each transition that a worker decides on uses up a publish attempt.
pub decision-left :
    (d : Driver) (w : Worker) (m : ℕ) (it : Iteration) (r : Row) (move : Transition) (now1 now2 : ℕ)
    → w.max_failures ≡ pos m
    → is_final r.status ≡ false
    → decision w it (event_of r) ≡ some move
    → (attempts_left m (moved d move now2 (claimed_row d w.worker_id w.lock_ttl now1 r)) + 1
        ≤ attempts_left m r)
      × ((moved d move now2 (claimed_row d w.worker_id w.lock_ttl now1 r)).failed_attempts
            + attempts_left m (moved d move now2 (claimed_row d w.worker_id w.lock_ttl now1 r))
          ≤ r.failed_attempts + attempts_left m r)
unfolding decision
decision-left d w m it r move now1 now2 =
    decide_after-left d w m r (classify_publish_outcome it.at_classify (it.publish (event_of r)))
      (it.publish (event_of r)) it.after_publish move now1 now2

pub moved-kept :
    (d : Driver) (m : Transition) (w : Worker) (now1 now2 : ℕ) (r : Row)
    → ((moved d m now2 (claimed_row d w.worker_id w.lock_ttl now1 r)).id ≡ r.id)
      × ((moved d m now2 (claimed_row d w.worker_id w.lock_ttl now1 r)).created_at ≡ r.created_at)
moved-kept d publish w now1 now2 r = (refl, refl)
moved-kept d (retry delay o) w now1 now2 r = (refl, refl)
moved-kept d (bury o) w now1 now2 r = (refl, refl)

-- Every statement is answered, and the server's clock does not run backwards.
pub record IsHealthy (script : ℕ → Call) : Type 0 where
  pub answers : (n : ℕ) → (script n).reply ≡ answered
  pub ordered : (n : ℕ) → (script n).now ≤ (script (n + 1)).now

-- A valid table of events that were created before the clock's first time, whose counts of failures
-- still fit their column when `m` failures are allowed.
pub record IsQueue (m : ℕ) (script : ℕ → Call) (t : List Row) : Type 0 where
  pub valid : IsValid t
  pub clock : All (λ r. (n : ℕ) → r.created_at ≤ (script n).now) t
  pub room : All (λ r. r.failed_attempts + attempts_left m r + 1 < 2 ^ 31) t
  pub named : All (λ r. is_empty r.id ≡ false) t

pub All-map : (P Q : Row → Type 0) (t : List Row) → ((r : Row) → P r → Q r) → All P t → All Q t
All-map P Q [] f a = tt
All-map P Q (r ∷ rs) f a = (f r a.0, All-map P Q rs f a.1)
