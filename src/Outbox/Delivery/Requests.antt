-- ===== src/Outbox/Delivery/Requests.antt =====
-- The transitions that a worker asks for are within what the store's constraints allow.
use native.Mathlib.Numerals.{add-one}
use game_rewards_service.Base.{ℕ, ◌+◌, ◌^◌, ◌<◌, ◌≡◌, true, false, Option, none, some, arith}
use game_rewards_service.Base.Int.{pos, leb_ℤ, ◌≤ℤ◌, max_int64}
use game_rewards_service.Errors.{Err, Sentinel}
use game_rewards_service.Outbox.Row.{Row, reason_ok}
use game_rewards_service.Outbox.Backoff.{retry_delay, retry_delay_pos}
use game_rewards_service.Outbox.Store.{Event}
use game_rewards_service.Outbox.Store.Transition.{Transition, publish, retry, bury, IsPermitted}
use game_rewards_service.Outbox.Worker.{Worker, Iteration, classify_publish_outcome}
use game_rewards_service.Outbox.Worker.Config.{IsWorker}
use game_rewards_service.Outbox.Delivery.{decision, decide_after}

-- A publish attempt that failed is classified as one of the failures.
classify-reason_ok :
    (ctx : Option Sentinel) (e : Err)
    → reason_ok (some (classify_publish_outcome ctx (some e))) ≡ true
unfolding classify_publish_outcome
classify-reason_ok ctx e = ground arith

delay_pos :
    (w : Worker) (n : ℕ)
    → IsWorker w
    → w.backoff.max ≤ℤ pos max_int64
    → leb_ℤ (retry_delay w.backoff (pos (n + 1))) (pos 0) ≡ false
delay_pos w n v fits = rw (add-one n) (retry_delay_pos w.backoff.base w.backoff.max n v.policy fits)

IsPermitted-after :
    (w : Worker) (e : Event) (ctx : Option Sentinel) (answer : Option Err)
    (stopped : Option Sentinel) (m : Transition) (r : Row)
    → IsWorker w
    → w.backoff.max ≤ℤ pos max_int64
    → e.failed_attempts ≡ r.failed_attempts
    → r.failed_attempts + 1 < 2 ^ 31
    → decide_after w e (classify_publish_outcome ctx answer) answer stopped ≡ some m
    → IsPermitted m r
unfolding decide_after
IsPermitted-after w e ctx none stopped m r v fits same room h = ground arith
IsPermitted-after w e ctx (some x) (some s) m r v fits same room h = cc
IsPermitted-after w e ctx (some x) none publish r v fits same room h = tt
IsPermitted-after w e ctx (some x) none (retry delay outcome) r v fits same room h =
    ground (arith, delay_pos w e.failed_attempts v fits, classify-reason_ok ctx x)
IsPermitted-after w e ctx (some x) none (bury outcome) r v fits same room h =
    ground (arith, classify-reason_ok ctx x)

-- What a valid worker asks for is within the constraints of the row that it claimed.
pub decision-IsPermitted :
    (w : Worker) (it : Iteration) (e : Event) (m : Transition) (r : Row)
    → IsWorker w
    → w.backoff.max ≤ℤ pos max_int64
    → e.failed_attempts ≡ r.failed_attempts
    → r.failed_attempts + 1 < 2 ^ 31
    → decision w it e ≡ some m
    → IsPermitted m r
unfolding decision
decision-IsPermitted w it e m r =
    IsPermitted-after w e it.at_classify (it.publish e) it.after_publish m r
