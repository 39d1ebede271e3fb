-- ===== src/Outbox/Worker/Config.antt =====
-- What NewWorker guarantees of the worker that it returns.
use game_rewards_service.Base.{
  ◌≡◌, refl, Bool, true, false, [], ◌∷◌, arith, ltb, Result, ok, err, ok-injective, sym,
}
use game_rewards_service.Base.Int.{ℤ, pos, leb_ℤ, ◌<ℤ◌}
use game_rewards_service.Base.Text.{Bytes, is_empty}
use game_rewards_service.Base.Text.Utf8.{rune_count, rune_count_pos}
use game_rewards_service.Errors.{Err}
use game_rewards_service.Outbox.Row.{length_between}
use game_rewards_service.Outbox.Backoff.{BackoffPolicy, new_backoff_policy}
use game_rewards_service.Outbox.Worker.{Worker, WorkerConfig, new_worker, with_backoff}

pub record IsWorker (w : Worker) : Type 0 where
  pub named : is_empty w.worker_id ≡ false
  -- The identifier fits the column locked_by.
  pub bounded : length_between 1 128 w.worker_id ≡ true
  pub ttl : leb_ℤ w.lock_ttl (pos 0) ≡ false
  pub polls : pos 0 <ℤ w.poll_interval
  pub longer : w.publish_timeout <ℤ w.lock_ttl
  pub budget : pos 0 <ℤ w.max_failures
  pub policy : new_backoff_policy w.backoff.base w.backoff.max ≡ ok w.backoff

length_between-named :
    (s : Bytes)
    → is_empty s ≡ false
    → ltb 128 (rune_count s) ≡ false
    → length_between 1 128 s ≡ true
length_between-named [] h k = cc
length_between-named (b ∷ s) h k = ground (arith, rune_count_pos b s)

policy_again :
    (base max : ℤ) (p : BackoffPolicy)
    → new_backoff_policy base max ≡ ok p
    → new_backoff_policy p.base p.max ≡ ok p
unfolding new_backoff_policy
policy_again base max p h = ground arith

built :
    (cfg : WorkerConfig) (w : Worker) (r : Result Err BackoffPolicy)
    → is_empty cfg.worker_id ≡ false
    → ltb 128 (rune_count cfg.worker_id) ≡ false
    → leb_ℤ cfg.poll_interval (pos 0) ≡ false
    → leb_ℤ cfg.lock_ttl (pos 0) ≡ false
    → leb_ℤ cfg.lock_ttl cfg.publish_timeout ≡ false
    → leb_ℤ cfg.max_failures (pos 0) ≡ false
    → new_backoff_policy cfg.base_backoff cfg.max_backoff ≡ r
    → with_backoff cfg r ≡ ok w
    → IsWorker w
unfolding with_backoff
built cfg w (err x) named short polls ttl longer budget e h = cc
built cfg w (ok p) named short polls ttl longer budget e h =
    let same : w ≡ _ = sym (ok-injective h) in
    rw same (record {
      named = named;
      bounded = length_between-named cfg.worker_id named short;
      ttl = ttl;
      polls = ground arith;
      longer = ground arith;
      budget = ground arith;
      policy = policy_again _ _ p e;
    })

-- Every worker that the constructor returns has an identifier that fits its column, positive
-- intervals, a lease longer than a publish attempt, a positive failure budget and a valid policy.
pub new_worker-IsWorker :
    (store publisher logger : Bool) (cfg : WorkerConfig) (w : Worker)
    → new_worker store publisher logger cfg ≡ ok w
    → IsWorker w
unfolding new_worker
new_worker-IsWorker store publisher logger cfg w h =
    built cfg w _ (ground arith) (ground arith) (ground arith) (ground arith) (ground arith)
      (ground arith) refl (ground arith)
