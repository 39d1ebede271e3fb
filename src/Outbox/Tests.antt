-- ===== src/Outbox/Tests.antt =====
-- The theorems on internal/outbox at concrete inputs: two workers, a table of three events.
use game_rewards_service.Base.{
  ◌*◌, ◌^◌, ◌≡◌, refl, sym, ap, false, none, some, List, [], ◌∷◌, arith, ok, err, inl,
}
use Prim.Native.Nat.{min}
use game_rewards_service.Base.Int.{pos}
use game_rewards_service.Base.Text.{Bytes, bytes, str_eq, str_leb}
use game_rewards_service.Base.Text.Utf8.{rune_count}
use game_rewards_service.Errors.{
  Err, sentinel, message, wrap, lease_lost, is, store_unavailable, is_context_error,
}
use game_rewards_service.Outbox.Observer.{failed}
use game_rewards_service.Outbox.Row.{Row, satisfies, before}
use game_rewards_service.Outbox.Backoff.{new_backoff_policy, retry_delay, retry_delay-capped}
use game_rewards_service.Outbox.Store.{is_due, is_held, claimed_row, event_of, claim_next}
use game_rewards_service.Outbox.Store.Table.{find_row}
use game_rewards_service.Outbox.Store.Lease.{Claimed, Outcome, claim_next-outcome, lease_fences}
use game_rewards_service.Outbox.Store.Leased.{nothing_yet, after, lease_excludes_claims}
use game_rewards_service.Outbox.Store.Transition.{
  IsValid, publish, bury, moved, perform, perform-held, perform-lost,
}
use game_rewards_service.Outbox.Store.History.{
  Cluster, Step, claims, performs, elapses, Reach, here, next, Reach-final, Reach-attempts, AtLeast,
}
use game_rewards_service.Outbox.Worker.{Store, WorkerConfig, World, run_once}
use game_rewards_service.Outbox.Run.{done, fire, fatal, run}
use game_rewards_service.Outbox.Run.Stops.{Fails, run-fatal, Runs, run-Runs}
use game_rewards_service.Outbox.Delivery.{postgres_store}
use game_rewards_service.Outbox.Delivery.Iterations.{Iterated, run_once-Iterated}
use game_rewards_service.Outbox.Samples.{
  driver, waiting, leased, finished, table, call, script, table-IsValid, worker, worker-IsWorker,
  failing, start,
}

retry_delay-capped_example :
    retry_delay (record { base = pos 1_000; max = pos 6_000 }) (pos 4)
    ≡ pos (min (1_000 * 2 ^ 3) 6_000)
unfolding new_backoff_policy
retry_delay-capped_example = retry_delay-capped (pos 1_000) (pos 6_000) 3 refl (omega arith)

delays_cap : retry_delay (record { base = pos 1_000; max = pos 6_000 }) (pos 4) ≡ pos 6_000
unfolding retry_delay
delays_cap = refl

-- The worker w1 holds event a.
perform-held_example :
    (t' : List Row) × (perform driver (bytes "w1") (bytes "a") (bury failed) (call 20) table
      ≡ (ok tt, t'))
    × (find_row (bytes "a") t' ≡ some (moved driver (bury failed) 20 leased))
    × ((i : Bytes) → str_eq (bytes "a") i ≡ false → find_row i t' ≡ find_row i table)
unfolding find_row is_held str_eq
perform-held_example =
    perform-held driver (bytes "w1") (bytes "a") (bury failed) (call 20) table-IsValid refl refl
      refl leased (refl, omega arith) refl refl (omega arith)

-- The worker w2 does not.
perform-lost_example :
    perform driver (bytes "w2") (bytes "a") publish (call 20) table
    ≡ (err (wrap "mark outbox event published" (sentinel lease_lost)), table)
unfolding find_row is_held str_eq
perform-lost_example =
    perform-lost driver (bytes "w2") (bytes "a") publish (call 20) table-IsValid refl refl refl
      leased tt refl

-- At time 95 the lease on a has run out; a and b became available together.
claim_next-outcome_example :
    Outcome driver
      (bytes "w2")
      (pos 30_000)
      (call 95)
      table
      (claim_next driver (bytes "w2") (pos 30_000) (call 95) table)
unfolding rune_count
claim_next-outcome_example =
    claim_next-outcome driver (bytes "w2") (pos 30_000) (call 95) table-IsValid refl refl refl refl
      (omega arith)

abbrev reclaimed : Row
reclaimed = claimed_row driver (bytes "w2") (pos 30_000) 95 leased

abbrev claimed_table : List Row
claimed_table = reclaimed ∷ waiting ∷ finished ∷ []

claims_a :
    claim_next driver (bytes "w2") (pos 30_000) (call 95) table
    ≡ (ok (some (event_of leased)), claimed_table)
unfolding claim_next before str_eq str_leb rune_count
claims_a = refl

a-Claimed : Claimed driver (bytes "w2") (pos 30_000) (call 95) table claimed_table leased
unfolding is_due before find_row str_eq str_leb
a-Claimed = record {
  first = record {
    member = inl refl;
    meets = refl;
    least = (λ h. refl, (λ h. refl, (λ h. cc, tt)));
  };
  leased = refl;
  others = λ i h. rw h;
}

claimed_table-IsValid : IsValid claimed_table
unfolding satisfies str_eq rune_count
claimed_table-IsValid = record {
  distinct = ((refl, (refl, tt)), ((refl, tt), (tt, tt)));
  rows = (refl, (refl, (refl, tt)));
}

-- w1, whose lease had run out, can no longer publish event a.
lease_fences_example :
    perform driver (bytes "w1") (bytes "a") publish (call 97) claimed_table
    ≡ (err (wrap "mark outbox event published" (sentinel lease_lost)), claimed_table)
unfolding str_eq
lease_fences_example =
    lease_fences driver (bytes "w2") (pos 30_000) (call 95) leased a-Claimed (bytes "w1") publish
      (call 97) claimed_table-IsValid refl refl refl refl tt

abbrev after_claim : Cluster
after_claim = record {
  now = 95;
  table = (claim_next driver (bytes "w2") (pos 30_000) (call 95) table).1;
}

Reach-claim : Reach driver (record { now = 90; table = table }) after_claim
Reach-claim = next (next here (elapses 5 refl)) (claims (bytes "w2") (pos 30_000) (call 95) refl)

Reach-final_example : find_row (bytes "d") after_claim.table ≡ some finished
unfolding find_row str_eq
Reach-final_example = Reach-final (bytes "d") finished Reach-claim table-IsValid refl refl

Reach-attempts_example : AtLeast (bytes "b") 1 after_claim.table
unfolding find_row str_eq
Reach-attempts_example =
    Reach-attempts (bytes "b") 1 Reach-claim table-IsValid (waiting, refl, omega arith)

-- w1 fails to publish event a, then w3 claims b at time 96.
abbrev held_cluster : Cluster
held_cluster = record { now = 95; table = claimed_table }

lost_publish : Step driver held_cluster held_cluster
unfolding str_eq
lost_publish = performs (bytes "w1") (bytes "a") publish (call 95) (
    ap (λ o. record { now = 95; table = o.1 })
      (sym (
        lease_fences driver (bytes "w2") (pos 30_000) (call 95) leased a-Claimed (bytes "w1")
          publish (call 95) claimed_table-IsValid refl refl refl refl tt)))

lease_excludes_claims_example : str_eq (bytes "a") (bytes "b") ≡ false
unfolding claim_next before str_eq str_leb rune_count lost_publish
lease_excludes_claims_example =
    lease_excludes_claims driver (bytes "w2") (pos 30_000) (call 95) {s = held_cluster}
      {s' = held_cluster} leased a-Claimed claimed_table-IsValid
      (after nothing_yet lost_publish (inl refl)) (bytes "w3") (pos 30_000) (call 96)
      (event_of waiting) refl refl refl refl (omega arith) (omega arith) refl

abbrev worker_config : WorkerConfig
worker_config = record {
  worker_id = bytes "w2";
  poll_interval = pos 1_000_000;
  lock_ttl = pos 30_000_000;
  publish_timeout = pos 5_000_000;
  max_failures = pos 2;
  base_backoff = pos 1_000_000;
  max_backoff = pos 60_000_000;
}

-- Its second failure buries event a.
run_once-Iterated_example :
    Iterated driver script worker failing start
      (run_once (postgres_store driver script) worker failing start)
run_once-Iterated_example =
    run_once-Iterated driver script worker failing start worker-IsWorker (omega arith) table-IsValid
      refl refl (omega arith) (omega arith) (omega arith) (refl, (refl, (refl, tt)))

-- A store whose claims always fail with `e`.
abbrev broken : Err → Store (Unit {0})
broken e = record {
  claim_next = λ w ttl s. (err e, s);
  mark_published = λ w i s. (err e, s);
  schedule_retry = λ w i delay o s. (err e, s);
  mark_dead_letter = λ w i o s. (err e, s);
}

abbrev empty_world : World (Unit {0})
empty_world = record { store = tt; observed = [] }

run-fatal_example :
    (fatal ≡ fatal) × Fails (broken (message "bug")) worker (fire failing ∷ done ∷ []) empty_world
unfolding run run_once is is_context_error
run-fatal_example =
    run-fatal (broken (message "bug")) worker none none (fire failing ∷ done ∷ []) empty_world fatal
      refl

run-Runs_example :
    Runs
      (broken (sentinel store_unavailable))
      worker
      (fire failing ∷ done ∷ [])
      empty_world
      (run
        (broken (sentinel store_unavailable))
        worker
        none
        none
        (fire failing ∷ done ∷ [])
        empty_world).waits
      (run
        (broken (sentinel store_unavailable))
        worker
        none
        none
        (fire failing ∷ done ∷ [])
        empty_world).exit
      (run
        (broken (sentinel store_unavailable))
        worker
        none
        none
        (fire failing ∷ done ∷ [])
        empty_world).world
run-Runs_example =
    run-Runs (broken (sentinel store_unavailable)) worker (fire failing ∷ done ∷ []) empty_world
