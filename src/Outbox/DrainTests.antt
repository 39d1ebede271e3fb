-- ===== src/Outbox/DrainTests.antt =====
-- Iterations on a small queue, on which the theorems about a run of the worker are tried.
use game_rewards_service.Base.{some, ◌+◌, ◌≤◌, ◌≡◌, ◌⊎◌, refl, true, none, [], ◌∷◌, arith, All}
use game_rewards_service.Outbox.Row.{Row, published, is_final, satisfies}
use game_rewards_service.Outbox.Store.Totals.{total}
use game_rewards_service.Outbox.Delivery.{postgres_store}
use game_rewards_service.Outbox.Delivery.Queue.{attempts_left, IsHealthy, IsQueue}
use game_rewards_service.Outbox.Delivery.Drain.{
  iterate, count_processed, FindsNothing, drain_finishes, drain_bounded,
}
use game_rewards_service.Base.Text.{bytes, str_eq}
use game_rewards_service.Rewards.Create.Rows.{new_event}
use game_rewards_service.Rewards.Samples.{fresh_ids}
use game_rewards_service.Outbox.Store.Table.{find_row}
use game_rewards_service.Outbox.Delivery.Enqueued.{outbox_row, enqueue_publishes}
use game_rewards_service.Outbox.Worker.{Iteration}
use game_rewards_service.Outbox.Samples.{
  waiting, driver, table, script, table-IsValid, worker, worker-IsWorker, failing, start,
}

healthy : IsHealthy script
healthy = record { answers = λ n. refl; ordered = λ n. omega arith }

queued : IsQueue 2 script table
queued = record {
  valid = table-IsValid;
  clock = (λ n. omega arith, (λ n. omega arith, (λ n. omega arith, tt)));
  room = (omega arith, (omega arith, (omega arith, tt)));
  named = (refl, (refl, (refl, tt)));
}

-- Each of the two events may fail once more.
drain_finishes_example :
    FindsNothing driver script worker (failing ∷ failing ∷ []) start
    ⊎ All
        (λ r. is_final r.status ≡ true)
        (iterate (postgres_store driver script) worker (failing ∷ failing ∷ []) start).1.store.table
unfolding total
drain_finishes_example =
    drain_finishes driver script healthy worker 2 worker-IsWorker (omega arith) refl
      (failing ∷ failing ∷ []) start (refl, (refl, tt)) queued (omega arith)

drain_bounded_example :
    count_processed (iterate (postgres_store driver script) worker (failing ∷ []) start).0
      + total
          (attempts_left 2)
          (iterate (postgres_store driver script) worker (failing ∷ []) start).1.store.table
    ≤ 2
unfolding total
drain_bounded_example =
    drain_bounded driver script healthy worker 2 worker-IsWorker (omega arith) refl (failing ∷ [])
      start (refl, tt) queued

abbrev accepting : Iteration
accepting = record failing { publish = λ e. none }

abbrev claimed_event : Row
claimed_event = outbox_row 10 (new_event fresh_ids (bytes "{}"))

-- The event of a claim, while event b waits.
enqueue_publishes_example :
    (r : Row) × (find_row
        (bytes "e1")
        (iterate (postgres_store driver script) worker (accepting ∷ accepting ∷ []) (record {
          store = record { table = claimed_event ∷ waiting ∷ []; sent = 0 };
          observed = [];
        })).1.store.table
      ≡ some r)
    × (r.status ≡ published)
unfolding total str_eq satisfies
enqueue_publishes_example =
    enqueue_publishes script 2 10 (new_event fresh_ids (bytes "{}")) (waiting ∷ [])
      (record {
        valid = record { distinct = (tt, tt); rows = (refl, tt) };
        clock = (λ n. omega arith, tt);
        room = (omega arith, tt);
        named = (refl, tt);
      })
      (omega arith) (omega arith) refl (refl, tt) (λ n. omega arith) driver healthy worker
      worker-IsWorker (omega arith) refl (accepting ∷ accepting ∷ []) 0 [] (λ n. refl)
      ((refl, λ e. refl), ((refl, λ e. refl), tt)) (omega arith)
