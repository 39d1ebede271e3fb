-- ===== src/Outbox/Delivery/Enqueued.antt =====
-- The event that internal/rewards/postgres.go inserts, in the table that the worker reads.
use game_rewards_service.Base.{
  ℕ, ◌+◌, ◌^◌, ◌≤◌, ◌<◌, ◌≡◌, true, false, none, some, List, [], ◌∷◌, inr, arith, All, length,
}
use game_rewards_service.Base.Int.{pos, ◌≤ℤ◌, max_int64}
use game_rewards_service.Base.Text.{Bytes, str_eq, is_empty}
use game_rewards_service.Postgres.{Driver}
use game_rewards_service.Rewards.Tables.{EventRow}
use game_rewards_service.Outbox.Observer.{Observation}
use game_rewards_service.Outbox.Row.{Row, pending, published, satisfies}
use game_rewards_service.Outbox.Store.{Call, is_due}
use game_rewards_service.Outbox.Store.Table.{find_row}
use game_rewards_service.Outbox.Store.Totals.{total, find_row-head}
use game_rewards_service.Outbox.Worker.{Worker, World, Iteration}
use game_rewards_service.Outbox.Worker.Config.{IsWorker}
use game_rewards_service.Outbox.Delivery.{Database, postgres_store}
use game_rewards_service.Outbox.Delivery.Queue.{IsHealthy, IsQueue}
use game_rewards_service.Outbox.Delivery.Drain.{iterate}
use game_rewards_service.Outbox.Delivery.Publishes.{unfinished, Accepts, IsOnTime, publishes}

-- The row of an event that is inserted at `now`: the other columns take their defaults.
abbrev pub outbox_row : ℕ → EventRow → Row
outbox_row now e = record {
  id = e.id;
  aggregate_type = e.aggregate_type;
  aggregate_id = e.aggregate_id;
  event_type = e.event_type;
  payload = e.payload;
  status = pending;
  failed_attempts = 0;
  available_at = now;
  last_failure_reason = none;
  locked_by = none;
  locked_until = none;
  created_at = now;
  updated_at = now;
  published_at = none;
  dead_lettered_at = none;
}

outbox_row-satisfies : (now : ℕ) (e : EventRow) → satisfies (outbox_row now e) ≡ true
unfolding satisfies
outbox_row-satisfies now e = ground arith

other-IsOnTime :
    (script : ℕ → Call) (i : Bytes) (t : List Row)
    → All (λ q. str_eq q.id i ≡ false) t
    → All (IsOnTime script i) t
other-IsOnTime script i [] h = tt
other-IsOnTime script i (q ∷ qs) h =
    ((λ same. let other = h.0 in cc), other-IsOnTime script i qs h.1)

module _ (script : ℕ → Call) (m : ℕ) (now : ℕ) (e : EventRow) (t : List Row)
    (queue : IsQueue m script t) (some_failures : 0 < m) (room : m + 1 < 2 ^ 31)
    (named : is_empty e.id ≡ false) (fresh : All (λ q. str_eq q.id e.id ≡ false) t)
    (clock : (n : ℕ) → now ≤ (script n).now) where
  enqueued-IsQueue : IsQueue m script (outbox_row now e ∷ t)
  enqueued-IsQueue = record {
    valid = record {
      distinct = (fresh, queue.valid.distinct);
      rows = (outbox_row-satisfies now e, queue.valid.rows);
    };
    clock = (clock, queue.clock);
    room = (omega arith, queue.room);
    named = (named, queue.named);
  }

  outbox_row-is_due : (n : ℕ) → is_due (script n).now (outbox_row now e) ≡ true
  unfolding is_due
  outbox_row-is_due n = let before = clock n in ground arith

  -- An event that a claim's transaction inserts is published, and not buried, once the worker has had
  -- as many iterations as there are unfinished events with it, due or not. The publisher accepts every
  -- event, no iteration is told to stop, no other transaction locks the event's row, the database is
  -- healthy, its clock is not before the insert, no further event comes in, the event's identifier is
  -- new, the worker is valid, and the counts of failures fit their column.
  pub enqueue_publishes :
      (d : Driver) (healthy : IsHealthy script) (w : Worker) (worker : IsWorker w)
      (fits : w.backoff.max ≤ℤ pos max_int64) (bound : w.max_failures ≡ pos m)
      (its : List Iteration) (sent : ℕ) (observed : List Observation)
      → ((n : ℕ) → (script n).skip_locked e.id ≡ false)
      → All Accepts its
      → 1 + total unfinished t ≤ length its
      → let s : World Database = record {
        store = record { table = outbox_row now e ∷ t; sent = sent };
        observed = observed;
      } in
        (r : Row) × (find_row e.id (iterate (postgres_store d script) w its s).1.store.table
          ≡ some r)
        × (r.status ≡ published)
  unfolding total
  enqueue_publishes d healthy w worker fits bound its sent observed unlocked accept enough =
      publishes d script healthy w m worker fits bound e.id unlocked its
        (record {
          store = record { table = outbox_row now e ∷ t; sent = sent };
          observed = observed;
        })
        (outbox_row now e) accept
        (record {
          queue = enqueued-IsQueue;
          on_time = (λ same. inr outbox_row-is_due, other-IsOnTime script e.id t fresh);
        })
        (omega arith) (find_row-head (outbox_row now e) t)
