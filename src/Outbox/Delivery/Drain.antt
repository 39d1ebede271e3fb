-- ===== src/Outbox/Delivery/Drain.antt =====
-- Iterations of a worker one after the other, on a healthy database: the queue empties.
use game_rewards_service.Base.{
  ◌∙◌, ℕ, ◌+◌, ◌^◌, ◌≤◌, ◌<◌, ◌≡◌, ◌⊎◌, refl, sym, ap, subst, Bool, true, false, none, some, List,
  [], ◌∷◌, inl, inr, arith, All, Result, ok, err, length, &&-eq-true,
}
use game_rewards_service.Base.Int.{pos, ◌≤ℤ◌, max_int64}
use game_rewards_service.Base.Text.{is_empty}
use game_rewards_service.Errors.{Err}
use game_rewards_service.Postgres.{Driver}
use game_rewards_service.Outbox.Row.{Row, is_final}
use game_rewards_service.Outbox.Store.{Call, event_of, claimed_row}
use game_rewards_service.Outbox.Store.Table.{ids}
use game_rewards_service.Outbox.Store.Claim.{In, find_row-In}
use game_rewards_service.Outbox.Store.Change.{due_open}
use game_rewards_service.Outbox.Store.Lease.{is_claimable}
use game_rewards_service.Outbox.Store.Totals.{total, total-replaced, All-replaced, pick}
use game_rewards_service.Outbox.Store.Transition.{Transition, moved}
use game_rewards_service.Outbox.Worker.{Worker, Store, World, Iteration, run_once}
use game_rewards_service.Outbox.Worker.Config.{IsWorker}
use game_rewards_service.Outbox.Delivery.{Database, postgres_store, decision}
use game_rewards_service.Outbox.Delivery.Iterations.{
  idle, settled, abandoned, Settled, run_once-Iterated,
}
use game_rewards_service.Outbox.Delivery.Queue.{
  attempts_left, decision-left, moved-kept, All-map, IsHealthy, IsQueue,
}

-- Calls of runOnce, one after the other, with their results.
unfoldable pub iterate :
    {S : Type 0} → Store S → Worker → List Iteration → World S → List (Result Err Bool) × World S
iterate store w [] s = ([], s)
iterate store w (it ∷ its) s =
    let (r, s') = run_once store w it s in let (rs, end) = iterate store w its s' in (r ∷ rs, end)

-- The iterations that processed an event.
unfoldable pub count_processed : List (Result Err Bool) → ℕ
count_processed [] = 0
count_processed (ok true ∷ rs) = 1 + count_processed rs
count_processed (ok false ∷ rs) = count_processed rs
count_processed (err e ∷ rs) = count_processed rs

module _ (d : Driver) (script : ℕ → Call) (w : Worker) where
  -- At some iteration, in the table that the earlier ones left, no event is due and free of another
  -- transaction's lock.
  pub data FindsNothing : List Iteration → World Database → Type 0 where
    now :
        {it : Iteration} {its : List Iteration} {s : World Database}
        → All (λ r. is_claimable (script s.store.sent) r ≡ false) s.store.table
        → FindsNothing (it ∷ its) s
    later :
        {it : Iteration} {its : List Iteration} {s : World Database}
        → FindsNothing its (run_once (postgres_store d script) w it s).1
        → FindsNothing (it ∷ its) s

none_left :
    (m : ℕ) (t : List Row) → total (attempts_left m) t ≡ 0 → All (λ r. is_final r.status ≡ true) t
unfolding total
none_left m [] h = tt
none_left m (r ∷ rs) h = (ground arith, none_left m rs (omega arith))

module _ (d : Driver) (script : ℕ → Call) (healthy : IsHealthy script) (w : Worker) (m : ℕ)
    (worker : IsWorker w) (fits : w.backoff.max ≤ℤ pos max_int64)
    (bound : w.max_failures ≡ pos m) where
  -- What an iteration that is not told to stop comes to.
  abbrev Progress : World Database → Result Err Bool × World Database → Type 0
  Progress s o =
      (All (λ r. is_claimable (script s.store.sent) r ≡ false) s.store.table
        × (o.0 ≡ ok false)
        × (o.1.store.table ≡ s.store.table))
      ⊎ ((o.0 ≡ ok true)
          × IsQueue m script o.1.store.table
          × (ids o.1.store.table ≡ ids s.store.table)
          × (total (attempts_left m) o.1.store.table + 1 ≤ total (attempts_left m) s.store.table))

  pub Settled-Progress :
      (it : Iteration) (s : World Database) (o : Result Err Bool × World Database) (r : Row)
      (move : Transition)
      → IsQueue m script s.store.table
      → In r s.store.table
      → is_final r.status ≡ false
      → decision w it (event_of r) ≡ some move
      → Settled d script w it s r move o
      → Progress s o
  Settled-Progress it s o r move queue member unfinished decided done =
      let now1 = (script s.store.sent).now in
      let now2 = (script (s.store.sent + 1)).now in
      let r' = moved d move now2 (claimed_row d w.worker_id w.lock_ttl now1 r) in
      let (less, small) = decision-left d w m it r move now1 now2 bound unfinished decided in
      let (same_id, same_time) = moved-kept d move w now1 now2 r in
      let t = s.store.table in
      let found = find_row-In r t queue.valid.distinct member in
      let sums =
        total-replaced (attempts_left m) r r' t o.1.store.table queue.valid.distinct
          done.valid.distinct done.ids found done.row done.others in
      inr (
        done.result,
        record {
          valid = done.valid;
          clock =
              All-replaced (λ q. (n : ℕ) → q.created_at ≤ (script n).now) r r' t o.1.store.table
                done.valid.distinct done.row done.others
                (λ n.
                  rw same_time
                    (pick (λ q. (k : ℕ) → q.created_at ≤ (script k).now) r t queue.clock member n))
                queue.clock;
          room =
              All-replaced (λ q. q.failed_attempts + attempts_left m q + 1 < 2 ^ 31) r r' t
                o.1.store.table done.valid.distinct done.row done.others
                (let old =
                    pick (λ q. q.failed_attempts + attempts_left m q + 1 < 2 ^ 31) r t queue.room
                      member in
                  omega arith)
                queue.room;
          named =
              All-replaced (λ q. is_empty q.id ≡ false) r r' t o.1.store.table done.valid.distinct
                done.row done.others
                (rw same_id (pick (λ q. is_empty q.id ≡ false) r t queue.named member)) queue.named;
        },
        done.ids,
        omega arith,
      )

  run_once-Progress :
      (it : Iteration) (s : World Database)
      → it.after_publish ≡ none
      → IsQueue m script s.store.table
      → Progress s (run_once (postgres_store d script) w it s)
  run_once-Progress it s busy queue =
      elim (run_once-Iterated d script w it s worker fits queue.valid (healthy.answers s.store.sent)
        (healthy.answers (s.store.sent + 1))
        (All-map _ _ s.store.table (λ r h. h s.store.sent) queue.clock)
        (healthy.ordered s.store.sent) (All-map _ _ s.store.table (λ r h. omega arith) queue.room)
        queue.named) [
          | idle free result same ↦ inl (free, result, same)
          | settled r move first decided done ↦
              Settled-Progress it s _ r move queue first.member
                (due_open (script s.store.sent).now r (&&-eq-true _ _ first.meets).0) decided done
          | abandoned r first decided left ↦ (let (x, told) = left.stopped in absurd (ground arith))
        ]

  -- Iterations that are not told to stop.
  abbrev Busy : List Iteration → Type 0
  Busy its = All (λ it. it.after_publish ≡ none) its

  -- No sequence of iterations makes more publish attempts than the events have left, and an iteration
  -- that does not process an event has found none that is claimable.
  drained :
      (its : List Iteration) (s : World Database)
      → Busy its
      → IsQueue m script s.store.table
      → (count_processed (iterate (postgres_store d script) w its s).0
            + total (attempts_left m) (iterate (postgres_store d script) w its s).1.store.table
          ≤ total (attempts_left m) s.store.table)
        × (FindsNothing d script w its s
            ⊎ (count_processed (iterate (postgres_store d script) w its s).0 ≡ length its))
  unfolding iterate count_processed
  drained [] s busy queue = (omega arith, inr refl)
  drained (it ∷ its) s busy queue =
      let next = (run_once (postgres_store d script) w it s).1 in
      elim (run_once-Progress it s busy.0 queue) [
        | inl (free, result, same) ↦
            let (most, _) =
              drained its next busy.1 (subst (λ t. IsQueue m script t) (sym same) queue) in
            let sums = ap (total (attempts_left m)) same in rw result (omega arith, inl (now free))
        | inr (result, queue', kept, less) ↦
            let (most, ends) = drained its next busy.1 queue' in
            rw result
              (omega arith, elim ends [ inl i ↦ inl (later i) | inr all_done ↦ inr (omega arith) ])
      ]

  -- No event comes or goes.
  pub ids-iterate :
      (its : List Iteration) (s : World Database)
      → Busy its
      → IsQueue m script s.store.table
      → ids (iterate (postgres_store d script) w its s).1.store.table ≡ ids s.store.table
  unfolding iterate
  ids-iterate [] s busy queue = refl
  ids-iterate (it ∷ its) s busy queue =
      let next = (run_once (postgres_store d script) w it s).1 in
      elim (run_once-Progress it s busy.0 queue) [
        | inl (free, result, same) ↦
            ids-iterate its next busy.1 (subst (λ t. IsQueue m script t) (sym same) queue)
            ∙ ap ids same
        | inr (result, queue', kept, less) ↦ ids-iterate its next busy.1 queue' ∙ kept
      ]

  -- Whatever the publisher answers, as many iterations as the unfinished events have publish attempts
  -- left publish or bury them all, or at one of the iterations no event of the table is due and free of
  -- another transaction's lock. The database is healthy, no iteration is told to stop, no event comes
  -- in, the worker is valid, and the counts of failures fit their column.
  pub drain_finishes :
      (its : List Iteration) (s : World Database)
      → Busy its
      → IsQueue m script s.store.table
      → total (attempts_left m) s.store.table ≤ length its
      → FindsNothing d script w its s
        ⊎ All
            (λ r. is_final r.status ≡ true)
            (iterate (postgres_store d script) w its s).1.store.table
  drain_finishes its s busy queue enough =
      let (most, ends) = drained its s busy queue in
      elim ends [ inl i ↦ inl i | inr all_done ↦ inr (none_left m _ (omega arith)) ]

  -- Whatever the publisher answers, the iterations process no more events, together with those that
  -- the events have left after them, than the unfinished events had publish attempts left before. The
  -- database is healthy, no iteration is told to stop, no event comes in, the worker is valid, and
  -- the counts of failures fit their column.
  pub drain_bounded :
      (its : List Iteration) (s : World Database)
      → Busy its
      → IsQueue m script s.store.table
      → count_processed (iterate (postgres_store d script) w its s).0
          + total (attempts_left m) (iterate (postgres_store d script) w its s).1.store.table
        ≤ total (attempts_left m) s.store.table
  drain_bounded its s busy queue = (drained its s busy queue).0
