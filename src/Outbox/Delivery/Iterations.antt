-- ===== src/Outbox/Delivery/Iterations.antt =====
-- One whole iteration of a worker on a healthy database.
use game_rewards_service.Base.{
  ℕ, ◌+◌, ◌^◌, ◌≤◌, ◌<◌, ◌≡◌, ◌≢◌, refl, ◌∙◌, Bool, true, false, Option, none, some, List, [], ◌∷◌,
  ◌++◌, arith, All, Result, ok, inl, inr, subst,
}
use game_rewards_service.Base.Int.{pos, ◌≤ℤ◌, max_int64}
use game_rewards_service.Base.Text.{Bytes, str_eq, str_eq_refl, is_empty}
use game_rewards_service.Errors.{Err, Sentinel}
use game_rewards_service.Postgres.{Driver}
use game_rewards_service.Outbox.Observer.{claimed, observe_claim, observe_publish}
use game_rewards_service.Outbox.Row.{Row}
use game_rewards_service.Outbox.Store.{
  Call, Event, answered, event_of, claimed_row, claim_next, is_held,
}
use game_rewards_service.Outbox.Store.Table.{find_row, ids}
use game_rewards_service.Outbox.Store.Claim.{IsFirst}
use game_rewards_service.Outbox.Store.Totals.{pick}
use game_rewards_service.Outbox.Store.Lease.{is_claimable, Claimed, claim_next-outcome}
use game_rewards_service.Outbox.Store.Change.{
  Change, claim_next-Change, perform-Change, Change-IsValid, Change-ids,
}
use game_rewards_service.Outbox.Store.Transition.{IsValid, Transition, moved, perform, perform-held}
use game_rewards_service.Outbox.Worker.{Worker, World, Iteration, run_once, process_event, conclude}
use game_rewards_service.Outbox.Worker.Config.{IsWorker}
use game_rewards_service.Outbox.Delivery.{
  Database, postgres_store, decision, done_observation, outcome, process_event-perform,
  process_event-stopped,
}
use game_rewards_service.Outbox.Delivery.Requests.{decision-IsPermitted}

module _ (d : Driver) (script : ℕ → Call) (w : Worker) (it : Iteration) (s : World Database) where
  abbrev pub first_call : Call
  first_call = script s.store.sent

  abbrev pub second_call : Call
  second_call = script (s.store.sent + 1)

  -- The claimed row gets the transition that the worker decides on, and all other rows stay; the
  -- table stays valid.
  pub record Settled (r : Row) (m : Transition) (o : Result Err Bool × World Database)
      : Type 0 where
    pub result : o.0 ≡ ok true
    pub row :
        find_row r.id o.1.store.table
        ≡ some (moved d m second_call.now (claimed_row d w.worker_id w.lock_ttl first_call.now r))
    pub others :
        (i : Bytes) → str_eq r.id i ≡ false → find_row i o.1.store.table ≡ find_row i s.store.table
    pub ids : ids o.1.store.table ≡ ids s.store.table
    pub valid : IsValid o.1.store.table
    pub observations :
        o.1.observed
        ≡ ((s.observed ++ observe_claim claimed ∷ [])
            ++ observe_publish r.event_type (outcome d script w it (event_of r)) ∷ [])
          ++ done_observation (event_of r) m ∷ []

  -- The worker was told to stop while publishing: the event stays leased, for recovery after the
  -- lease runs out, and no failure is recorded.
  pub record Abandoned (r : Row) (o : Result Err Bool × World Database) : Type 0 where
    pub stopped : (x : Sentinel) × (it.after_publish ≡ some x)
    pub result : o.0 ≢ ok true
    pub row :
        find_row r.id o.1.store.table ≡ some (claimed_row d w.worker_id w.lock_ttl first_call.now r)
    pub others :
        (i : Bytes) → str_eq r.id i ≡ false → find_row i o.1.store.table ≡ find_row i s.store.table

  pub data Iterated (o : Result Err Bool × World Database) : Type 0 where
    idle :
        All (λ r. is_claimable first_call r ≡ false) s.store.table
        → o.0 ≡ ok false
        → o.1.store.table ≡ s.store.table
        → Iterated o
    settled :
        (r : Row) (m : Transition)
        → IsFirst (is_claimable first_call) s.store.table r
        → decision w it (event_of r) ≡ some m
        → Settled r m o
        → Iterated o
    abandoned :
        (r : Row)
        → IsFirst (is_claimable first_call) s.store.table r
        → decision w it (event_of r) ≡ none
        → Abandoned r o
        → Iterated o

  abbrev claimed_world : List Row → World Database
  claimed_world t' = record {
    store = record { table = t'; sent = s.store.sent + 1 };
    observed = s.observed ++ observe_claim claimed ∷ [];
  }

  run_once-claimed :
      (e : Event) (t' : List Row)
      → claim_next d w.worker_id w.lock_ttl first_call s.store.table ≡ (ok (some e), t')
      → run_once (postgres_store d script) w it s
        ≡ conclude
            (postgres_store d script)
            w
            (process_event (postgres_store d script) w it e (claimed_world t'))
  unfolding run_once postgres_store
  run_once-claimed e t' h = rw h

  held :
      (r : Row)
      → is_held r.id w.worker_id (claimed_row d w.worker_id w.lock_ttl first_call.now r) ≡ true
  unfolding is_held
  held r = ground (arith, str_eq_refl r.id, str_eq_refl w.worker_id)

  abandon :
      (r : Row) (t' : List Row)
      → claim_next d w.worker_id w.lock_ttl first_call s.store.table ≡ (ok (some (event_of r)), t')
      → Claimed d w.worker_id w.lock_ttl first_call s.store.table t' r
      → decision w it (event_of r) ≡ none
      → Abandoned r (run_once (postgres_store d script) w it s)
  unfolding conclude
  abandon r t' claims lease decided =
      let (x, told, left) =
        process_event-stopped d script w it (event_of r) (claimed_world t') decided in
      rw (run_once-claimed (event_of r) t' claims, left)
        (record {
          stopped = (x, told);
          result = ground arith;
          row = lease.leased;
          others = lease.others;
        })

  idle_turn :
      claim_next d w.worker_id w.lock_ttl first_call s.store.table ≡ (ok none, s.store.table)
      → ((run_once (postgres_store d script) w it s).0 ≡ ok false)
        × ((run_once (postgres_store d script) w it s).1.store.table ≡ s.store.table)
  unfolding run_once postgres_store
  idle_turn h = (rw h, rw h)

module _ (d : Driver) (script : ℕ → Call) (w : Worker) (it : Iteration) (s : World Database)
    (worker : IsWorker w) (fits : w.backoff.max ≤ℤ pos max_int64) (valid : IsValid s.store.table)
    (claim_answered : (script s.store.sent).reply ≡ answered)
    (move_answered : (script (s.store.sent + 1)).reply ≡ answered)
    (clock : All (λ r. r.created_at ≤ (script s.store.sent).now) s.store.table)
    (later : (script s.store.sent).now ≤ (script (s.store.sent + 1)).now)
    (room : All (λ r. r.failed_attempts + 1 < 2 ^ 31) s.store.table)
    (named : All (λ r. is_empty r.id ≡ false) s.store.table) where
  settle-Claimed :
      (r : Row) (t' : List Row) (m : Transition)
      → claim_next d w.worker_id w.lock_ttl (script s.store.sent) s.store.table
        ≡ (ok (some (event_of r)), t')
      → Claimed d w.worker_id w.lock_ttl (script s.store.sent) s.store.table t' r
      → Change s.store.table t'
      → IsValid t'
      → decision w it (event_of r) ≡ some m
      → Settled d script w it s r m (run_once (postgres_store d script) w it s)
  unfolding conclude
  settle-Claimed r t' m claims lease taken valid' decided =
      let member = lease.first.member in
      let moved_by : (t' t2 : List Row)
          → perform d w.worker_id r.id m (script (s.store.sent + 1)) t' ≡ (ok tt, t2)
          → Change t' t2 =
        λ t' t2 did.
          subst (λ q. Change t' q.1) did
            (perform-Change d w.worker_id r.id m (script (s.store.sent + 1)) t') in
      let leased_row = claimed_row d w.worker_id w.lock_ttl (script s.store.sent).now r in
      let permitted =
        decision-IsPermitted w it (event_of r) m leased_row worker fits refl
          (pick (λ q. q.failed_attempts + 1 < 2 ^ 31) r s.store.table room member) decided in
      let moment =
        pick (λ q. q.created_at ≤ (script s.store.sent).now) r s.store.table clock member in
      let (t2, did, row, others) =
        perform-held d w.worker_id r.id m (script (s.store.sent + 1)) valid' worker.named
          (pick (λ q. is_empty q.id ≡ false) r s.store.table named member) move_answered leased_row
          permitted lease.leased (held d script w it s r) (omega arith) in
      let finished =
        process_event-perform d script w it (event_of r) m t2 (claimed_world d script w it s t')
          decided did in
      rw (run_once-claimed d script w it s (event_of r) t' claims, finished)
        (record {
          result = refl;
          row = row;
          others = λ i apart. others i apart ∙ lease.others i apart;
          ids = Change-ids (moved_by t' t2 did) ∙ Change-ids taken;
          valid = Change-IsValid (moved_by t' t2 did) valid';
          observations = refl;
        })

  settle_or_abandon :
      (r : Row) (t' : List Row) (o : Option Transition)
      → claim_next d w.worker_id w.lock_ttl (script s.store.sent) s.store.table
        ≡ (ok (some (event_of r)), t')
      → Claimed d w.worker_id w.lock_ttl (script s.store.sent) s.store.table t' r
      → Change s.store.table t'
      → IsValid t'
      → decision w it (event_of r) ≡ o
      → Iterated d script w it s (run_once (postgres_store d script) w it s)
  settle_or_abandon r t' none claims lease taken valid' e =
      abandoned r lease.first e (abandon d script w it s r t' claims lease e)
  settle_or_abandon r t' (some m) claims lease taken valid' e =
      settled r m lease.first e (settle-Claimed r t' m claims lease taken valid' e)

  -- On a healthy database an iteration finds nothing to claim and changes nothing; or it claims a
  -- first claimable row and makes exactly the transition that it decides on; or it is told to stop
  -- during the publish attempt, and leaves the row leased.
  pub run_once-Iterated : Iterated d script w it s (run_once (postgres_store d script) w it s)
  run_once-Iterated =
      elim (claim_next-outcome d w.worker_id w.lock_ttl (script s.store.sent) valid worker.named
        worker.bounded worker.ttl claim_answered clock) [
          | inl (free, e) ↦
              let (result, same) = idle_turn d script w it s e in idle free result same
          | inr (r, t', e, lease) ↦
              let taken =
                subst (λ q. Change s.store.table q.1) e
                  (claim_next-Change d w.worker_id w.lock_ttl (script s.store.sent) s.store.table
                    valid.distinct) in
              settle_or_abandon r t' (decision w it (event_of r)) e lease taken
                (Change-IsValid taken valid) refl
        ]
