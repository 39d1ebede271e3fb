-- ===== src/Outbox/Store.antt =====
-- internal/outbox/store.go and event.go: the PostgreSQL store, statement by statement.
pub mod Table
pub mod Transition
pub mod Claim
pub mod Lease
pub mod Change
pub mod History
pub mod Leased
pub mod Totals
use Prim.Native.String.{String}
use game_rewards_service.Base.{
  ℕ, suc, ◌+◌, ◌≡◌, Bool, true, false, not, ◌&&◌, ◌||◌, Option, none, some, List, [], ◌∷◌, leb, ltb,
  ◌==◌, if◌then◌else◌, Result, ok, err,
}
use game_rewards_service.Base.Int.{ℤ, pos, leb_ℤ}
use game_rewards_service.Base.Text.{Bytes, bytes, str_eq, is_empty}
use game_rewards_service.Errors.{
  Err, sentinel, message, wrap, is, is_context_error, Sentinel, Context, no_rows, lease_lost,
  store_unavailable, store_internal, outbox_query_timeout,
}
use game_rewards_service.Postgres.{Driver, is_unavailable}
use game_rewards_service.Outbox.Observer.{PublishOutcome}
use game_rewards_service.Outbox.Row.{
  Row, Status, pending, processing, published, dead_letter, exec_update, first_where,
}

-- event.go
pub record Event : Type 0 where
  pub id : Bytes
  pub aggregate_type : Bytes
  pub aggregate_id : Bytes
  pub event_type : Bytes
  pub payload : Bytes
  pub failed_attempts : ℕ

-- What comes back of a statement: its answer, or an error of the driver, with whether the server
-- had committed the statement when the answer was lost.
pub data Reply : Type 0 where
  answered : Reply
  lost : Err → Bool → Reply

-- The surroundings of one statement: the server's `now()`, the rows that other transactions hold
-- locked, the reply, and queryCtx as mapPostgresError reads it.
pub record Call : Type 0 where
  pub now : ℕ
  pub skip_locked : Bytes → Bool
  pub reply : Reply
  pub ctx : Context

wrap_context : Option Sentinel → Err → Err
wrap_context none e = e
wrap_context (some s) e = sentinel s

-- The context's `nil` case does not arise: every caller passes queryCtx.
unfoldable pub map_postgres_error : Driver → Context → Err → Err
unfolding wrap_context
map_postgres_error d ctx e =
    if is e no_rows
    then wrap "postgres outbox operation returned no row" (sentinel store_internal)
    else if is_context_error ctx.error e
    then (if is ctx.cause outbox_query_timeout
        then wrap "postgres outbox operation" (sentinel store_unavailable)
        else wrap_context ctx.error e)
    else if is_unavailable d e
    then wrap "postgres outbox operation" (sentinel store_unavailable)
    else wrap "postgres outbox operation" (sentinel store_internal)

-- The store: the pool's table of events. Its query timeout shows in `Call.ctx`.
unfoldable pub new_postgres_store : Bool → ℤ → Result Err ℤ
new_postgres_store has_pool query_timeout =
    if not has_pool
    then err (message "postgres outbox pool is required")
    else if leb_ℤ query_timeout (pos 0)
    then err (message "postgres outbox query timeout must be greater than zero")
    else ok query_timeout

committed {ℓ} : {A : Type ℓ} → Result Err (A × List Row) → List Row → List Row
committed (ok (a, table')) table = table'
committed (err e) table = table

answer {ℓ} : {A : Type ℓ} → Result Err (A × List Row) → Result Err A
answer (ok (a, table')) = ok a
answer (err e) = err e

-- A statement that runs in a transaction of its own.
unfoldable pub deliver {ℓ} :
    {A : Type ℓ} → Reply → Result Err (A × List Row) → List Row → Result Err A × List Row
unfolding committed answer
deliver answered r table = (answer r, committed r table)
deliver (lost e done) r table = (err e, if done then committed r table else table)

unfoldable pub is_due : ℕ → Row → Bool
is_due now r = elim r.status [
  | pending ↦ leb r.available_at now
  | processing ↦ elim r.locked_until [ none ↦ false | some t ↦ leb t now ]
  | published ↦ false
  | dead_letter ↦ false
]

abbrev pub claimed_row : Driver → Bytes → ℤ → ℕ → Row → Row
claimed_row d worker_id lock_ttl now r = record r {
  status = processing;
  locked_by = some worker_id;
  locked_until = some (now + d.interval lock_ttl);
  updated_at = now;
}

abbrev pub event_of : Row → Event
event_of r = record {
  id = r.id;
  aggregate_type = r.aggregate_type;
  aggregate_id = r.aggregate_id;
  event_type = r.event_type;
  payload = r.payload;
  failed_attempts = r.failed_attempts;
}

pub returning : Event → Result Err (ℕ × List Row) → Result Err (Option Event × List Row)
returning e (ok (n, table)) = ok (some e, table)
returning e (err f) = err f

-- The statement of ClaimNext; `none` stands for pgx.ErrNoRows.
unfoldable pub claim_statement :
    Driver → Bytes → ℤ → Call → List Row → Result Err (Option Event × List Row)
unfolding first_where exec_update returning is_due
claim_statement d worker_id lock_ttl c table =
    elim (first_where (λ r. is_due c.now r && not (c.skip_locked r.id)) table) [
      | none ↦ ok (none, table)
      | some r ↦
          returning (event_of r)
            (exec_update (λ o. str_eq o.id r.id) (claimed_row d worker_id lock_ttl c.now) table)
    ]

-- The answer of a claim as Go sees it: no row is no error.
claim_result : Driver → Context → Result Err (Option Event) → Result Err (Option Event)
claim_result d ctx (ok o) = ok o
claim_result d ctx (err e) =
    if is e no_rows
    then ok none
    else err (wrap "claim next outbox event" (map_postgres_error d ctx e))

unfoldable pub claim_next :
    Driver → Bytes → ℤ → Call → List Row → Result Err (Option Event) × List Row
unfolding claim_statement deliver claim_result
claim_next d worker_id lock_ttl c table =
    if is_empty worker_id
    then (err (message "worker id must not be empty"), table)
    else if leb_ℤ lock_ttl (pos 0)
    then (err (message "lock ttl must be greater than zero"), table)
    else (let (r, table') = deliver c.reply (claim_statement d worker_id lock_ttl c table) table in
        (claim_result d c.ctx r, table'))

-- WHERE id = $1 AND status = 'processing' AND locked_by = $2.
unfoldable pub is_held : Bytes → Bytes → Row → Bool
is_held event_id worker_id r = elim r.status [
  | processing ↦
      str_eq r.id event_id && elim r.locked_by [ none ↦ false | some w ↦ str_eq w worker_id ]
  | pending ↦ false
  | published ↦ false
  | dead_letter ↦ false
]

abbrev pub published_row : ℕ → Row → Row
published_row now r = record r {
  status = published;
  published_at = some now;
  locked_by = none;
  locked_until = none;
  updated_at = now;
}

abbrev pub retried_row : Driver → ℤ → PublishOutcome → ℕ → Row → Row
retried_row d delay outcome now r = record r {
  status = pending;
  failed_attempts = r.failed_attempts + 1;
  available_at = now + d.interval delay;
  locked_by = none;
  locked_until = none;
  last_failure_reason = some outcome;
  updated_at = now;
}

abbrev pub dead_lettered_row : PublishOutcome → ℕ → Row → Row
dead_lettered_row outcome now r = record r {
  status = dead_letter;
  failed_attempts = r.failed_attempts + 1;
  dead_lettered_at = some now;
  locked_by = none;
  locked_until = none;
  last_failure_reason = some outcome;
  updated_at = now;
}

-- The end of the three transitions: exactly one row was affected, or the lease is lost.
finish : Driver → String → Context → Result Err ℕ → Result Err (Unit {0})
finish d label ctx (err e) = err (wrap label (map_postgres_error d ctx e))
finish d label ctx (ok n) = if n == 1 then ok tt else err (wrap label (sentinel lease_lost))

-- `UPDATE outbox_events SET … WHERE id = $1 AND status = 'processing' AND locked_by = $2`.
unfoldable pub transition :
    Driver
    → String
    → Bytes
    → Bytes
    → (Row → Row)
    → Call
    → List Row
    → Result Err (Unit {0}) × List Row
unfolding finish deliver exec_update
transition d label worker_id event_id f c table =
    let (r, table') = deliver c.reply (exec_update (is_held event_id worker_id) f table) table in
    (finish d label c.ctx r, table')

unfoldable pub mark_published :
    Driver → Bytes → Bytes → Call → List Row → Result Err (Unit {0}) × List Row
unfolding transition
mark_published d worker_id event_id c table =
    if is_empty worker_id
    then (err (message "worker id must not be empty"), table)
    else if is_empty event_id
    then (err (message "event id must not be empty"), table)
    else transition d "mark outbox event published" worker_id event_id (published_row c.now) c table

unfoldable pub schedule_retry :
    Driver → Bytes → Bytes → ℤ → PublishOutcome → Call → List Row → Result Err (Unit {0}) × List Row
unfolding transition
schedule_retry d worker_id event_id delay outcome c table =
    if is_empty worker_id
    then (err (message "worker id must not be empty"), table)
    else if is_empty event_id
    then (err (message "event id must not be empty"), table)
    else if leb_ℤ delay (pos 0)
    then (err (message "retry delay must be greater than zero"), table)
    else transition d "schedule outbox event retry" worker_id event_id
        (retried_row d delay outcome c.now) c table

unfoldable pub mark_dead_letter :
    Driver → Bytes → Bytes → PublishOutcome → Call → List Row → Result Err (Unit {0}) × List Row
unfolding transition
mark_dead_letter d worker_id event_id outcome c table =
    if is_empty worker_id
    then (err (message "worker id must not be empty"), table)
    else if is_empty event_id
    then (err (message "event id must not be empty"), table)
    else transition d "mark outbox event dead letter" worker_id event_id
        (dead_lettered_row outcome c.now) c table
