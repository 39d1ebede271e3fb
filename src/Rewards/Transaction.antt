-- ===== src/Rewards/Transaction.antt =====
-- internal/rewards/postgres.go: the transaction of createClaim, read committed. Each statement sees
-- what other transactions have committed by then and the transaction's own writes.
use Prim.Native.String.{String}
use game_rewards_service.Base.{
  ℕ, Bool, true, false, not, ◌&&◌, ◌||◌, Option, none, some, List, [], ◌∷◌, ◌++◌, ◌==◌,
  if◌then◌else◌, Result, ok, err,
}
use game_rewards_service.Base.Text.{Bytes, str_eq, is_empty}
use game_rewards_service.Base.Text.Utf8.{valid_string}
use game_rewards_service.Errors.{
  Err, sentinel, message, wrap, is, is_context_error, Sentinel, Context, no_rows,
  claims_unavailable, claims_internal, idempotency_key_reused, claims_query_timeout,
}
use game_rewards_service.Postgres.{Driver, is_unavailable}
use game_rewards_service.Rewards.Claim.{
  Claim, CreateClaimParams, CreateClaimResult, Library, create_claim_status_created,
  create_claim_status_conflict, new_reward_claimed_event, duplicate_claim_error, created_body,
}
use game_rewards_service.Rewards.Tables.{
  Db, KeyRow, Write, apply_writes, find_key, reserve_statement, insert_claim_statement,
  insert_event_statement, complete_statement,
}

-- What happens around one statement: what other transactions commit before it runs, an error in
-- place of its answer, and queryCtx at that moment. `applied` matters for a commit alone: whether
-- the server had committed when the answer was lost.
pub record Turn : Type 0 where
  pub other : Db → Db
  pub fault : Option Err
  pub applied : Bool
  pub ctx : Context

-- With no turn left nothing else happens.
pub record Tx : Type 0 where
  pub committed : Db
  pub writes : List Write
  pub turns : List Turn

abbrev pub visible : Tx → Db
visible tx = apply_writes tx.committed tx.writes

abbrev pub Action : Type 0 → Type 0
Action A = Tx → Result Err A × Tx

abbrev pub after_step : {A B : Type 0} → Result Err A × Tx → (A → Action B) → Result Err B × Tx
after_step (err e, tx) f = (err e, tx)
after_step (ok a, tx) f = f a tx

infixl 5 ◌>>=◌ ◌>>◌
abbrev pub ◌>>=◌ : {A B : Type 0} → Action A → (A → Action B) → Action B
◌>>=◌ m f tx = after_step (m tx) f

abbrev pub ◌>>◌ : {A B : Type 0} → Action A → Action B → Action B
◌>>◌ m n tx = after_step (m tx) (λ _. n)

abbrev pub pure : {A : Type 0} → A → Action A
pure a tx = (ok a, tx)

abbrev pub fail : {A : Type 0} → Err → Action A
fail e tx = (err e, tx)

wrap_context : Option Sentinel → Err → Err
wrap_context none e = e
wrap_context (some s) e = sentinel s

unfoldable pub map_postgres_error : Driver → Context → Err → Err
unfolding wrap_context
map_postgres_error d ctx e =
    if is e no_rows
    then wrap "postgres reward claim operation returned no row" (sentinel claims_internal)
    else if is_context_error ctx.error e
    then (if is ctx.cause claims_query_timeout
        then wrap "postgres reward claim operation" (sentinel claims_unavailable)
        else wrap_context ctx.error e)
    else if is_unavailable d e
    then wrap "postgres reward claim operation" (sentinel claims_unavailable)
    else wrap "postgres reward claim operation" (sentinel claims_internal)

abbrev pub quiet : Context
quiet = record { error = none; cause = message "none" }

-- The driver's answer: a value, or its error with the context to map it by.
abbrev Reply : Type 0 → Type 0
Reply A = Result (Err × Context) A

abbrev Statement : Type 0 → Type 0
Statement A = Db → Result Err (A × List Write)

record_answer : {A : Type 0} → Context → Result Err (A × List Write) → Tx → Reply A × Tx
record_answer ctx (ok (a, ws)) tx = (ok a, record tx { writes = tx.writes ++ ws })
record_answer ctx (err e) tx = (err (e, ctx), tx)

send_on : {A : Type 0} → Statement A → Tx → List Turn → Reply A × Tx
unfolding record_answer
send_on f tx [] = record_answer quiet (f (visible tx)) tx
send_on f tx (t ∷ ts) =
    let tx' : Tx = record { committed = t.other tx.committed; writes = tx.writes; turns = ts } in
    elim t.fault [
      | some e ↦ (err (e, t.ctx), tx')
      | none ↦ record_answer t.ctx (f (visible tx')) tx'
    ]

unfoldable pub send : {A : Type 0} → Statement A → Tx → Reply A × Tx
unfolding send_on
send f tx = send_on f tx tx.turns

mapped : {A : Type 0} → Driver → Reply A × Tx → Result Err A × Tx
mapped d (ok a, tx) = (ok a, tx)
mapped d (err (e, ctx), tx) = (err (map_postgres_error d ctx e), tx)

-- tx.Exec
unfoldable pub exec : {A : Type 0} → Driver → Statement A → Action A
unfolding mapped send
exec d f tx = mapped d (send f tx)

found : {A : Type 0} → Driver → Reply (Option A) × Tx → Result Err (Option A) × Tx
found d (ok o, tx) = (ok o, tx)
found d (err (e, ctx), tx) =
    (if is e no_rows then ok none else err (map_postgres_error d ctx e), tx)

-- tx.QueryRow(…).Scan, where the callers take pgx.ErrNoRows for "not found"
unfoldable pub query_row : {A : Type 0} → Driver → Statement (Option A) → Action (Option A)
unfolding found send
query_row d f tx = found d (send f tx)

commit_on : Driver → Tx → List Turn → Result Err (Unit {0}) × Tx
commit_on d tx [] = (ok tt, record { committed = visible tx; writes = []; turns = [] })
commit_on d tx (t ∷ ts) =
    let base = t.other tx.committed in
    let whole = apply_writes base tx.writes in
    elim t.fault [
      | none ↦ (ok tt, record { committed = whole; writes = []; turns = ts })
      | some e ↦ (
        err (map_postgres_error d t.ctx e),
        record { committed = if t.applied then whole else base; writes = []; turns = ts },
      )
    ]

-- tx.Commit
unfoldable pub commit : Driver → Action (Unit {0})
unfolding commit_on
commit d tx = commit_on d tx tx.turns

module _ (lib : Library) (d : Driver) (p : CreateClaimParams) where
  unfoldable pub try_reserve_idempotency_key : Action Bool
  unfolding exec
  try_reserve_idempotency_key = exec d (reserve_statement p)

  -- The checks on the stored row, in their order.
  unfoldable pub stored_result : KeyRow → Option ℕ → Option Bytes → Result Err CreateClaimResult
  stored_result k none body =
      err (wrap "committed idempotency key missing stored response" (sentinel claims_internal))
  stored_result k (some status) none =
      err (wrap "committed idempotency key missing stored response" (sentinel claims_internal))
  stored_result k (some status) (some body) =
      if is_empty body
      then err (wrap "committed idempotency key missing stored response" (sentinel claims_internal))
      else if not (
          str_eq k.player_id p.player_id
          && (str_eq k.campaign_id p.campaign_id && str_eq k.reward_id p.reward_id))
      then err (sentinel idempotency_key_reused)
      else if not (status == create_claim_status_created || status == create_claim_status_conflict)
      then err (wrap "unexpected stored reward claim response status" (sentinel claims_internal))
      else if not (valid_string body && lib.json_valid body)
      then err (wrap "invalid stored reward claim response body" (sentinel claims_internal))
      else ok (record { status_code = status; response_body = body; replayed = true })

  unfoldable pub load_row : Option KeyRow → Action (Option CreateClaimResult)
  load_row none tx = (ok none, tx)
  load_row (some k) tx = elim (stored_result k k.response_status k.response_body) [
    | ok r ↦ (ok (some r), tx)
    | err e ↦ (err e, tx)
  ]

  unfoldable pub try_load_idempotent_claim_result : Action (Option CreateClaimResult)
  unfolding load_row query_row stored_result
  try_load_idempotent_claim_result = do
    row ← query_row d (λ db. ok (find_key p.key_hash db.keys, []))
    load_row row

  unfoldable pub try_insert_claim : Bytes → ℕ → Action (Option Claim)
  unfolding query_row
  try_insert_claim id now = query_row d (insert_claim_statement id now p)

  unfoldable pub affected_one : ℕ → Action (Unit {0})
  affected_one n tx = (
    if n == 1 then ok tt else err (wrap "complete idempotency key" (sentinel claims_internal)),
    tx,
  )

  unfoldable pub complete_idempotency_key : ℕ → Bytes → Bytes → Action (Unit {0})
  unfolding affected_one exec
  complete_idempotency_key status body claim_id = do
    n ← exec d (complete_statement p status body claim_id)
    affected_one n

  unfoldable pub marshalled : String → Option Bytes → Action Bytes
  marshalled label none tx = (err (wrap label (sentinel claims_internal)), tx)
  marshalled label (some body) tx = (ok body, tx)

  unfoldable pub marshal_created_claim_response : Claim → Action Bytes
  unfolding marshalled
  marshal_created_claim_response claim =
      marshalled "marshal created reward claim response" (created_body lib claim)

  unfoldable pub marshal_duplicate_claim_response : Action Bytes
  unfolding marshalled
  marshal_duplicate_claim_response =
      marshalled "marshal duplicate reward claim response" (lib.encode_error duplicate_claim_error)

  unfoldable pub insert_reward_claimed_outbox_event : Bytes → Claim → Action (Unit {0})
  unfolding marshalled exec
  insert_reward_claimed_outbox_event event_id claim = do
    payload ←
        marshalled "marshal reward claimed outbox payload"
          (lib.encode_event (new_reward_claimed_event event_id claim))
    exec d (insert_event_statement event_id claim.id payload)

  unfoldable pub complete_created_claim : Bytes → Claim → Action CreateClaimResult
  unfolding marshal_created_claim_response insert_reward_claimed_outbox_event
      complete_idempotency_key
  complete_created_claim event_id claim = do
    body ← marshal_created_claim_response claim
    insert_reward_claimed_outbox_event event_id claim
    complete_idempotency_key create_claim_status_created body claim.id
    pure (record {
      status_code = create_claim_status_created;
      response_body = body;
      replayed = false;
    })

  unfoldable pub complete_duplicate_claim : Action CreateClaimResult
  unfolding marshal_duplicate_claim_response complete_idempotency_key
  complete_duplicate_claim = do
    body ← marshal_duplicate_claim_response
    complete_idempotency_key create_claim_status_conflict body []
    pure (record {
      status_code = create_claim_status_conflict;
      response_body = body;
      replayed = false;
    })
