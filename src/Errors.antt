-- ===== src/Errors.antt =====
-- Go's error values as far as this program tells them apart: the chain that errors.Is and
-- errors.AsType walk. Text that a wrapper prints from a run-time value is left out of the label.
use Prim.Native.String.{String}
use game_rewards_service.Base.{
  ℕ, ◌≡◌, Bool, true, false, ◌||◌, Option, none, some, arith, ◌==◌, if◌then◌else◌,
}
use game_rewards_service.Base.Text.{Bytes}
use game_rewards_service.Outbox.Observer.{Operation}

-- The values made by errors.New that are compared by identity, of this program and its libraries.
pub data Sentinel : Type 0 where
  canceled deadline_exceeded : Sentinel
  no_rows conn_closed net_closed eof unexpected_eof : Sentinel
  lease_lost store_unavailable store_internal outbox_query_timeout worker_fatal : Sentinel
  claims_unavailable claims_internal idempotency_key_reused claims_query_timeout : Sentinel
  server_closed abort_handler : Sentinel

abbrev pub tag : Sentinel → ℕ
tag canceled = 0
tag deadline_exceeded = 1
tag no_rows = 2
tag conn_closed = 3
tag net_closed = 4
tag eof = 5
tag unexpected_eof = 6
tag lease_lost = 7
tag store_unavailable = 8
tag store_internal = 9
tag outbox_query_timeout = 10
tag worker_fatal = 11
tag claims_unavailable = 12
tag claims_internal = 13
tag idempotency_key_reused = 14
tag claims_query_timeout = 15
tag server_closed = 16
tag abort_handler = 17

unfoldable pub sentinel_eq : Sentinel → Sentinel → Bool
sentinel_eq a b = tag a == tag b

pub sentinel_eq_refl : (a : Sentinel) → sentinel_eq a a ≡ true
unfolding sentinel_eq
sentinel_eq_refl a = ground arith

pub data Err : Type 0 where
  sentinel : Sentinel → Err
  message : String → Err
  wrap : String → Err → Err
  -- *outbox.workerOperationError
  operation : Operation → Err → Err
  -- *rewards.InvalidInputError
  invalid_input : Bytes → Err
  -- *pgconn.PgError with its SQLSTATE
  pg_error : Bytes → Err
  -- *net.OpError and *net.DNSError with what Timeout() says, and any other net.Error
  op_error : Bool → Err → Err
  dns_error : Bool → Err
  net_error : Bool → Err
  -- errors.Join of two errors
  join : Err → Err → Err

-- errors.Is
unfoldable pub is : Err → Sentinel → Bool
is (sentinel a) b = sentinel_eq a b
is (message m) b = false
is (wrap m e) b = is e b
is (operation o e) b = is e b
is (invalid_input m) b = false
is (pg_error c) b = false
is (op_error t e) b = is e b
is (dns_error t) b = false
is (net_error t) b = false
is (join e f) b = is e b || is f b

-- What a search for the first error of a type finds, of two branches of a join.
abbrev pub first {ℓ} : {A : Type ℓ} → Option A → Option A → Option A
first (some a) o = some a
first none o = o

-- errors.AsType[*workerOperationError]
unfoldable pub as_operation : Err → Option Operation
as_operation (operation o e) = some o
as_operation (wrap m e) = as_operation e
as_operation (op_error t e) = as_operation e
as_operation (join e f) = first (as_operation e) (as_operation f)
as_operation (sentinel a) = none
as_operation (message m) = none
as_operation (invalid_input m) = none
as_operation (pg_error c) = none
as_operation (dns_error t) = none
as_operation (net_error t) = none

-- errors.AsType[*rewards.InvalidInputError]
unfoldable pub as_invalid_input : Err → Option Bytes
as_invalid_input (invalid_input m) = some m
as_invalid_input (wrap m e) = as_invalid_input e
as_invalid_input (operation o e) = as_invalid_input e
as_invalid_input (op_error t e) = as_invalid_input e
as_invalid_input (join e f) = first (as_invalid_input e) (as_invalid_input f)
as_invalid_input (sentinel a) = none
as_invalid_input (message m) = none
as_invalid_input (pg_error c) = none
as_invalid_input (dns_error t) = none
as_invalid_input (net_error t) = none

-- errors.AsType[*pgconn.PgError]
unfoldable pub as_pg_error : Err → Option Bytes
as_pg_error (pg_error c) = some c
as_pg_error (wrap m e) = as_pg_error e
as_pg_error (operation o e) = as_pg_error e
as_pg_error (op_error t e) = as_pg_error e
as_pg_error (join e f) = first (as_pg_error e) (as_pg_error f)
as_pg_error (sentinel a) = none
as_pg_error (message m) = none
as_pg_error (invalid_input m) = none
as_pg_error (dns_error t) = none
as_pg_error (net_error t) = none

-- Timeout() of the net.Error that errors.AsType[net.Error] finds; context.DeadlineExceeded is one.
unfoldable pub as_net_error : Err → Option Bool
unfolding sentinel_eq
as_net_error (op_error t e) = some t
as_net_error (dns_error t) = some t
as_net_error (net_error t) = some t
as_net_error (sentinel a) = if sentinel_eq a deadline_exceeded then some true else none
as_net_error (wrap m e) = as_net_error e
as_net_error (operation o e) = as_net_error e
as_net_error (join e f) = first (as_net_error e) (as_net_error f)
as_net_error (message m) = none
as_net_error (invalid_input m) = none
as_net_error (pg_error c) = none

-- Does errors.AsType[*net.DNSError] find one?
unfoldable pub has_dns_error : Err → Bool
has_dns_error (dns_error t) = true
has_dns_error (wrap m e) = has_dns_error e
has_dns_error (operation o e) = has_dns_error e
has_dns_error (op_error t e) = has_dns_error e
has_dns_error (join e f) = has_dns_error e || has_dns_error f
has_dns_error (sentinel a) = false
has_dns_error (message m) = false
has_dns_error (invalid_input m) = false
has_dns_error (pg_error c) = false
has_dns_error (net_error t) = false

-- Does errors.AsType[*net.OpError] find one?
unfoldable pub has_op_error : Err → Bool
has_op_error (op_error t e) = true
has_op_error (wrap m e) = has_op_error e
has_op_error (operation o e) = has_op_error e
has_op_error (join e f) = has_op_error e || has_op_error f
has_op_error (sentinel a) = false
has_op_error (message m) = false
has_op_error (invalid_input m) = false
has_op_error (pg_error c) = false
has_op_error (dns_error t) = false
has_op_error (net_error t) = false

-- A context as it is read at one moment: ctx.Err() and context.Cause(ctx).
pub record Context : Type 0 where
  pub error : Option Sentinel
  pub cause : Err

-- `ctxErr := ctx.Err(); ctxErr != nil && errors.Is(err, ctxErr)`
unfoldable pub is_context_error : Option Sentinel → Err → Bool
is_context_error none e = false
is_context_error (some s) e = is e s
