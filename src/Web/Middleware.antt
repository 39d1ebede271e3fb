-- ===== src/Web/Middleware.antt =====
-- The middleware of internal/httpapi/middleware.go around any handler. Measured durations and the
-- stack of a recovered panic are left out of the log.
pub mod Sound
use game_rewards_service.Base.{
  ℕ, ◌≡◌, Bool, true, false, not, ◌&&◌, ◌||◌, Option, none, some, List, [], ◌∷◌, ◌++◌, ltb,
  if◌then◌else◌, length, take, arith,
}
use game_rewards_service.Base.Text.{Bytes, bytes, str_eq}
use game_rewards_service.Errors.{Sentinel}
use game_rewards_service.Config.{Level, debug, info}
use game_rewards_service.Web.{
  Call, set_header, del_header, Panic, abort_handler, other_value, Reply, WebRequest, Handler,
  StatusRecorder, record_calls, new_recorder,
}
use game_rewards_service.Web.Responses.{WebLibrary, write_error}
use game_rewards_service.Web.RequestId.{request_id_for}

abbrev pub max_user_agent_log_len : ℕ
max_user_agent_log_len = 256

unfoldable pub route_name : Bytes → Bytes
route_name path =
    if str_eq path (bytes "/livez")
    then bytes "/livez"
    else if str_eq path (bytes "/readyz")
    then bytes "/readyz"
    else if str_eq path (bytes "/metrics")
    then bytes "/metrics"
    else if str_eq path (bytes "/v1/reward-claims")
    then bytes "/v1/reward-claims"
    else bytes "unknown"

unfoldable pub is_admin_route : Bytes → Bool
is_admin_route route =
    str_eq route (bytes "/livez")
    || (str_eq route (bytes "/readyz") || str_eq route (bytes "/metrics"))

unfoldable pub client_ip : WebLibrary → WebRequest → Bytes
client_ip lib r = elim (lib.split_host r.remote_addr) [ none ↦ r.remote_addr | some host ↦ host ]

unfoldable pub truncate_string : Bytes → ℕ → Bytes
truncate_string value max_len = if ltb max_len (length value) then take max_len value else value

-- One call of ObserveRequest, and the line "http request".
pub record Observed : Type 0 where
  pub route : Bytes
  pub method : Bytes
  pub status : ℕ

pub record Entry : Type 0 where
  pub level : Level
  pub request_id : Bytes
  pub method : Bytes
  pub route : Bytes
  pub status : ℕ
  pub remote_addr : Bytes
  pub user_agent : Bytes

-- What a served request leaves: the calls on the server's writer, a panic that goes on to net/http,
-- the state, what each observer that is given is told, the log, and whether a panic was logged.
pub record Served (S : Type 0) : Type 0 where
  pub calls : List Call
  pub panic : Option Panic
  pub state : S
  pub observed : List Observed
  pub entry : Entry
  pub recovered : Bool

-- handleRecoveredPanic: the recorder, and whether to abort.
unfoldable pub handle_recovered_panic :
    WebLibrary → Option Panic → StatusRecorder → StatusRecorder × Bool
handle_recovered_panic lib none rec = (rec, false)
handle_recovered_panic lib (some abort_handler) rec = (record rec { status = 0 }, true)
handle_recovered_panic lib (some other_value) rec =
    if rec.wrote_header then (record rec { status = 0 }, true) else (
      record_calls
          (del_header (bytes "Content-Length")
            ∷ write_error lib 500 (bytes "internal_error") (bytes "Internal server error"))
          rec,
      false,
    )

unfoldable pub is_given {ℓ} : {A : Type ℓ} → Option A → Bool
is_given none = false
is_given (some a) = true

-- No response was written and the context has ended.
unfoldable pub without_response : Option Sentinel → StatusRecorder → StatusRecorder
unfolding is_given
without_response ctx_error rec =
    if not rec.wrote_header && is_given ctx_error then record rec { status = 0 } else rec

pub without_response-made :
    (ctx_error : Option Sentinel) (rec : StatusRecorder)
    → (without_response ctx_error rec).made ≡ rec.made
unfolding without_response
without_response-made ctx_error rec = ground arith

-- The loop over the observers, each of which may be nil.
unfoldable pub observe_all : List Bool → Observed → List Observed
observe_all [] o = []
observe_all (true ∷ given) o = o ∷ observe_all given o
observe_all (false ∷ given) o = observe_all given o

unfoldable pub is_other : Option Panic → Bool
is_other none = false
is_other (some abort_handler) = false
is_other (some other_value) = true

-- The deferred function, from what handleRecoveredPanic answers.
unfoldable pub finish :
    {S : Type 0} → WebLibrary → List Bool → WebRequest → S → Bool → StatusRecorder × Bool → Served S
unfolding without_response observe_all route_name is_admin_route client_ip truncate_string
finish lib observers r s recovered (rec, abort) =
    let last = without_response r.ctx_error rec in
    let route = route_name r.path in
    record {
      calls = last.made;
      panic = if abort then some abort_handler else none;
      state = s;
      observed =
          observe_all observers (record { route = route; method = r.method; status = last.status });
      entry = record {
        level = if ltb last.status 400 && is_admin_route route then debug else info;
        request_id = r.request_id;
        method = r.method;
        route = route;
        status = last.status;
        remote_addr = client_ip lib r;
        user_agent = truncate_string r.user_agent max_user_agent_log_len;
      };
      recovered = recovered;
    }

unfoldable pub request_logger :
    {S : Type 0} → WebLibrary → List Bool → Handler S → WebRequest → S → Served S
unfolding finish handle_recovered_panic is_other record_calls
request_logger lib observers next r s =
    let (reply, s') = next r s in
    finish lib observers r s' (is_other reply.panic)
      (handle_recovered_panic lib reply.panic (record_calls reply.calls new_recorder))

unfoldable pub secure_headers : {S : Type 0} → Handler S → Handler S
secure_headers next r s =
    let (reply, s') = next r s in
    (
      record reply {
        calls =
            set_header (bytes "X-Content-Type-Options") (bytes "nosniff")
            ∷ set_header (bytes "Referrer-Policy") (bytes "no-referrer")
            ∷ reply.calls;
      },
      s',
    )

-- requestID around the rest; `random` are the bytes of crypto/rand.
unfoldable pub with_middleware :
    {S : Type 0} → WebLibrary → List ℕ → List Bool → Handler S → WebRequest → S → Served S
unfolding request_logger secure_headers
with_middleware lib random observers handler r s =
    let id = request_id_for random r.header_request_id in
    let served =
      request_logger lib observers (secure_headers handler) (record r { request_id = id }) s in
    record served { calls = set_header (bytes "X-Request-ID") id ∷ served.calls }
