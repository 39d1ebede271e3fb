-- ===== src/Web/Router.antt =====
-- internal/httpapi/routes.go and server.go, and the metrics handler of
-- internal/observability/registry.go. http.ServeMux takes a registered path as it is, and redirects
-- from any other that is not clean.
pub mod Reach
pub mod Again
use game_rewards_service.Base.{
  ℕ, ◌*◌, ◌≡◌, Bool, true, false, not, Option, none, some, List, [], ◌∷◌, if◌then◌else◌, Result, ok,
  err,
}
use game_rewards_service.Base.Int.{ℤ}
use game_rewards_service.Base.Text.{Bytes, bytes, str_eq}
use game_rewards_service.Errors.{Err, message}
use game_rewards_service.Config.{HttpConfig}
use game_rewards_service.Http.{Request, DecodeError, HttpLibrary, Creator}
use game_rewards_service.Http.Handler.{handle}
use game_rewards_service.Web.{Call, set_header, Reply, WebRequest, Handler}
use game_rewards_service.Web.Responses.{WebLibrary, write_error, response_calls}
use game_rewards_service.Web.Health.{Check, is_get, replied, live_handler, ready_handler}
use game_rewards_service.Web.Middleware.{Served, with_middleware}

-- The rest of a request, which the reward claims handler reads.
pub record ClaimParts : Type 0 where
  pub idempotency_keys : List Bytes
  pub content_type : Bytes
  pub body : Result DecodeError Bytes

abbrev pub claim_request : ClaimParts → WebRequest → Request
claim_request parts r = record {
  method = r.method;
  idempotency_keys = parts.idempotency_keys;
  content_type = parts.content_type;
  body = parts.body;
  ctx_error = r.ctx_error;
}

unfoldable pub claims_handler :
    {S : Type 0} → WebLibrary → HttpLibrary → Creator S → ClaimParts → Handler S
claims_handler lib hlib service parts r s =
    let handled = handle hlib service (claim_request parts r) s in
    (replied (response_calls lib handled.response), handled.state)

-- observability.Handler; `scrape` is what promhttp's handler does now.
unfoldable pub metrics_handler : WebLibrary → Reply → WebRequest → Reply
metrics_handler lib scrape r =
    if not (is_get r)
    then replied
        (set_header (bytes "Allow") (bytes "GET") ∷ lib.http_error (bytes "Method not allowed") 405)
    else scrape

unfoldable pub not_found : WebLibrary → WebRequest → Reply
not_found lib r = elim (lib.redirect r.path) [
  | some calls ↦ replied calls
  | none ↦ replied (write_error lib 404 (bytes "not_found") (bytes "Not found"))
]

optional : WebLibrary → Option (WebRequest → Reply) → WebRequest → Reply
unfolding not_found
optional lib none r = not_found lib r
optional lib (some metrics) r = metrics r

-- The mux of newRouter.
unfoldable pub route :
    {S : Type 0} → WebLibrary → Option (WebRequest → Reply) → List Check → Handler S → Handler S
unfolding optional not_found
route lib metrics checks claims r s =
    if str_eq r.path (bytes "/livez")
    then (live_handler lib r, s)
    else if str_eq r.path (bytes "/readyz")
    then (ready_handler lib checks r, s)
    else if str_eq r.path (bytes "/metrics")
    then (optional lib metrics r, s)
    else if str_eq r.path (bytes "/v1/reward-claims")
    then claims r s
    else (not_found lib r, s)

unfoldable pub new_router :
    {S : Type 0}
    → WebLibrary
    → List ℕ
    → Bool
    → Option (WebRequest → Reply)
    → List Check
    → Handler S
    → WebRequest
    → S
    → Served S
unfolding route
new_router lib random observer metrics checks claims =
    with_middleware lib random (observer ∷ []) (route lib metrics checks claims)

-- The settings of the http.Server that NewServer returns, but for its handler and log.
pub record ServerSettings : Type 0 where
  pub addr : Bytes
  pub read_timeout : ℤ
  pub read_header_timeout : ℤ
  pub write_timeout : ℤ
  pub idle_timeout : ℤ
  pub max_header_bytes : ℕ
  pub max_header_value_count : ℕ

abbrev pub server_settings : HttpConfig → ServerSettings
server_settings cfg = record {
  addr = cfg.addr;
  read_timeout = cfg.read_timeout;
  read_header_timeout = cfg.read_header_timeout;
  write_timeout = cfg.write_timeout;
  idle_timeout = cfg.idle_timeout;
  max_header_bytes = 32 * 1024;
  max_header_value_count = 500;
}

-- The Boolean arguments say whether a logger and a service are given.
unfoldable pub new_server : HttpConfig → Bool → Bool → Result Err ServerSettings
new_server cfg logger reward_claims =
    if not logger
    then err (message "http logger is required")
    else if not reward_claims
    then err (message "reward claim service is required")
    else ok (server_settings cfg)
