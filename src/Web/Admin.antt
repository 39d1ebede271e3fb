-- ===== src/Web/Admin.antt =====
-- internal/adminhttp/server.go: the worker's own server, with its own copy of the middleware. The line
-- about a recovered panic is left out.
pub mod SameAsApi
use game_rewards_service.Base.{
  ℕ, ◌≡◌, Bool, true, false, not, ◌||◌, Option, none, some, List, [], ◌∷◌, ◌++◌, ltb, if◌then◌else◌,
}
use game_rewards_service.Base.Text.{Bytes, bytes, str_eq}
use game_rewards_service.Config.{Level, debug, warn}
use game_rewards_service.Web.{
  Call, set_header, del_header, Panic, abort_handler, other_value, Reply, WebRequest,
  StatusRecorder, record_calls, new_recorder,
}
use game_rewards_service.Web.Responses.{WebLibrary, write_error}
use game_rewards_service.Web.Health.{Check, replied, live_handler, ready_handler}
use game_rewards_service.Web.Middleware.{Observed}

unfoldable pub route_name : Bytes → Bytes
route_name path =
    if str_eq path (bytes "/livez")
      || (str_eq path (bytes "/readyz") || str_eq path (bytes "/metrics"))
    then path
    else bytes "unknown"

-- The line "worker admin request".
pub record Entry : Type 0 where
  pub level : Level
  pub method : Bytes
  pub route : Bytes
  pub status : ℕ

pub record Served : Type 0 where
  pub calls : List Call
  pub panic : Option Panic
  pub observed : List Observed
  pub entry : Entry

unfoldable pub handle_recovered_panic :
    WebLibrary → Option Panic → StatusRecorder → StatusRecorder × Bool
handle_recovered_panic lib none rec = (rec, false)
handle_recovered_panic lib (some abort_handler) rec = (record rec { status = 0 }, true)
handle_recovered_panic lib (some other_value) rec =
    if rec.wrote_header then (record rec { status = 0 }, true) else (
      record_calls
          (del_header (bytes "Content-Length")
            ∷ write_error lib 500 (bytes "internal_error") (bytes "Internal server error"))
          rec,
      false,
    )

finish : Bool → WebRequest → StatusRecorder × Bool → Served
unfolding route_name
finish observer r (rec, abort) =
    let seen : Observed = record {
      route = route_name r.path;
      method = r.method;
      status = rec.status;
    } in
    record {
      calls = rec.made;
      panic = if abort then some abort_handler else none;
      observed = if observer then seen ∷ [] else [];
      entry = record {
        level = if ltb rec.status 400 then debug else warn;
        method = r.method;
        route = route_name r.path;
        status = rec.status;
      };
    }

unfoldable pub request_logger : WebLibrary → Bool → (WebRequest → Reply) → WebRequest → Served
unfolding finish handle_recovered_panic record_calls
request_logger lib observer next r =
    let reply = next r in
    finish observer r
      (handle_recovered_panic lib reply.panic (record_calls reply.calls new_recorder))

-- secureHeaders, which writes on the server's writer itself
unfoldable pub secure_headers : Served → Served
secure_headers served = record served {
  calls =
      set_header (bytes "X-Content-Type-Options") (bytes "nosniff")
      ∷ set_header (bytes "Referrer-Policy") (bytes "no-referrer")
      ∷ served.calls;
}

not_found : WebLibrary → WebRequest → Reply
not_found lib r = elim (lib.redirect r.path) [
  | some calls ↦ replied calls
  | none ↦ replied (write_error lib 404 (bytes "not_found") (bytes "Not found"))
]

optional : WebLibrary → Option (WebRequest → Reply) → WebRequest → Reply
unfolding not_found
optional lib none r = not_found lib r
optional lib (some metrics) r = metrics r

-- The mux of NewServer.
unfoldable pub route : WebLibrary → Option (WebRequest → Reply) → List Check → WebRequest → Reply
unfolding optional not_found
route lib metrics checks r =
    if str_eq r.path (bytes "/livez")
    then live_handler lib r
    else if str_eq r.path (bytes "/readyz")
    then ready_handler lib checks r
    else if str_eq r.path (bytes "/metrics")
    then optional lib metrics r
    else not_found lib r

-- The handler of the server that NewServer builds.
unfoldable pub serve :
    WebLibrary → Bool → Option (WebRequest → Reply) → List Check → WebRequest → Served
unfolding route secure_headers request_logger
serve lib observer metrics checks r =
    secure_headers (request_logger lib observer (route lib metrics checks) r)
