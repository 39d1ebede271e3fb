-- ===== src/Web/Admin/SameAsApi.antt =====
-- The two copies of the middleware and of the health and metrics routes.
use game_rewards_service.Base.{
  ℕ, append_assoc, ◌≡◌, refl, ap, ◌∙◌, Bool, true, Option, none, some, List, [], ◌∷◌, ◌++◌, arith,
  if◌then◌else◌,
}
use game_rewards_service.Base.Text.{Bytes, bytes}
use game_rewards_service.Web.{
  Call, set_header, del_header, write_header, write, Panic, abort_handler, other_value, Reply,
  WebRequest, Handler, StatusRecorder, record_header, record_write, record_call, record_calls,
  new_recorder,
}
use game_rewards_service.Web.Responses.{WebLibrary, write_error}
use game_rewards_service.Web.Health.{Check, live_handler, ready_handler}
use game_rewards_service.Web.RequestId.{request_id_for}
use game_rewards_service.Web.Middleware
use game_rewards_service.Web.Middleware.{is_admin_route, with_middleware, without_response-made}
use game_rewards_service.Web.Router
use game_rewards_service.Web.Router.{metrics_handler, new_router}
use game_rewards_service.Web.Admin
use game_rewards_service.Web.Admin.{
  handle_recovered_panic, route, route_name, request_logger, serve, finish,
}

-- A recorder with calls made before it.
abbrev behind : List Call → StatusRecorder → StatusRecorder
behind p rec = record rec { made = p ++ rec.made }

record_call-behind :
    (p : List Call) (c : Call) (rec : StatusRecorder)
    → record_call c (behind p rec) ≡ behind p (record_call c rec)
unfolding record_call record_write record_header
record_call-behind p (set_header name value) rec =
    rw (append_assoc p rec.made (set_header name value ∷ []))
record_call-behind p (del_header name) rec = rw (append_assoc p rec.made (del_header name ∷ []))
record_call-behind p (write_header status) rec =
    ground (arith, append_assoc p rec.made (write_header status ∷ []))
record_call-behind p (write body) rec = ground (
  arith,
  append_assoc p rec.made (write body ∷ []),
  append_assoc p rec.made (write_header 200 ∷ []),
  append_assoc p (rec.made ++ write_header 200 ∷ []) (write body ∷ []),
)

record_calls-behind :
    (p cs : List Call) (rec : StatusRecorder)
    → record_calls cs (behind p rec) ≡ behind p (record_calls cs rec)
unfolding record_calls
record_calls-behind p [] rec = refl
record_calls-behind p (c ∷ cs) rec =
    ap (record_calls cs) (record_call-behind p c rec) ∙ record_calls-behind p cs (record_call c rec)

handle_recovered_panic-behind :
    (lib : WebLibrary) (q : Option Panic) (p : List Call) (rec : StatusRecorder)
    → Middleware.handle_recovered_panic lib q (behind p rec)
      ≡ (behind p (handle_recovered_panic lib q rec).0, (handle_recovered_panic lib q rec).1)
unfolding handle_recovered_panic Middleware.handle_recovered_panic
handle_recovered_panic-behind lib none p rec = refl
handle_recovered_panic-behind lib (some abort_handler) p rec = refl
handle_recovered_panic-behind lib (some other_value) p rec =
    let answer =
      del_header (bytes "Content-Length")
      ∷ write_error lib 500 (bytes "internal_error") (bytes "Internal server error") in
    ground (arith, record_calls-behind p answer rec)

abbrev named : Bytes → WebRequest → WebRequest
named id r = record r { request_id = id }

live_handler-named :
    (lib : WebLibrary) (id : Bytes) (r : WebRequest)
    → live_handler lib (named id r) ≡ live_handler lib r
unfolding live_handler
live_handler-named lib id r = refl

ready_handler-named :
    (lib : WebLibrary) (checks : List Check) (id : Bytes) (r : WebRequest)
    → ready_handler lib checks (named id r) ≡ ready_handler lib checks r
unfolding ready_handler
ready_handler-named lib checks id r = refl

metrics_handler-named :
    (lib : WebLibrary) (scrape : Reply) (id : Bytes) (r : WebRequest)
    → metrics_handler lib scrape (named id r) ≡ metrics_handler lib scrape r
unfolding metrics_handler
metrics_handler-named lib scrape id r = refl

abbrev security : List Call
security =
    set_header (bytes "X-Content-Type-Options") (bytes "nosniff")
    ∷ set_header (bytes "Referrer-Policy") (bytes "no-referrer")
    ∷ []

-- Both loggers around one reply, where the API's has the security headers before it.
module _ {S : Type 0} (lib : WebLibrary) (observers : List Bool) (other : Bool) (reply : Reply)
    (r q : WebRequest) (s : S) where
  abbrev api_side : Middleware.Served S
  api_side =
      Middleware.request_logger lib observers
        (λ r' s'. (record reply { calls = security ++ reply.calls }, s')) r s

  abbrev admin_side : Admin.Served
  admin_side = request_logger lib other (λ r'. reply) q

  recovered-same :
      Middleware.handle_recovered_panic lib reply.panic
        (record_calls (security ++ reply.calls) new_recorder)
      ≡ (
        behind security
            (handle_recovered_panic lib reply.panic (record_calls reply.calls new_recorder)).0,
        (handle_recovered_panic lib reply.panic (record_calls reply.calls new_recorder)).1,
      )
  unfolding record_calls
  recovered-same =
      ap (Middleware.handle_recovered_panic lib reply.panic)
        (record_calls-behind security reply.calls new_recorder)
      ∙ handle_recovered_panic-behind lib reply.panic security
          (record_calls reply.calls new_recorder)

  sides-calls : api_side.calls ≡ security ++ admin_side.calls
  unfolding Middleware.request_logger request_logger record_calls
  sides-calls =
      without_response-made r.ctx_error
        (Middleware.handle_recovered_panic lib reply.panic
          (record_calls (security ++ reply.calls) new_recorder)).0
      ∙ ap (λ (x : StatusRecorder × Bool). x.0.made) recovered-same

  sides-panic : api_side.panic ≡ admin_side.panic
  unfolding Middleware.request_logger request_logger record_calls
  sides-panic =
      ap (λ (x : StatusRecorder × Bool). if x.1 then some abort_handler else none) recovered-same

-- The API's middleware around a handler that answers `reply` here.
with_middleware-reply :
    {S : Type 0} (lib : WebLibrary) (random : List ℕ) (observers : List Bool) (handler : Handler S)
    (other : Bool) (reply : Reply) (r : WebRequest) (s : S)
    → handler (named (request_id_for random r.header_request_id) r) s ≡ (reply, s)
    → ((with_middleware lib random observers handler r s).calls
        ≡ set_header (bytes "X-Request-ID") (request_id_for random r.header_request_id) ∷ security
          ++ (request_logger lib other (λ r'. reply) r).calls)
      × ((with_middleware lib random observers handler r s).panic
          ≡ (request_logger lib other (λ r'. reply) r).panic)
      × ((with_middleware lib random observers handler r s).state ≡ s)
unfolding with_middleware Middleware.secure_headers Middleware.request_logger
with_middleware-reply lib random observers handler other reply r s h =
    let id = request_id_for random r.header_request_id in
    rw h (
      ap (λ cs. set_header (bytes "X-Request-ID") id ∷ cs)
          (sides-calls lib observers other reply (named id r) r s),
      sides-panic lib observers other reply (named id r) r s,
      refl,
    )

module _ (lib : WebLibrary) (scrape : Reply) (checks : List Check) {S : Type 0}
    (claims : Handler S) where
  route-same :
      (id : Bytes) (r : WebRequest) (s : S)
      → is_admin_route r.path ≡ true
      → Router.route lib
          (some (metrics_handler lib scrape))
          checks
          claims
          (record r { request_id = id })
          s
        ≡ (route lib (some (metrics_handler lib scrape)) checks r, s)
  unfolding Router.route route is_admin_route
  route-same id r s h = ground (
    arith,
    live_handler-named lib id r,
    ready_handler-named lib checks id r,
    metrics_handler-named lib scrape id r,
  )

  -- On the health and metrics routes the worker's server and the API's answer alike: the same calls
  -- reach the client, but for the identifier that the API sets first, and the same panic goes on.
  pub serve-new_router :
      (random : List ℕ) (observer other : Bool) (r : WebRequest) (s : S)
      → is_admin_route r.path ≡ true
      → ((new_router lib random observer
            (some (metrics_handler lib scrape))
            checks
            claims
            r
            s).calls
          ≡ set_header (bytes "X-Request-ID") (request_id_for random r.header_request_id)
            ∷ (serve lib other (some (metrics_handler lib scrape)) checks r).calls)
        × ((new_router lib random observer
              (some (metrics_handler lib scrape))
              checks
              claims
              r
              s).panic
            ≡ (serve lib other (some (metrics_handler lib scrape)) checks r).panic)
        × ((new_router lib random observer
              (some (metrics_handler lib scrape))
              checks
              claims
              r
              s).state
            ≡ s)
  unfolding new_router serve
  serve-new_router random observer other r s h =
      let id = request_id_for random r.header_request_id in
      let reply = route lib (some (metrics_handler lib scrape)) checks r in
      with_middleware-reply lib random (observer ∷ [])
        (Router.route lib (some (metrics_handler lib scrape)) checks claims) other reply r s
        (route-same id r s h)
