-- ===== src/Web/Tests.antt =====
-- Concrete requests, on which the theorems about the handlers and the middleware are tried.
use game_rewards_service.Base.{ℕ, ◌+◌, ◌≡◌, ◌⊎◌, refl, true, false, none, some, [], ◌∷◌, arith, ok}
use game_rewards_service.Base.Text.{bytes, str_eq}
use game_rewards_service.Rewards.Claim.{CreateClaimCommand}
use game_rewards_service.Http.{Response, Creator}
use game_rewards_service.Http.Handler.{respond}
use game_rewards_service.Http.Outcomes.{IsAccepted, is_rejection}
use game_rewards_service.Web.{
  set_header, write_header, write, other_value, abort_handler, Reply, Handler, record_calls,
  new_recorder,
}
use game_rewards_service.Web.Recorded.{wire_status}
use game_rewards_service.Web.Responses.{write_json}
use game_rewards_service.Web.Health.{Readiness, replied, ready_handler}
use game_rewards_service.Web.Health.Ready.{IsReport, ready_handler-IsReport}
use game_rewards_service.Web.RequestId.{request_id_for}
use game_rewards_service.Web.RequestId.Tokens.{IsRequestId, request_id_for-IsRequestId}
use game_rewards_service.Web.Middleware.{is_admin_route, with_middleware, truncate_string}
use game_rewards_service.Web.Middleware.Sound.{IsSound, identified, with_middleware-IsSound}
use game_rewards_service.Web.Router.{claim_request, claims_handler, metrics_handler, new_router}
use game_rewards_service.Web.Router.Reach.{status_of, new_router-reaches}
use game_rewards_service.Web.Admin.{serve}
use game_rewards_service.Web.Admin.SameAsApi.{serve-new_router}
use game_rewards_service.Web.Samples.{web, get, post, random, two_checks, json, parts}

-- A handler that writes a response and then panics.
abbrev panicking : Handler ℕ
panicking r n = (record { calls = write (bytes "x") ∷ []; panic = some other_value }, n + 1)

abbrev counting : Creator ℕ
counting cmd n = (
  ok (record { status_code = 201; response_body = cmd.idempotency_key; replayed = false }),
  n + 1,
)

abbrev scrape : Reply
scrape = replied (write (bytes "up 1") ∷ [])

-- The second WriteHeader does nothing, and a Write sends 200 first.
recorded :
    (record_calls (write_header 404 ∷ write_header 200 ∷ write (bytes "x") ∷ []) new_recorder).made
    ≡ write_header 404 ∷ write (bytes "x") ∷ []
unfolding record_calls
recorded = refl

panic_aborts : (with_middleware web random (true ∷ []) panicking post 0).panic ≡ some abort_handler
unfolding with_middleware
panic_aborts = refl

truncated : truncate_string (bytes "abcd") 3 ≡ bytes "abc"
unfolding truncate_string
truncated = refl

ready_handler-IsReport_example :
    (report : Readiness) × IsReport two_checks report
    × (ready_handler web two_checks (get (bytes "/readyz"))
        ≡ replied
            (write_json report.status_code (web.encode_readiness report.status report.results)))
unfolding str_eq
ready_handler-IsReport_example = ready_handler-IsReport web two_checks (get (bytes "/readyz")) refl

request_id_for-IsRequestId_example : IsRequestId (request_id_for random (bytes "bad id"))
request_id_for-IsRequestId_example =
    request_id_for-IsRequestId random (bytes "bad id") refl ground arith

with_middleware-IsSound_example :
    IsSound
      (identified random post)
      (true ∷ false ∷ [])
      (with_middleware web random (true ∷ false ∷ []) panicking post 0)
with_middleware-IsSound_example =
    with_middleware-IsSound web random (true ∷ false ∷ []) panicking post 0

new_router-reaches_example :
    ((str_eq post.path (bytes "/v1/reward-claims") ≡ true)
      × (cmd : CreateClaimCommand) × IsAccepted json (claim_request parts post) cmd
      × ((new_router web random true none two_checks
            (claims_handler web json counting parts)
            post
            0).state
          ≡ (counting cmd 0).1)
      × (wire_status
            (new_router web random true none two_checks
              (claims_handler web json counting parts)
              post
              0).calls
          ≡ status_of (respond (claim_request parts post) (counting cmd 0)).response))
    ⊎ ((str_eq post.path (bytes "/v1/reward-claims") ≡ true)
        × (x : Response) × (is_rejection x ≡ true)
        × ((new_router web random true none two_checks
              (claims_handler web json counting parts)
              post
              0).state
            ≡ 0)
        × (wire_status
              (new_router web random true none two_checks
                (claims_handler web json counting parts)
                post
                0).calls
            ≡ status_of x))
    ⊎ ((str_eq post.path (bytes "/v1/reward-claims") ≡ false)
        × ((new_router web random true none two_checks
              (claims_handler web json counting parts)
              post
              0).state
            ≡ 0))
new_router-reaches_example =
    new_router-reaches web json counting parts none two_checks random true post 0

serve-new_router_example :
    ((new_router web random true
        (some (metrics_handler web scrape))
        two_checks
        panicking
        (get (bytes "/metrics"))
        0).calls
      ≡ set_header (bytes "X-Request-ID") (request_id_for random (bytes " abc-1 "))
        ∷ (serve web false
            (some (metrics_handler web scrape))
            two_checks
            (get (bytes "/metrics"))).calls)
    × ((new_router web random true
          (some (metrics_handler web scrape))
          two_checks
          panicking
          (get (bytes "/metrics"))
          0).panic
        ≡ (serve web false
            (some (metrics_handler web scrape))
            two_checks
            (get (bytes "/metrics"))).panic)
    × ((new_router web random true
          (some (metrics_handler web scrape))
          two_checks
          panicking
          (get (bytes "/metrics"))
          0).state
        ≡ 0)
unfolding str_eq is_admin_route
serve-new_router_example =
    serve-new_router web scrape two_checks panicking random true false (get (bytes "/metrics")) 0
      refl
