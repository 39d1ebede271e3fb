-- ===== src/Metrics/Tests.antt =====
-- Concrete observations and a concrete registry, on which the theorems about the metrics are tried.
use game_rewards_service.Base.{ℕ, ◌≡◌, refl, true, false, none, some, List, [], ◌∷◌, ok, err, all}
use game_rewards_service.Base.Text.{bytes, str_eq}
use game_rewards_service.Errors.{message, sentinel, idempotency_key_reused, canceled}
use game_rewards_service.Outbox.Observer.{
  Observation, observe_claim, observe_publish, observe_retry, claimed, success, failed,
}
use game_rewards_service.Web.{WebRequest, Handler, abort_handler, write}
use game_rewards_service.Web.Responses.{WebLibrary}
use game_rewards_service.Metrics.{is_one_of, register}
use game_rewards_service.Metrics.Http.{
  http_collectors, new_http_metrics, normalize_route, normalize_method, status_label,
  observe_request,
}
use game_rewards_service.Metrics.Http.Served
use game_rewards_service.Metrics.Http.Served.{one_request}
use game_rewards_service.Metrics.Rewards.Counted
use game_rewards_service.Metrics.Rewards.Counted.{Outcome, IsCounted, recorded-IsCounted}
use game_rewards_service.Metrics.Worker.Bounded
use game_rewards_service.Metrics.Worker.Bounded.{permitted, is_permitted, recorded-IsPermitted}
use game_rewards_service.Metrics.Samples.{plain}

-- A second registration of the same collectors is refused.
twice :
    (register (some plain) http_collectors (new_http_metrics (some plain) []).1).0
    ≡ some (message "duplicate")
unfolding register new_http_metrics is_one_of str_eq
twice = refl

aborted :
    observe_request (λ n. n ∷ []) true (bytes "/x") (bytes "PUT") 0
    ≡ one_request (bytes "unknown") (bytes "other") (bytes "unknown")
unfolding observe_request normalize_route normalize_method status_label str_eq
aborted = refl

abbrev web : WebLibrary
web = record {
  encode_error_body = λ code message. code;
  encode_status = λ status. status;
  encode_readiness = λ status results. status;
  split_host = λ address. none;
  http_error = λ message code. [];
  redirect = λ path. none;
}

abbrev post : WebRequest
post = record {
  method = bytes "POST";
  path = bytes "/v1/reward-claims";
  header_request_id = bytes "abc";
  remote_addr = bytes "10.0.0.1";
  user_agent = bytes "curl";
  request_id = [];
  ctx_error = none;
}

-- A handler that aborts in the middle of its response.
abbrev aborting : Handler ℕ
aborting r n = (record { calls = write (bytes "x") ∷ []; panic = some abort_handler }, n)

abbrev answers : List Outcome
answers =
    ok (record { status_code = 201; response_body = []; replayed = false })
    ∷ ok (record { status_code = 201; response_body = []; replayed = true })
    ∷ err (sentinel idempotency_key_reused)
    ∷ err (sentinel canceled)
    ∷ []

recorded-IsCounted_example : IsCounted answers (Counted.recorded answers)
recorded-IsCounted_example = recorded-IsCounted answers

abbrev seen : List Observation
seen =
    observe_claim claimed
    ∷ observe_publish (bytes "RewardClaimed") failed
    ∷ observe_retry (bytes "RewardClaimed") failed
    ∷ observe_publish (bytes "Other") success
    ∷ []

recorded-IsPermitted_example : all (is_permitted permitted) (Bounded.recorded seen) ≡ true
recorded-IsPermitted_example = recorded-IsPermitted seen
