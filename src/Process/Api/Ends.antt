-- ===== src/Process/Api/Ends.antt =====
-- The returns of the API process.
use game_rewards_service.Base.{◌≡◌, inl, inr, refl, Option, none, some, arith}
use game_rewards_service.Errors.{Err}
use game_rewards_service.Config.{Lookup, Parsers, ApiConfig}
use game_rewards_service.Metrics.{Collector, Registry}
use game_rewards_service.Process.{not_closed}
use game_rewards_service.Process.Stop.{stop_http_server}
use game_rewards_service.Process.Exits.{
  IsInner, code_of-cases, code_of-bound, count, IsProper, unless_ended-IsProper,
  unless_failed-IsProper, unless_failed_in-IsProper, unless_err-IsProper, pool-IsProper,
  listener-IsProper,
}
use game_rewards_service.Process.Api.{
  ApiEnding, server_stopped, shutdown_requested, ApiWorld, serve_api, listen_api, connect_api,
  run_api,
}

-- The server stopped without an error but ErrServerClosed; or a signal came, the server shut down
-- without an error, and Serve returned without one but ErrServerClosed.
pub data IsGraceful (w : ApiWorld) : Type 0 where
  by_server : (e : Option Err) → w.ending ≡ server_stopped e → not_closed e ≡ none → IsGraceful w
  by_signal :
      w.ending ≡ shutdown_requested
      → w.shutdown_error ≡ none
      → not_closed w.served ≡ none
      → IsGraceful w

-- What stopHTTPServer answers when it answers nil.
stop_http_server-nil :
    (shutdown_error close_error served : Option Err)
    → (stop_http_server shutdown_error close_error served).0 ≡ none
    → (shutdown_error ≡ none) × (served ≡ none)
unfolding stop_http_server
stop_http_server-nil none c none h = (refl, refl)
stop_http_server-nil none c (some e) h = absurd (ground arith)
stop_http_server-nil (some e) none none h = absurd (ground arith)
stop_http_server-nil (some e) none (some f) h = absurd (ground arith)
stop_http_server-nil (some e) (some c) none h = absurd (ground arith)
stop_http_server-nil (some e) (some c) (some f) h = absurd (ground arith)

stop_http_server-IsInner :
    (shutdown_error close_error served : Option Err)
    → IsInner (stop_http_server shutdown_error close_error served).1
unfolding stop_http_server count
stop_http_server-IsInner none c f = record {
  opens = refl;
  closes = refl;
  listens = refl;
  unlistens = refl;
  serves = refl;
  works = refl;
}
stop_http_server-IsInner (some e) c f = record {
  opens = refl;
  closes = refl;
  listens = refl;
  unlistens = refl;
  serves = refl;
  works = refl;
}

serve_api-IsProper :
    (w : ApiWorld) (ending : ApiEnding)
    → w.ending ≡ ending
    → IsProper (IsGraceful w) (serve_api w ending)
unfolding serve_api count
serve_api-IsProper w (server_stopped e) h = record {
  pool = refl;
  listener = refl;
  worker = omega arith;
  code = code_of-bound (not_closed e);
  success = elim (code_of-cases (not_closed e)) [
    | inl failed ↦ inl failed
    | inr clean ↦ inr (inr (by_server e h clean))
  ];
}
serve_api-IsProper w shutdown_requested h =
    let inner = stop_http_server-IsInner w.shutdown_error w.close_error (not_closed w.served) in
    let answer = (stop_http_server w.shutdown_error w.close_error (not_closed w.served)).0 in
    record {
      pool = ground (arith, inner.opens, inner.closes);
      listener = ground (arith, inner.listens, inner.unlistens);
      worker = ground (arith, inner.works);
      code = code_of-bound answer;
      success = elim (code_of-cases answer) [
        | inl failed ↦ inl failed
        | inr clean ↦
            let (shut, served) =
              stop_http_server-nil w.shutdown_error w.close_error (not_closed w.served) clean in
            inr (inr (by_signal h shut served))
      ];
    }

listen_api-IsProper : (cfg : ApiConfig) (w : ApiWorld) → IsProper (IsGraceful w) (listen_api cfg w)
unfolding listen_api
listen_api-IsProper cfg w = unless_err-IsProper (IsGraceful w) _ _ (λ service.
    unless_err-IsProper (IsGraceful w) _ _ (λ settings. unless_ended-IsProper (IsGraceful w) _ _ (
      unless_failed-IsProper (IsGraceful w) _ _ (
        listener-IsProper (IsGraceful w) _
          (unless_ended-IsProper (IsGraceful w) _ _ (serve_api-IsProper w w.ending refl))))))

connect_api-IsProper :
    {S : Type 0} (registry : Registry S) (go process : Collector) (s : S) (cfg : ApiConfig)
    (w : ApiWorld)
    → IsProper (IsGraceful w) (connect_api registry go process s cfg w)
unfolding connect_api
connect_api-IsProper registry go process s cfg w = pool-IsProper (IsGraceful w) _ (
    unless_failed_in-IsProper (IsGraceful w) _ _ _ (
      unless_failed-IsProper (IsGraceful w) _ _ (
        unless_failed-IsProper (IsGraceful w) _ _
          (unless_failed-IsProper (IsGraceful w) _ _ (listen_api-IsProper cfg w)))))

-- However it starts and ends, the API process closes its pool and its listener as often as it opens
-- them and exits with 0 or 1. It exits with 1, or it has not started its server, or its end was
-- graceful: the server stopped without an error but ErrServerClosed, or a signal came, the server
-- shut down without an error and Serve returned without one but ErrServerClosed.
pub run_api-IsProper :
    {S : Type 0} (lib : Parsers) (lookup : Lookup) (registry : Registry S) (go process : Collector)
    (s : S) (w : ApiWorld)
    → IsProper (IsGraceful w) (run_api lib lookup registry go process s w)
unfolding run_api
run_api-IsProper lib lookup registry go process s w = unless_ended-IsProper (IsGraceful w) _ _ (
    unless_err-IsProper (IsGraceful w) _ _ (λ cfg.
      unless_failed_in-IsProper (IsGraceful w) _ _ _
        (connect_api-IsProper registry go process s cfg w)))
