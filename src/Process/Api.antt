-- ===== src/Process/Api.antt =====
-- run of cmd/api/main.go.
pub mod Starts
pub mod Ends
use game_rewards_service.Base.{
  ℕ, Bool, true, false, Option, none, some, List, [], ◌∷◌, ◌++◌, if◌then◌else◌, Result, ok, err,
}
use game_rewards_service.Errors.{Err, Sentinel}
use game_rewards_service.Config.{Lookup, Parsers, ApiConfig}
use game_rewards_service.Config.Load.{load_api}
use game_rewards_service.Postgres.Pool.{open_pool, ping}
use game_rewards_service.Rewards.Service.{new_service}
use game_rewards_service.Web.Router.{new_server}
use game_rewards_service.Metrics.{Collector, Registry, new_registry}
use game_rewards_service.Metrics.Http.{new_http_metrics}
use game_rewards_service.Metrics.Rewards.{new_reward_metrics}
use game_rewards_service.Process.{
  Exit, exit, after, deferred, unless_ended, unless_failed, unless_failed_in, unless_err,
  not_closed, opened_pool, closed_pool, listening, closed_listener, started_server, code_of,
}
use game_rewards_service.Process.Stop.{stop_http_server}

-- What ends the select: the server, with the error of Serve, or the context.
pub data ApiEnding : Type 0 where
  server_stopped : Option Err → ApiEnding
  shutdown_requested : ApiEnding

-- What the process meets: ctx.Err() where it is read, the answers of pgx and net, and how it ends.
pub record ApiWorld : Type 0 where
  pub ended_at_start : Option Sentinel
  pub parsed_config : Option Err
  pub created_pool : Option Err
  pub ended_at_pool : Option Sentinel
  pub pinged : Option Err
  pub ended_at_ping : Option Sentinel
  pub ended_before_listen : Option Sentinel
  pub listened : Option Err
  pub ended_after_listen : Option Sentinel
  pub ending : ApiEnding
  pub shutdown_error : Option Err
  pub close_error : Option Err
  pub served : Option Err

-- From `go func()`.
unfoldable pub serve_api : ApiWorld → ApiEnding → Exit
unfolding not_closed stop_http_server
serve_api w (server_stopped e) = after started_server (exit (code_of (not_closed e)))
serve_api w shutdown_requested =
    let (stop_error, actions) =
      stop_http_server w.shutdown_error w.close_error (not_closed w.served) in
    after started_server (record { code = code_of stop_error; actions = actions })

-- From the constructors on.
unfoldable pub listen_api : ApiConfig → ApiWorld → Exit
listen_api cfg w = unless_err (new_service true cfg.database.query_timeout) (λ service.
    unless_err (new_server cfg.http true true) (λ settings. unless_ended w.ended_before_listen (
      unless_failed w.listened (
        after listening
          (deferred closed_listener (unless_ended w.ended_after_listen (serve_api w w.ending)))))))

-- From `dbPool.Close` on, over the registry of Prometheus.
unfoldable pub connect_api :
    {S : Type 0} → Registry S → Collector → Collector → S → ApiConfig → ApiWorld → Exit
connect_api registry go process s cfg w =
    let (registry_error, s1) = new_registry registry go process s in
    let (http_error, s2) = new_http_metrics (some registry) s1 in
    let (reward_error, s3) = new_reward_metrics (some registry) s2 in
    after opened_pool (
      deferred closed_pool (
        unless_failed_in w.ended_at_ping (ping true w.pinged) (
          unless_failed registry_error
            (unless_failed http_error (unless_failed reward_error (listen_api cfg w))))))

unfoldable pub run_api :
    {S : Type 0} → Parsers → Lookup → Registry S → Collector → Collector → S → ApiWorld → Exit
run_api lib lookup registry go process s w = unless_ended w.ended_at_start (
    unless_err (load_api lib lookup) (λ cfg.
      unless_failed_in w.ended_at_pool (open_pool w.parsed_config w.created_pool)
        (connect_api registry go process s cfg w)))
