-- ===== src/Process/Worker.antt =====
-- run and newWorkerID of cmd/worker/main.go.
pub mod Starts
pub mod Ends
use game_rewards_service.Base.{
  ℕ, Bool, true, false, not, Option, none, some, List, [], ◌∷◌, ◌++◌, if◌then◌else◌, Result, ok,
  err,
}
use game_rewards_service.Base.Text.{Bytes, bytes}
use game_rewards_service.Base.Text.Hex.{hex_encode}
use game_rewards_service.Errors.{Err, Sentinel, message}
use game_rewards_service.Config.{Lookup, Parsers, WorkerProcessConfig}
use game_rewards_service.Config.Load.{load_worker}
use game_rewards_service.Config.Accepted.{worker_settings}
use game_rewards_service.Postgres.Pool.{open_pool, ping}
use game_rewards_service.Outbox.Store.{new_postgres_store}
use game_rewards_service.Outbox.Worker.{new_worker}
use game_rewards_service.Metrics.{Collector, Registry, new_registry}
use game_rewards_service.Metrics.Http.{new_http_metrics}
use game_rewards_service.Metrics.Worker.{new_worker_metrics}
use game_rewards_service.Process.{
  Exit, exit, after, deferred, unless_ended, unless_failed, unless_failed_in, unless_err,
  opened_pool, closed_pool, listening, closed_listener, started_server, started_worker,
  canceled_worker, worker_not_ready, code_of,
}
use game_rewards_service.Process.Stop.{ComponentResult, stop_components}

-- newWorkerID, over the sixteen bytes that crypto/rand gives
unfoldable pub new_worker_id : List ℕ → Bytes
new_worker_id random = bytes "worker-" ++ hex_encode random

-- NewLoggingPublisher; the Boolean says whether a logger is given.
unfoldable pub new_logging_publisher : Bool → Option Err
new_logging_publisher logger = if not logger then some (message "logger must not be nil") else none

-- What ends the select: the context, or a component.
pub data WorkerEnding : Type 0 where
  signaled : WorkerEnding
  component_ended : ComponentResult → WorkerEnding

-- What the process meets: ctx.Err() where it is read, the answers of pgx and net, how it ends, and the
-- results that reach stopComponents before its deadline.
pub record WorkerWorld : Type 0 where
  pub ended_at_start : Option Sentinel
  pub parsed_config : Option Err
  pub created_pool : Option Err
  pub ended_at_pool : Option Sentinel
  pub pinged : Option Err
  pub ended_at_ping : Option Sentinel
  pub random : List ℕ
  pub ended_before_listen : Option Sentinel
  pub listened : Option Err
  pub ended_after_listen : Option Sentinel
  pub ending : WorkerEnding
  pub shutdown_error : Option Err
  pub results : List ComponentResult

-- The select.
unfoldable pub await_components : WorkerWorld → WorkerEnding → Exit
unfolding stop_components
await_components w signaled =
    let (stop_error, actions) = stop_components w.shutdown_error 2 w.results in
    record { code = code_of stop_error; actions = actions }
await_components w (component_ended result) =
    let (stop_error, actions) = stop_components w.shutdown_error 1 w.results in
    after worker_not_ready (record { code = 1; actions = actions })

-- From `context.WithCancel` on.
unfoldable pub serve_worker : WorkerWorld → Exit
unfolding await_components
serve_worker w =
    deferred canceled_worker
      (after started_worker (after started_server (await_components w w.ending)))

-- From the constructors on.
unfoldable pub listen_worker : WorkerProcessConfig → WorkerWorld → Exit
listen_worker cfg w = unless_err (new_postgres_store true cfg.database.query_timeout) (λ store.
    unless_failed (new_logging_publisher true) (
      unless_err (new_worker true true true (worker_settings (new_worker_id w.random) cfg.outbox))
        (λ worker. unless_ended w.ended_before_listen (
          unless_failed w.listened (
            after listening
              (deferred closed_listener (unless_ended w.ended_after_listen (serve_worker w))))))))

-- From `dbPool.Close` on, over the registry of Prometheus.
unfoldable pub connect_worker :
    {S : Type 0} → Registry S → Collector → Collector → S → WorkerProcessConfig → WorkerWorld → Exit
connect_worker registry go process s cfg w =
    let (registry_error, s1) = new_registry registry go process s in
    let (http_error, s2) = new_http_metrics (some registry) s1 in
    let (worker_error, s3) = new_worker_metrics (some registry) s2 in
    after opened_pool (
      deferred closed_pool (
        unless_failed_in w.ended_at_ping (ping true w.pinged) (
          unless_failed registry_error
            (unless_failed http_error (unless_failed worker_error (listen_worker cfg w))))))

unfoldable pub run_worker :
    {S : Type 0} → Parsers → Lookup → Registry S → Collector → Collector → S → WorkerWorld → Exit
run_worker lib lookup registry go process s w = unless_ended w.ended_at_start (
    unless_err (load_worker lib lookup) (λ cfg.
      unless_failed_in w.ended_at_pool (open_pool w.parsed_config w.created_pool)
        (connect_worker registry go process s cfg w)))
