-- ===== src/Process/Worker/Starts.antt =====
-- The start of the worker process.
use game_rewards_service.Base.{
  ℕ, ◌≤◌, ◌≡◌, refl, true, false, none, List, [], ◌++◌, arith, ok, length,
}
use game_rewards_service.Base.Int.{ℤ, pos, ◌≤ℤ◌, max_int64}
use game_rewards_service.Base.Text.{Bytes, bytes, is_empty}
use game_rewards_service.Base.Text.Utf8.{rune_count, rune_count-le-length}
use game_rewards_service.Base.Text.Hex.{hex_encode, length-hex_encode}
use game_rewards_service.Config.{Lookup, Parsers, WorkerProcessConfig}
use game_rewards_service.Config.Load.{load_worker}
use game_rewards_service.Config.Accepted.{load_worker-starts}
use game_rewards_service.Postgres.Pool.{open_pool, ping}
use game_rewards_service.Metrics.{Collector, Registry}
use game_rewards_service.Metrics.Startup.{IsRegistry, are_new, outside, registrations-accepted}
use game_rewards_service.Process.{
  after, deferred, unless_ended, unless_failed, unless_failed_in, unless_err, opened_pool,
  closed_pool, listening, closed_listener,
}
use game_rewards_service.Process.Worker.{
  WorkerWorld, new_worker_id, new_logging_publisher, serve_worker, listen_worker, connect_worker,
  run_worker,
}

new_worker_id-named : (random : List ℕ) → is_empty (new_worker_id random) ≡ false
unfolding new_worker_id
new_worker_id-named random = refl

new_worker_id-short :
    (random : List ℕ) → length random ≡ 16 → rune_count (new_worker_id random) ≤ 128
unfolding new_worker_id
new_worker_id-short random sixteen =
    omega
      (arith, rune_count-le-length (bytes "worker-" ++ hex_encode random), length-hex_encode random)

-- The database answers, the port is free, and no signal comes before the server starts.
pub record IsUp (w : WorkerWorld) : Type 0 where
  pub at_start : w.ended_at_start ≡ none
  pub parsed : w.parsed_config ≡ none
  pub created : w.created_pool ≡ none
  pub pings : w.pinged ≡ none
  pub before_listen : w.ended_before_listen ≡ none
  pub listens : w.listened ≡ none
  pub after_listen : w.ended_after_listen ≡ none
  pub sixteen : length w.random ≡ 16

listen_worker-serves :
    (lib : Parsers) (lookup : Lookup)
    → ((t : Bytes) (m : ℤ) → lib.parse_duration t ≡ ok m → m ≤ℤ pos max_int64)
    → (cfg : WorkerProcessConfig) (w : WorkerWorld) → load_worker lib lookup ≡ ok cfg
    → IsUp w
    → listen_worker cfg w ≡ after listening (deferred closed_listener (serve_worker w))
unfolding unless_ended unless_failed unless_err new_logging_publisher listen_worker serve_worker
listen_worker-serves lib lookup fits cfg w loads up =
    let (worker, store) =
      load_worker-starts lib lookup fits (new_worker_id w.random) cfg (new_worker_id-named w.random)
        (new_worker_id-short w.random up.sixteen) loads in
    rw (listen_worker, store, worker, up.before_listen, up.listens, up.after_listen) refl

-- A worker process whose configuration loads, over a registry that behaves as Prometheus documents,
-- comes to serve when the database answers, the port is free and no signal comes before: none of its
-- own constructors stops it. It opens its pool and its listener before, and closes them after.
pub run_worker-starts :
    {S : Type 0} (lib : Parsers) (lookup : Lookup)
    (fits : (t : Bytes) (m : ℤ) → lib.parse_duration t ≡ ok m → m ≤ℤ pos max_int64)
    (registry : Registry S) (documented : IsRegistry registry) (go process : Collector) (s : S)
    (empty : ◌≡◌ {A = List Bytes} (registry.names s) [])
    (distinct : are_new process.describes go.describes ≡ true)
    (foreign : outside (process.describes ++ go.describes) ≡ true) (cfg : WorkerProcessConfig)
    (w : WorkerWorld)
    → load_worker lib lookup ≡ ok cfg
    → IsUp w
    → run_worker lib lookup registry go process s w
      ≡ after opened_pool
          (deferred closed_pool (after listening (deferred closed_listener (serve_worker w))))
unfolding unless_ended unless_failed unless_failed_in unless_err open_pool ping run_worker
    serve_worker connect_worker listen_worker
run_worker-starts lib lookup fits registry documented go process s empty distinct foreign cfg w
      loads up =
    let (first, http, rewards, worker) =
      registrations-accepted registry documented go process s empty distinct foreign in
    rw
      (
        up.at_start,
        run_worker,
        loads,
        up.parsed,
        up.created,
        connect_worker,
        up.pings,
        first,
        http,
        worker,
        listen_worker-serves lib lookup fits cfg w loads up,
      )
      refl
