-- ===== src/Process/Api/Starts.antt =====
-- The start of the API process.
use game_rewards_service.Base.{◌≡◌, refl, true, none, List, [], ◌++◌, ok}
use game_rewards_service.Base.Text.{Bytes}
use game_rewards_service.Config.{Lookup, Parsers, ApiConfig}
use game_rewards_service.Config.Load.{load_api}
use game_rewards_service.Config.Accepted.{load_api-starts}
use game_rewards_service.Postgres.Pool.{open_pool, ping}
use game_rewards_service.Web.Router.{new_server}
use game_rewards_service.Metrics.{Collector, Registry}
use game_rewards_service.Metrics.Startup.{IsRegistry, are_new, outside, registrations-accepted}
use game_rewards_service.Process.{
  after, deferred, unless_ended, unless_failed, unless_failed_in, unless_err, opened_pool,
  closed_pool, listening, closed_listener,
}
use game_rewards_service.Process.Api.{ApiWorld, serve_api, listen_api, connect_api, run_api}

-- The database answers, the port is free, and no signal comes before the server starts.
pub record IsUp (w : ApiWorld) : Type 0 where
  pub at_start : w.ended_at_start ≡ none
  pub parsed : w.parsed_config ≡ none
  pub created : w.created_pool ≡ none
  pub pings : w.pinged ≡ none
  pub before_listen : w.ended_before_listen ≡ none
  pub listens : w.listened ≡ none
  pub after_listen : w.ended_after_listen ≡ none

listen_api-serves :
    (lib : Parsers) (lookup : Lookup) (cfg : ApiConfig) (w : ApiWorld)
    → load_api lib lookup ≡ ok cfg
    → IsUp w
    → listen_api cfg w ≡ after listening (deferred closed_listener (serve_api w w.ending))
unfolding unless_ended unless_failed unless_err new_server listen_api serve_api
listen_api-serves lib lookup cfg w loads up =
    rw
      (
        listen_api,
        load_api-starts lib lookup cfg loads,
        up.before_listen,
        up.listens,
        up.after_listen,
      )
      refl

-- An API process whose configuration loads, over a registry that behaves as Prometheus documents,
-- comes to serve when the database answers, the port is free and no signal comes before: none of its
-- own constructors stops it. It opens its pool and its listener before, and closes them after.
pub run_api-starts :
    {S : Type 0} (lib : Parsers) (lookup : Lookup) (registry : Registry S)
    (documented : IsRegistry registry) (go process : Collector) (s : S)
    (empty : ◌≡◌ {A = List Bytes} (registry.names s) [])
    (distinct : are_new process.describes go.describes ≡ true)
    (foreign : outside (process.describes ++ go.describes) ≡ true) (cfg : ApiConfig) (w : ApiWorld)
    → load_api lib lookup ≡ ok cfg
    → IsUp w
    → run_api lib lookup registry go process s w
      ≡ after opened_pool
          (deferred closed_pool (after listening (deferred closed_listener (serve_api w w.ending))))
unfolding unless_ended unless_failed unless_failed_in unless_err open_pool ping run_api serve_api
    connect_api listen_api
run_api-starts lib lookup registry documented go process s empty distinct foreign cfg w loads up =
    let (first, http, rewards, worker) =
      registrations-accepted registry documented go process s empty distinct foreign in
    rw
      (
        up.at_start,
        run_api,
        loads,
        up.parsed,
        up.created,
        connect_api,
        up.pings,
        first,
        http,
        rewards,
        listen_api-serves lib lookup cfg w loads up,
      )
      refl
