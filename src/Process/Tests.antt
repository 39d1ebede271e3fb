-- ===== src/Process/Tests.antt =====
-- Concrete runs of both processes, on which the theorems about them are tried.
use game_rewards_service.Base.{
  ℕ, ◌≤◌, ◌≡◌, ◌↔◌, refl, true, ltb, Option, none, some, List, [], ◌∷◌, if◌then◌else◌, take, all,
}
use game_rewards_service.Base.Text.{bytes, str_eq}
use game_rewards_service.Base.Text.Hex.{hex_encode}
use game_rewards_service.Errors.{Err, sentinel, message, canceled, server_closed, is, sentinel_eq}
use game_rewards_service.Config.Samples.{
  parsers, three_failures, parsers_fit, worker_config, loads, api_config, api_loads,
}
use game_rewards_service.Metrics.{is_one_of}
use game_rewards_service.Metrics.Samples.{plain, plain-IsRegistry, go, process}
use game_rewards_service.Metrics.Startup.{starts_with}
use game_rewards_service.Process.{
  after, deferred, opened_pool, closed_pool, listening, closed_listener, started_server,
  started_worker, canceled_worker, worker_not_ready, shut_down_server, closed_server,
}
use game_rewards_service.Process.Stop.{ComponentResult, worker, admin_server, stop_components}
use game_rewards_service.Process.Stop.Complete.{ended_well, stop_components_iff}
use game_rewards_service.Process.Exits.{IsProper}
use game_rewards_service.Process.Api.{ApiWorld, shutdown_requested, serve_api, run_api}
use game_rewards_service.Process.Api.Starts.{run_api-starts}
use game_rewards_service.Process.Api.Ends as ApiEnds
use game_rewards_service.Process.Api.Ends.{run_api-IsProper}
use game_rewards_service.Process.Worker.{
  WorkerWorld, signaled, serve_worker, run_worker, new_worker_id,
}
use game_rewards_service.Process.Worker.Starts.{run_worker-starts}
use game_rewards_service.Process.Worker.Ends as WorkerEnds
use game_rewards_service.Process.Worker.Ends.{run_worker-IsProper}

abbrev random : List ℕ
random = 0 ∷ 1 ∷ 2 ∷ 3 ∷ 250 ∷ 5 ∷ 6 ∷ 7 ∷ 8 ∷ 9 ∷ 10 ∷ 11 ∷ 12 ∷ 13 ∷ 14 ∷ 255 ∷ []

worker_id : new_worker_id random ≡ bytes "worker-00010203fa05060708090a0b0c0d0eff"
unfolding new_worker_id hex_encode
worker_id = refl

abbrev both_stop : List ComponentResult
both_stop =
    record { name = worker; error = none } ∷ record { name = admin_server; error = none } ∷ []

-- A signal comes while the worker runs.
abbrev signal_world : WorkerWorld
signal_world = record {
  ended_at_start = none;
  parsed_config = none;
  created_pool = none;
  ended_at_pool = none;
  pinged = none;
  ended_at_ping = none;
  random = random;
  ended_before_listen = none;
  listened = none;
  ended_after_listen = none;
  ending = signaled;
  shutdown_error = none;
  results = both_stop;
}

-- The database does not answer, and the context has ended by then.
abbrev early_world : WorkerWorld
early_world = record signal_world {
  pinged = some (sentinel canceled);
  ended_at_ping = some canceled;
}

abbrev api_world : ApiWorld
api_world = record {
  ended_at_start = none;
  parsed_config = none;
  created_pool = none;
  ended_at_pool = none;
  pinged = none;
  ended_at_ping = none;
  ended_before_listen = none;
  listened = none;
  ended_after_listen = none;
  ending = shutdown_requested;
  shutdown_error = some (message "deadline");
  close_error = none;
  served = some (sentinel server_closed);
}

served_until_signal : serve_worker signal_world ≡ record {
  code = 0;
  actions =
      started_worker ∷ started_server ∷ worker_not_ready ∷ canceled_worker ∷ shut_down_server
      ∷ canceled_worker ∷ [];
}
unfolding serve_worker
served_until_signal = refl

forced_shutdown :
    serve_api api_world shutdown_requested
    ≡ record { code = 1; actions = started_server ∷ shut_down_server ∷ closed_server ∷ [] }
unfolding serve_api is sentinel_eq
forced_shutdown = refl

-- One of two components does not end before the deadline.
stop_components_iff_example :
    (((stop_components none 2 (record { name = worker; error = none } ∷ [])).0 ≡ none) ↔ (
      (◌≡◌ {A = Option Err} none none)
      × (2 ≤ 1)
      × (all ended_well (take 2 (record { name = worker; error = none } ∷ [])) ≡ true)))
    × ((stop_components none 2 (record { name = worker; error = none } ∷ [])).1
        ≡ worker_not_ready
          ∷ canceled_worker
          ∷ shut_down_server
          ∷ (if ltb 1 2 then closed_server ∷ [] else []))
stop_components_iff_example =
    stop_components_iff none 2 (record { name = worker; error = none } ∷ [])

run_worker-starts_example :
    run_worker parsers three_failures plain go process [] signal_world
    ≡ after opened_pool (
        deferred closed_pool
          (after listening (deferred closed_listener (serve_worker signal_world))))
unfolding is_one_of str_eq starts_with
run_worker-starts_example =
    run_worker-starts parsers three_failures parsers_fit plain plain-IsRegistry go process [] refl
      refl refl worker_config signal_world loads
      (record {
        at_start = refl;
        parsed = refl;
        created = refl;
        pings = refl;
        before_listen = refl;
        listens = refl;
        after_listen = refl;
        sixteen = refl;
      })

run_api-starts_example :
    run_api parsers three_failures plain go process [] api_world
    ≡ after opened_pool (
        deferred closed_pool
          (after listening (deferred closed_listener (serve_api api_world shutdown_requested))))
unfolding is_one_of str_eq starts_with
run_api-starts_example =
    run_api-starts parsers three_failures plain plain-IsRegistry go process [] refl refl refl
      api_config api_world api_loads
      (record {
        at_start = refl;
        parsed = refl;
        created = refl;
        pings = refl;
        before_listen = refl;
        listens = refl;
        after_listen = refl;
      })

run_worker-IsProper_example :
    IsProper
      (WorkerEnds.IsGraceful early_world)
      (run_worker parsers three_failures plain go process [] early_world)
run_worker-IsProper_example =
    run_worker-IsProper parsers three_failures plain go process [] early_world

run_api-IsProper_example :
    IsProper
      (ApiEnds.IsGraceful api_world)
      (run_api parsers three_failures plain go process [] api_world)
run_api-IsProper_example = run_api-IsProper parsers three_failures plain go process [] api_world
