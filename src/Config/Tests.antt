-- ===== src/Config/Tests.antt =====
-- Concrete environments, on which the theorems about internal/config are tried.
use game_rewards_service.Base.{◌≡◌, refl, none, some, if◌then◌else◌, err}
use game_rewards_service.Base.Text.{bytes, str_eq}
use game_rewards_service.Base.Text.Space.{trim_space}
use game_rewards_service.Config.{Lookup, lease_budget}
use game_rewards_service.Config.Values.{get_string, get_duration, get_int, get_log_level}
use game_rewards_service.Config.Load.{
  load_database_config, load_common, load_http_config, load_outbox_config, load_worker,
  validate_outbox,
}
use game_rewards_service.Config.Budget.{IsBudgeted, load_worker-IsBudgeted}
use game_rewards_service.Config.Samples.{parsers, three_failures, parsers_fit, worker_config, loads}

-- Every variable but the lease is left to its default.
abbrev short_lease : Lookup
short_lease key = if str_eq key (bytes "OUTBOX_LOCK_TTL") then some (bytes " 9s ") else none

-- Nine seconds do not cover a publish attempt of five and two queries of two seconds each.
short_lease_refused : load_worker parsers short_lease ≡ err lease_budget
unfolding load_worker load_common load_http_config load_outbox_config load_database_config
    validate_outbox get_string get_duration get_int get_log_level trim_space str_eq
short_lease_refused = refl

load_worker-IsBudgeted_example : IsBudgeted worker_config
load_worker-IsBudgeted_example =
    load_worker-IsBudgeted parsers three_failures parsers_fit worker_config loads
