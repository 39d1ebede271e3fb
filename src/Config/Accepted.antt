-- ===== src/Config/Accepted.antt =====
-- The configuration of internal/config and the constructors that cmd/worker and cmd/api hand it to.
use game_rewards_service.Base.{◌≤◌, ◌≡◌, sym, true, false, arith, ok, ok-injective, bind-eq-ok}
use game_rewards_service.Base.Int.{ℤ, pos, leb_ℤ, ◌<ℤ◌, ◌≤ℤ◌, max_int64}
use game_rewards_service.Base.Text.{Bytes, is_empty}
use game_rewards_service.Base.Text.Utf8.{rune_count}
use game_rewards_service.Config.{Lookup, Parsers, OutboxConfig, ApiConfig, WorkerProcessConfig}
use game_rewards_service.Config.Load.{load_common, load_http_config, load_api, load_worker}
use game_rewards_service.Config.Budget.{
  IsBudgeted, load_common-pos, load_worker-IsBudgeted, neg_part-pos,
}
use game_rewards_service.Outbox.Backoff.{new_backoff_policy}
use game_rewards_service.Outbox.Worker.{Worker, WorkerConfig, new_worker, with_backoff}
use game_rewards_service.Outbox.Store.{new_postgres_store}
use game_rewards_service.Rewards.Service.{new_service}

-- outbox.WorkerConfig as cmd/worker/main.go fills it.
abbrev pub worker_settings : Bytes → OutboxConfig → WorkerConfig
worker_settings worker_id cfg = record {
  worker_id = worker_id;
  poll_interval = cfg.poll_interval;
  lock_ttl = cfg.lock_ttl;
  publish_timeout = cfg.publish_timeout;
  max_failures = cfg.max_failures;
  base_backoff = cfg.base_backoff;
  max_backoff = cfg.max_backoff;
}

new_backoff_policy-accepts :
    (base max : ℤ)
    → pos 0 <ℤ base
    → pos 0 <ℤ max
    → base ≤ℤ max
    → new_backoff_policy base max ≡ ok (record { base = base; max = max })
unfolding new_backoff_policy
new_backoff_policy-accepts base max h k le = ground arith

abbrev pub built_worker : WorkerConfig → Worker
built_worker cfg = record {
  worker_id = cfg.worker_id;
  poll_interval = cfg.poll_interval;
  lock_ttl = cfg.lock_ttl;
  publish_timeout = cfg.publish_timeout;
  max_failures = cfg.max_failures;
  backoff = record { base = cfg.base_backoff; max = cfg.max_backoff };
}

new_worker-accepts :
    (worker_id : Bytes) (cfg : WorkerProcessConfig)
    → is_empty worker_id ≡ false
    → rune_count worker_id ≤ 128
    → IsBudgeted cfg
    → new_worker true true true (worker_settings worker_id cfg.outbox)
      ≡ ok (built_worker (worker_settings worker_id cfg.outbox))
unfolding new_worker with_backoff
new_worker-accepts worker_id cfg named short b =
    let accepted =
      new_backoff_policy-accepts cfg.outbox.base_backoff cfg.outbox.max_backoff b.outbox.base
        b.outbox.max b.order in
    let longer : leb_ℤ cfg.outbox.lock_ttl cfg.outbox.publish_timeout ≡ false =
      let no_debt = neg_part-pos cfg.outbox.publish_timeout b.outbox.publishes in
      let no_debt_ttl = neg_part-pos cfg.outbox.lock_ttl b.outbox.ttl in ground arith in
    ground arith

-- The process starts: a worker configuration that loads, with an identifier of 1 to 128 runes, is
-- accepted by the constructors of the worker and of its store.
pub load_worker-starts :
    (lib : Parsers) (lookup : Lookup)
    → ((s : Bytes) (m : ℤ) → lib.parse_duration s ≡ ok m → m ≤ℤ pos max_int64)
    → (worker_id : Bytes) (cfg : WorkerProcessConfig) → is_empty worker_id ≡ false
    → rune_count worker_id ≤ 128
    → load_worker lib lookup ≡ ok cfg
    → (new_worker true true true (worker_settings worker_id cfg.outbox)
        ≡ ok (built_worker (worker_settings worker_id cfg.outbox)))
      × (new_postgres_store true cfg.database.query_timeout ≡ ok cfg.database.query_timeout)
unfolding new_postgres_store
load_worker-starts lib lookup fits worker_id cfg named short h =
    let b = load_worker-IsBudgeted lib lookup fits cfg h in
    (new_worker-accepts worker_id cfg named short b, (let query = b.query in ground arith))

-- The API process starts: an API configuration that loads is accepted by the constructor of the
-- reward service.
pub load_api-starts :
    (lib : Parsers) (lookup : Lookup) (cfg : ApiConfig)
    → load_api lib lookup ≡ ok cfg
    → new_service true cfg.database.query_timeout ≡ ok cfg.database.query_timeout
unfolding load_api new_service
load_api-starts lib lookup cfg h =
    let (common, e1, h1) = bind-eq-ok (load_common lib lookup) h in
    let (http, e2, h2) = bind-eq-ok (load_http_config lib lookup _ _) h1 in
    let query = load_common-pos lib lookup common e1 in rw (sym (ok-injective h2)) (ground arith)
