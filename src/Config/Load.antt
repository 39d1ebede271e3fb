-- ===== src/Config/Load.antt =====
-- The loaders of internal/config/config.go, over a lookup function.
use game_rewards_service.Base.{if◌then◌else◌, Result, ok, err, ◌>>=◌, ◌>>◌}
use game_rewards_service.Base.Int.{ℤ, leb_ℤ, ltb_ℤ, ◌-ℤ◌, wrap64}
use game_rewards_service.Base.Text.{Bytes, bytes}
use game_rewards_service.Config.{
  Lookup, Parsers, ConfigError, lease_budget, backoff_order, HttpConfig, DatabaseConfig,
  OutboxConfig, ApiConfig, WorkerProcessConfig, CommonConfig, default_app_env, default_service_name,
  default_http_addr, default_http_read_timeout, default_http_read_header_timeout,
  default_http_write_timeout, default_http_idle_timeout, default_shutdown_timeout,
  default_database_url, default_db_ping_timeout, default_db_query_timeout,
  default_worker_admin_addr, default_worker_poll_interval, default_outbox_lock_ttl,
  default_outbox_publish_timeout, default_outbox_max_failures, default_outbox_base_backoff,
  default_outbox_max_backoff, default_log_level,
}
use game_rewards_service.Config.Values.{get_string, get_duration, get_int, get_log_level}

module _ (lib : Parsers) (lookup : Lookup) where
  unfoldable pub load_database_config : Result ConfigError DatabaseConfig
  load_database_config = do
    url ← get_string lookup (bytes "DATABASE_URL") default_database_url
    ping ← get_duration lib lookup (bytes "DB_PING_TIMEOUT") default_db_ping_timeout
    query ← get_duration lib lookup (bytes "DB_QUERY_TIMEOUT") default_db_query_timeout
    ok (record { url = url; ping_timeout = ping; query_timeout = query })

  unfoldable pub load_common : Result ConfigError CommonConfig
  load_common = do
    env ← get_string lookup (bytes "APP_ENV") default_app_env
    name ← get_string lookup (bytes "SERVICE_NAME") default_service_name
    database ← load_database_config
    shutdown ← get_duration lib lookup (bytes "SHUTDOWN_TIMEOUT") default_shutdown_timeout
    level ← get_log_level lib lookup (bytes "LOG_LEVEL") default_log_level
    ok (record {
      app_env = env;
      service_name = name;
      database = database;
      log_level = level;
      shutdown_timeout = shutdown;
    })

  unfoldable pub load_http_config : Bytes → Bytes → Result ConfigError HttpConfig
  load_http_config addr_key default_addr = do
    addr ← get_string lookup addr_key default_addr
    read ← get_duration lib lookup (bytes "HTTP_READ_TIMEOUT") default_http_read_timeout
    header ←
        get_duration lib lookup (bytes "HTTP_READ_HEADER_TIMEOUT") default_http_read_header_timeout
    write ← get_duration lib lookup (bytes "HTTP_WRITE_TIMEOUT") default_http_write_timeout
    idle ← get_duration lib lookup (bytes "HTTP_IDLE_TIMEOUT") default_http_idle_timeout
    ok (record {
      addr = addr;
      read_timeout = read;
      read_header_timeout = header;
      write_timeout = write;
      idle_timeout = idle;
    })

  unfoldable pub load_outbox_config : Result ConfigError OutboxConfig
  load_outbox_config = do
    poll ← get_duration lib lookup (bytes "WORKER_POLL_INTERVAL") default_worker_poll_interval
    lock ← get_duration lib lookup (bytes "OUTBOX_LOCK_TTL") default_outbox_lock_ttl
    publish ←
        get_duration lib lookup (bytes "OUTBOX_PUBLISH_TIMEOUT") default_outbox_publish_timeout
    failures ← get_int lib lookup (bytes "OUTBOX_MAX_FAILURES") default_outbox_max_failures
    base ← get_duration lib lookup (bytes "OUTBOX_BASE_BACKOFF") default_outbox_base_backoff
    max ← get_duration lib lookup (bytes "OUTBOX_MAX_BACKOFF") default_outbox_max_backoff
    ok (record {
      poll_interval = poll;
      lock_ttl = lock;
      publish_timeout = publish;
      max_failures = failures;
      base_backoff = base;
      max_backoff = max;
    })

-- The two subtractions are those of int64.
unfoldable pub validate_outbox : OutboxConfig → ℤ → Result ConfigError (Unit {0})
validate_outbox cfg query_timeout =
    let after_publish = wrap64 (cfg.lock_ttl -ℤ cfg.publish_timeout) in
    let after_claim = wrap64 (after_publish -ℤ query_timeout) in
    if leb_ℤ cfg.lock_ttl cfg.publish_timeout
    then err lease_budget
    else if leb_ℤ after_publish query_timeout
    then err lease_budget
    else if leb_ℤ after_claim query_timeout
    then err lease_budget
    else if ltb_ℤ cfg.max_backoff cfg.base_backoff
    then err backoff_order
    else ok tt

module _ (lib : Parsers) (lookup : Lookup) where
  unfoldable pub load_api : Result ConfigError ApiConfig
  load_api = do
    common ← load_common lib lookup
    http ← load_http_config lib lookup (bytes "HTTP_ADDR") default_http_addr
    ok (record {
      app_env = common.app_env;
      service_name = common.service_name;
      http = http;
      database = common.database;
      log_level = common.log_level;
      shutdown_timeout = common.shutdown_timeout;
    })

  unfoldable pub load_worker : Result ConfigError WorkerProcessConfig
  load_worker = do
    common ← load_common lib lookup
    admin ← load_http_config lib lookup (bytes "WORKER_ADMIN_ADDR") default_worker_admin_addr
    outbox ← load_outbox_config lib lookup
    validate_outbox outbox common.database.query_timeout
    ok (record {
      app_env = common.app_env;
      service_name = common.service_name;
      admin_http = admin;
      database = common.database;
      outbox = outbox;
      log_level = common.log_level;
      shutdown_timeout = common.shutdown_timeout;
    })
