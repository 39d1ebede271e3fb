-- ===== src/Config/Budget.antt =====
-- validateOutbox and the loaders of internal/config/config.go: the lease budget of a configuration
-- that loads.
use game_rewards_service.Base.{
  ℕ, ◌+◌, ◌-◌, ◌*◌, ◌<◌, ◌≤◌, ◌≡◌, refl, sym, arith, ok, ok-injective, bind-eq-ok,
}
use game_rewards_service.Base.Int.{
  ℤ, pos, negsuc, ◌<ℤ◌, ◌≤ℤ◌, pos_part, neg_part, ◌-ℤ◌, wrap64, wrap64-pos, max_int64,
}
use game_rewards_service.Base.Text.{Bytes}
use game_rewards_service.Config.{
  Lookup, Parsers, DatabaseConfig, OutboxConfig, WorkerProcessConfig, CommonConfig, HttpConfig,
}
use game_rewards_service.Config.Values.{
  get_string, get_log_level, get_duration, get_int, get_duration-pos, get_duration-fits,
  get_int-pos,
}
use game_rewards_service.Config.Load.{
  load_database_config, load_common, load_http_config, load_outbox_config, load_worker,
  validate_outbox,
}

pub record IsOutbox (cfg : OutboxConfig) : Type 0 where
  pub polls : pos 0 <ℤ cfg.poll_interval
  pub ttl : pos 0 <ℤ cfg.lock_ttl
  pub publishes : pos 0 <ℤ cfg.publish_timeout
  pub failures : pos 0 <ℤ cfg.max_failures
  pub base : pos 0 <ℤ cfg.base_backoff
  pub max : pos 0 <ℤ cfg.max_backoff

pub record IsHttp (cfg : HttpConfig) : Type 0 where
  pub read : pos 0 <ℤ cfg.read_timeout
  pub header : pos 0 <ℤ cfg.read_header_timeout
  pub write : pos 0 <ℤ cfg.write_timeout
  pub idle : pos 0 <ℤ cfg.idle_timeout

pub record IsCommon (cfg : CommonConfig) : Type 0 where
  pub pings : pos 0 <ℤ cfg.database.ping_timeout
  pub query : pos 0 <ℤ cfg.database.query_timeout
  pub shutdown : pos 0 <ℤ cfg.shutdown_timeout

-- The durations are positive, and the lease covers the claim, the publish attempt and the final
-- transition; the subtractions of validateOutbox do not wrap.
pub record IsBudgeted (cfg : WorkerProcessConfig) : Type 0 where
  pub outbox : IsOutbox cfg.outbox
  pub admin : IsHttp cfg.admin_http
  pub pings : pos 0 <ℤ cfg.database.ping_timeout
  pub query : pos 0 <ℤ cfg.database.query_timeout
  pub shutdown : pos 0 <ℤ cfg.shutdown_timeout
  pub lease :
      pos_part cfg.outbox.publish_timeout + 2 * pos_part cfg.database.query_timeout
      < pos_part cfg.outbox.lock_ttl
  pub after_publish :
      wrap64 (cfg.outbox.lock_ttl -ℤ cfg.outbox.publish_timeout)
      ≡ pos (pos_part cfg.outbox.lock_ttl - pos_part cfg.outbox.publish_timeout)
  pub after_claim :
      wrap64 (
        pos (pos_part cfg.outbox.lock_ttl - pos_part cfg.outbox.publish_timeout)
        -ℤ cfg.database.query_timeout)
      ≡ pos (
          pos_part cfg.outbox.lock_ttl
          - pos_part cfg.outbox.publish_timeout
          - pos_part cfg.database.query_timeout)
  pub order : cfg.outbox.base_backoff ≤ℤ cfg.outbox.max_backoff

module _ (lib : Parsers) (lookup : Lookup) where
  load_database_config-pos :
      (db : DatabaseConfig)
      → load_database_config lib lookup ≡ ok db
      → (pos 0 <ℤ db.ping_timeout) × (pos 0 <ℤ db.query_timeout)
  unfolding load_database_config
  load_database_config-pos db h =
      let (url, e1, h1) = bind-eq-ok (get_string lookup _ _) h in
      let (ping, e2, h2) = bind-eq-ok (get_duration lib lookup _ _) h1 in
      let (query, e3, h3) = bind-eq-ok (get_duration lib lookup _ _) h2 in
      rw (sym (ok-injective h3)) (
        get_duration-pos lib lookup _ _ ping (omega arith) e2,
        get_duration-pos lib lookup _ _ query (omega arith) e3,
      )

  load_http_config-IsHttp :
      (key default_addr : Bytes) (cfg : HttpConfig)
      → load_http_config lib lookup key default_addr ≡ ok cfg
      → IsHttp cfg
  unfolding load_http_config
  load_http_config-IsHttp key default_addr cfg h =
      let (addr, e1, h1) = bind-eq-ok (get_string lookup _ _) h in
      let (read, e2, h2) = bind-eq-ok (get_duration lib lookup _ _) h1 in
      let (header, e3, h3) = bind-eq-ok (get_duration lib lookup _ _) h2 in
      let (write, e4, h4) = bind-eq-ok (get_duration lib lookup _ _) h3 in
      let (idle, e5, h5) = bind-eq-ok (get_duration lib lookup _ _) h4 in
      rw (sym (ok-injective h5)) (record {
        read = get_duration-pos lib lookup _ _ read (omega arith) e2;
        header = get_duration-pos lib lookup _ _ header (omega arith) e3;
        write = get_duration-pos lib lookup _ _ write (omega arith) e4;
        idle = get_duration-pos lib lookup _ _ idle (omega arith) e5;
      })

  load_outbox_config-IsOutbox :
      ((s : Bytes) (m : ℤ) → lib.parse_duration s ≡ ok m → m ≤ℤ pos max_int64)
      → (cfg : OutboxConfig) → load_outbox_config lib lookup ≡ ok cfg
      → IsOutbox cfg × (cfg.lock_ttl ≤ℤ pos max_int64)
  unfolding load_outbox_config
  load_outbox_config-IsOutbox fits cfg h =
      let (poll, e1, h1) = bind-eq-ok (get_duration lib lookup _ _) h in
      let (lock, e2, h2) = bind-eq-ok (get_duration lib lookup _ _) h1 in
      let (publish, e3, h3) = bind-eq-ok (get_duration lib lookup _ _) h2 in
      let (failures, e4, h4) = bind-eq-ok (get_int lib lookup _ _) h3 in
      let (base, e5, h5) = bind-eq-ok (get_duration lib lookup _ _) h4 in
      let (max, e6, h6) = bind-eq-ok (get_duration lib lookup _ _) h5 in
      rw (sym (ok-injective h6)) (
        record {
          polls = get_duration-pos lib lookup _ _ poll (omega arith) e1;
          ttl = get_duration-pos lib lookup _ _ lock (omega arith) e2;
          publishes = get_duration-pos lib lookup _ _ publish (omega arith) e3;
          failures = get_int-pos lib lookup _ _ failures (omega arith) e4;
          base = get_duration-pos lib lookup _ _ base (omega arith) e5;
          max = get_duration-pos lib lookup _ _ max (omega arith) e6;
        },
        get_duration-fits lib lookup _ _ lock (omega arith) fits (omega arith) e2,
      )

remains : (a b : ℕ) → b < a → a ≤ max_int64 → wrap64 (pos a -ℤ pos b) ≡ pos (a - b)
remains a b h k = let step = wrap64-pos (a - b) (omega arith) in ground arith

lease_first :
    (cfg : OutboxConfig) (ttl publish query : ℕ)
    → cfg.lock_ttl ≡ pos ttl
    → cfg.publish_timeout ≡ pos publish
    → validate_outbox cfg (pos query) ≡ ok tt
    → publish < ttl
unfolding validate_outbox
lease_first cfg ttl publish query e1 e2 h = ground arith

lease_second :
    (cfg : OutboxConfig) (ttl publish query : ℕ)
    → cfg.lock_ttl ≡ pos ttl
    → cfg.publish_timeout ≡ pos publish
    → wrap64 (cfg.lock_ttl -ℤ cfg.publish_timeout) ≡ pos (ttl - publish)
    → validate_outbox cfg (pos query) ≡ ok tt
    → query < ttl - publish
unfolding validate_outbox
lease_second cfg ttl publish query e1 e2 e h = ground arith

lease_third :
    (cfg : OutboxConfig) (query left : ℕ)
    → wrap64 (wrap64 (cfg.lock_ttl -ℤ cfg.publish_timeout) -ℤ pos query) ≡ pos left
    → validate_outbox cfg (pos query) ≡ ok tt
    → query < left
unfolding validate_outbox
lease_third cfg query left e h = ground arith

validate_outbox-order :
    (cfg : OutboxConfig) (query : ℤ)
    → validate_outbox cfg query ≡ ok tt
    → cfg.base_backoff ≤ℤ cfg.max_backoff
unfolding validate_outbox
validate_outbox-order cfg query h = ground arith

budget :
    (cfg : OutboxConfig) (ttl publish query : ℕ)
    → cfg.lock_ttl ≡ pos ttl
    → cfg.publish_timeout ≡ pos publish
    → ttl ≤ max_int64
    → validate_outbox cfg (pos query) ≡ ok tt
    → publish + 2 * query < ttl
budget cfg ttl publish query e1 e2 k h =
    let first = lease_first cfg ttl publish query e1 e2 h in
    let left : wrap64 (cfg.lock_ttl -ℤ cfg.publish_timeout) ≡ pos (ttl - publish) =
      rw (e1, e2) (remains ttl publish first k) in
    let second = lease_second cfg ttl publish query e1 e2 left h in
    let third =
      lease_third cfg query (ttl - publish - query)
        (rw left (remains (ttl - publish) query second (omega arith))) h in
    omega arith

positive : (z : ℤ) → pos 0 <ℤ z → z ≡ pos (pos_part z)
positive (pos n) h = refl
positive (negsuc n) h = absurd (omega arith)

pub neg_part-pos : (z : ℤ) → pos 0 <ℤ z → neg_part z ≡ 0
neg_part-pos (pos n) h = refl
neg_part-pos (negsuc n) h = absurd (omega arith)

-- The budget for the numbers as they stand in the records.
budget_ℤ :
    (cfg : OutboxConfig) (query : ℤ)
    → IsOutbox cfg
    → cfg.lock_ttl ≤ℤ pos max_int64
    → pos 0 <ℤ query
    → validate_outbox cfg query ≡ ok tt
    → pos_part cfg.publish_timeout + 2 * pos_part query < pos_part cfg.lock_ttl
budget_ℤ cfg (negsuc n) outbox fits query-pos h = absurd (omega arith)
budget_ℤ cfg (pos n) outbox fits query-pos h =
    let no_debt = neg_part-pos cfg.lock_ttl outbox.ttl in
    budget cfg (pos_part cfg.lock_ttl) (pos_part cfg.publish_timeout) n
      (positive cfg.lock_ttl outbox.ttl) (positive cfg.publish_timeout outbox.publishes)
      (omega arith) h

module _ (lib : Parsers) (lookup : Lookup) where
  load_common-IsCommon : (cfg : CommonConfig) → load_common lib lookup ≡ ok cfg → IsCommon cfg
  unfolding load_common
  load_common-IsCommon cfg h =
      let (env, e1, h1) = bind-eq-ok (get_string lookup _ _) h in
      let (name, e2, h2) = bind-eq-ok (get_string lookup _ _) h1 in
      let (db, e3, h3) = bind-eq-ok (load_database_config lib lookup) h2 in
      let (shutdown, e4, h4) = bind-eq-ok (get_duration lib lookup _ _) h3 in
      let (level, e5, h5) = bind-eq-ok (get_log_level lib lookup _ _) h4 in
      let (ping, query) = load_database_config-pos lib lookup db e3 in
      rw (sym (ok-injective h5)) (record {
        pings = ping;
        query = query;
        shutdown = get_duration-pos lib lookup _ _ shutdown (omega arith) e4;
      })

  pub load_common-pos :
      (cfg : CommonConfig) → load_common lib lookup ≡ ok cfg → pos 0 <ℤ cfg.database.query_timeout
  load_common-pos cfg h = (load_common-IsCommon cfg h).query

-- Differences of positive durations, as int64 has them.
remains_ℤ :
    (a b : ℤ)
    → pos 0 <ℤ a
    → pos 0 <ℤ b
    → a ≤ℤ pos max_int64
    → pos_part b < pos_part a
    → wrap64 (a -ℤ b) ≡ pos (pos_part a - pos_part b)
remains_ℤ a b ha hb k h =
    let no_debt = neg_part-pos a ha in
    rw (positive a ha, positive b hb) (remains (pos_part a) (pos_part b) h (omega arith))

module _ (lib : Parsers) (lookup : Lookup)
    (fits : (s : Bytes) (m : ℤ) → lib.parse_duration s ≡ ok m → m ≤ℤ pos max_int64) where
  -- A worker configuration that loads has positive durations (of the outbox, the admin server, the
  -- database and the shutdown) and a positive failure budget, a maximal backoff not below the base, and
  -- a lease longer than a publish attempt and two queries; neither int64 subtraction of the check
  -- wraps. The duration parser's results are within int64.
  pub load_worker-IsBudgeted :
      (cfg : WorkerProcessConfig) → load_worker lib lookup ≡ ok cfg → IsBudgeted cfg
  unfolding load_worker
  load_worker-IsBudgeted cfg h =
      let (common, e1, h1) = bind-eq-ok (load_common lib lookup) h in
      let (admin, e2, h2) = bind-eq-ok (load_http_config lib lookup _ _) h1 in
      let (outbox, e3, h3) = bind-eq-ok (load_outbox_config lib lookup) h2 in
      let (u, e4, h4) = bind-eq-ok (validate_outbox outbox common.database.query_timeout) h3 in
      let times = load_common-IsCommon lib lookup common e1 in
      let query = times.query in
      let (valid, ttl) = load_outbox_config-IsOutbox lib lookup fits outbox e3 in
      let lease = budget_ℤ outbox common.database.query_timeout valid ttl query e4 in
      let no_debt = neg_part-pos outbox.lock_ttl valid.ttl in
      rw (sym (ok-injective h4)) (record {
        outbox = valid;
        admin = load_http_config-IsHttp lib lookup _ _ admin e2;
        pings = times.pings;
        query = query;
        shutdown = times.shutdown;
        lease = lease;
        after_publish =
            remains_ℤ outbox.lock_ttl outbox.publish_timeout valid.ttl valid.publishes ttl
              (omega arith);
        after_claim =
            remains_ℤ (pos (pos_part outbox.lock_ttl - pos_part outbox.publish_timeout))
              common.database.query_timeout (omega arith) query (omega arith) (omega arith);
        order = validate_outbox-order outbox common.database.query_timeout e4;
      })
