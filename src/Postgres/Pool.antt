-- ===== src/Postgres/Pool.antt =====
-- internal/postgres/pool.go, over the answers of pgx.
use game_rewards_service.Base.{Bool, true, false, Option, none, some}
use game_rewards_service.Errors.{Err, message, wrap}

-- The errors of pgxpool.ParseConfig and pgxpool.NewWithConfig, if any.
unfoldable pub open_pool : Option Err → Option Err → Option Err
open_pool (some e) created = some (message "parse database config: invalid database configuration")
open_pool none (some e) = some (wrap "open database pool" e)
open_pool none none = none

-- The Boolean says whether a pool is given; then the error of its Ping within the timeout, if any.
unfoldable pub ping : Bool → Option Err → Option Err
ping false answer = some (message "postgres pool is nil")
ping true (some e) = some (wrap "ping postgres" e)
ping true none = none
