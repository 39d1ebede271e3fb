-- ===== src/Process.antt =====
-- cmd/api/main.go and cmd/worker/main.go: how a process starts, what ends it, and what it leaves. Log
-- lines are left out.
pub mod Stop
pub mod Api
pub mod Worker
pub mod Exits
mod Tests
use game_rewards_service.Base.{
  ℕ, Bool, true, false, Option, none, some, List, [], ◌∷◌, ◌++◌, if◌then◌else◌, Result, ok, err,
}
use game_rewards_service.Errors.{Err, Sentinel, is, is_context_error, server_closed}

-- What a process does to the world outside it, and to its own parts.
pub data Action : Type 0 where
  opened_pool closed_pool listening closed_listener : Action
  started_server started_worker canceled_worker worker_not_ready : Action
  shut_down_server closed_server : Action

-- The exit code of `run`, and the actions up to its return, in order.
pub record Exit : Type 0 where
  pub code : ℕ
  pub actions : List Action

abbrev pub exit : ℕ → Exit
exit code = record { code = code; actions = [] }

abbrev pub after : Action → Exit → Exit
after a x = record x { actions = a ∷ x.actions }

-- `defer`
abbrev pub deferred : Action → Exit → Exit
deferred a x = record x { actions = x.actions ++ a ∷ [] }

-- `if ctx.Err() != nil { return 0 }`
unfoldable pub unless_ended : Option Sentinel → Exit → Exit
unless_ended none rest = rest
unless_ended (some s) rest = exit 0

-- `if err != nil { return 1 }`
unfoldable pub unless_failed : Option Err → Exit → Exit
unless_failed none rest = rest
unless_failed (some e) rest = exit 1

-- The same, but 0 if the error is that of the context.
unfoldable pub unless_failed_in : Option Sentinel → Option Err → Exit → Exit
unless_failed_in ctx_error none rest = rest
unless_failed_in ctx_error (some e) rest = exit (if is_context_error ctx_error e then 0 else 1)

unfoldable pub unless_err : {E A : Type 0} → Result E A → (A → Exit) → Exit
unless_err (ok a) rest = rest a
unless_err (err e) rest = exit 1

-- The exit code after a last error, if any.
abbrev pub code_of : Option Err → ℕ
code_of none = 0
code_of (some e) = 1

-- What a goroutine makes of the error of Serve.
unfoldable pub not_closed : Option Err → Option Err
not_closed none = none
not_closed (some e) = if is e server_closed then none else some e
