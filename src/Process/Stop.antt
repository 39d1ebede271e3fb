-- ===== src/Process/Stop.antt =====
-- stopHTTPServer of cmd/api/main.go and stopComponents of cmd/worker/main.go.
pub mod Complete
use game_rewards_service.Base.{
  ℕ, zero, suc, ◌≡◌, Bool, true, false, Option, none, some, List, [], ◌∷◌, ◌++◌, if◌then◌else◌,
}
use Prim.Native.String.{String}
use game_rewards_service.Errors.{Err, sentinel, wrap, join, deadline_exceeded}
use game_rewards_service.Process.{
  Action, worker_not_ready, canceled_worker, shut_down_server, closed_server,
}

-- errors.Join of two errors, either of which may be nil
abbrev pub join_errors : Option Err → Option Err → Option Err
join_errors none f = f
join_errors (some e) none = some e
join_errors (some e) (some f) = some (join e f)

abbrev pub labelled : String → Option Err → Option Err
labelled label none = none
labelled label (some e) = some (wrap label e)

-- The answers of Shutdown, of Close, which is called if Shutdown fails, and of the goroutine that
-- serves.
unfoldable pub stop_http_server : Option Err → Option Err → Option Err → Option Err × List Action
stop_http_server none close_error served =
    (labelled "http server stopped" served, shut_down_server ∷ [])
stop_http_server (some e) close_error served = (
  join_errors (some (wrap "graceful http server shutdown" e)) (
      join_errors (labelled "force close http server" close_error)
        (labelled "http server stopped" served)),
  shut_down_server ∷ closed_server ∷ [],
)

pub data Component : Type 0 where
  worker admin_server : Component

pub record ComponentResult : Type 0 where
  pub name : Component
  pub error : Option Err

stopped : ComponentResult → Option Err
stopped result = elim result.name [
  | worker ↦ labelled "worker stopped" result.error
  | admin_server ↦ labelled "admin_server stopped" result.error
]

-- The loop over the results that arrive before the deadline, in order; at the end of the list the
-- deadline has passed. `none` is the return at the deadline.
unfoldable pub collect : ℕ → List ComponentResult → Option Err → Option (Option Err)
unfolding stopped
collect zero results component_error = some component_error
collect (suc remaining) [] component_error = none
collect (suc remaining) (result ∷ results) component_error =
    collect remaining results (join_errors component_error (stopped result))

unfoldable pub stop_components : Option Err → ℕ → List ComponentResult → Option Err × List Action
unfolding collect
stop_components shutdown_error remaining results =
    let begun = worker_not_ready ∷ canceled_worker ∷ shut_down_server ∷ [] in
    elim (collect remaining results none) [
      | none ↦ (
        some (wrap "shutdown timed out" (sentinel deadline_exceeded)),
        begun ++ closed_server ∷ [],
      )
      | some component_error ↦ (
        join_errors (labelled "shutdown worker admin server" shutdown_error) component_error,
        begun,
      )
    ]
