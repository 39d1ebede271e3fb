-- ===== src/Process/Stop/Complete.antt =====
-- When the worker process has stopped its components.
use game_rewards_service.Base.{
  ℕ, zero, suc, ◌≤◌, ◌<◌, ◌≡◌, ◌↔◌, Bool, true, false, ltb, Option, none, some, List, [], ◌∷◌,
  arith, if◌then◌else◌, length, take, all, Option-cases, inl, inr,
}
use Prim.Native.String.{String}
use game_rewards_service.Errors.{Err}
use game_rewards_service.Process.{
  worker_not_ready, canceled_worker, shut_down_server, closed_server,
}
use game_rewards_service.Process.Stop.{
  ComponentResult, collect, stopped, join_errors, labelled, stop_components,
}

abbrev pub ended_well : ComponentResult → Bool
ended_well result = elim result.error [ none ↦ true | some e ↦ false ]

stopped_iff : (r : ComponentResult) → (stopped r ≡ none) ↔ (ended_well r ≡ true)
unfolding stopped
stopped_iff r = ground arith

join_errors_iff : (e f : Option Err) → (join_errors e f ≡ none) ↔ ((e ≡ none) × (f ≡ none))
join_errors_iff none f = ground arith
join_errors_iff (some e) none = ground arith
join_errors_iff (some e) (some f) = ground arith

collect_iff :
    (n : ℕ) (rs : List ComponentResult) (acc : Option Err)
    → (collect n rs acc ≡ some none)
      ↔ ((acc ≡ none) × (n ≤ length rs) × (all ended_well (take n rs) ≡ true))
unfolding collect stopped
collect_iff zero rs none = ground arith
collect_iff zero rs (some e) = ground arith
collect_iff (suc n) [] acc = ground arith
collect_iff (suc n) (r ∷ rs) acc = ground (
  arith,
  collect_iff n rs (join_errors acc (stopped r)),
  join_errors_iff acc (stopped r),
  stopped_iff r,
)

collect_late :
    (n : ℕ) (rs : List ComponentResult) (acc : Option Err)
    → (collect n rs acc ≡ none) ↔ (length rs < n)
unfolding collect
collect_late zero rs acc = ground arith
collect_late (suc n) [] acc = ground arith
collect_late (suc n) (r ∷ rs) acc = ground (arith, collect_late n rs (join_errors acc (stopped r)))

labelled_iff : (label : String) (e : Option Err) → (labelled label e ≡ none) ↔ (e ≡ none)
labelled_iff label none = ground arith
labelled_iff label (some e) = ground arith

-- stopComponents always returns. It returns nil exactly when the server shuts down without an error
-- and as many components as are left end without an error before the deadline; the server is closed
-- by force exactly when fewer of them end before it.
pub stop_components_iff :
    (shutdown_error : Option Err) (remaining : ℕ) (results : List ComponentResult)
    → (((stop_components shutdown_error remaining results).0 ≡ none) ↔ (
        (shutdown_error ≡ none)
        × (remaining ≤ length results)
        × (all ended_well (take remaining results) ≡ true)))
      × ((stop_components shutdown_error remaining results).1
          ≡ worker_not_ready
            ∷ canceled_worker
            ∷ shut_down_server
            ∷ (if ltb (length results) remaining then closed_server ∷ [] else []))
unfolding stop_components
stop_components_iff shutdown_error remaining results =
    let label = labelled_iff "shutdown worker admin server" shutdown_error in
    let done = collect_iff remaining results none in
    let late = collect_late remaining results none in
    elim (Option-cases (collect remaining results none)) [
      | inl e ↦ rw (stop_components, e) (ground (arith, late))
      | inr (component_error, e) ↦
          let joined =
            join_errors_iff (labelled "shutdown worker admin server" shutdown_error)
              component_error in
          rw (stop_components, e) (ground (arith, late, done, label, joined))
    ]
