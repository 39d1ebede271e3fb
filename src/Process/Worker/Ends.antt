-- ===== src/Process/Worker/Ends.antt =====
-- The returns of the worker process.
use game_rewards_service.Base.{
  ℕ, ◌≤◌, ◌≡◌, ◌⊎◌, inl, inr, refl, true, Option, none, List, [], ◌∷◌, arith, length, take, all,
  if_intro, ltb,
}
use game_rewards_service.Errors.{Err}
use game_rewards_service.Config.{Lookup, Parsers, WorkerProcessConfig}
use game_rewards_service.Metrics.{Collector, Registry}
use game_rewards_service.Process.{
  Action, worker_not_ready, shut_down_server, started_worker, canceled_worker, opened_pool,
  closed_pool, listening, closed_listener,
}
use game_rewards_service.Process.Stop.{ComponentResult, stop_components}
use game_rewards_service.Process.Stop.Complete.{ended_well, stop_components_iff}
use game_rewards_service.Process.Exits.{
  IsInner, code_of-cases, code_of-bound, count, count-append, IsProper, unless_ended-IsProper,
  unless_failed-IsProper, unless_failed_in-IsProper, unless_err-IsProper, pool-IsProper,
  listener-IsProper,
}
use game_rewards_service.Process.Worker.{
  WorkerEnding, signaled, component_ended, WorkerWorld, await_components, serve_worker,
  listen_worker, connect_worker, run_worker,
}

-- A signal ended it, the server shut down without an error, and both components ended without one
-- before the deadline.
pub record IsGraceful (w : WorkerWorld) : Type 0 where
  pub by_signal : w.ending ≡ signaled
  pub shut_down : w.shutdown_error ≡ none
  pub both : 2 ≤ length w.results
  pub well : all ended_well (take 2 w.results) ≡ true

stop_components-IsInner :
    (e : Option Err) (n : ℕ) (rs : List ComponentResult) → IsInner (stop_components e n rs).1
unfolding count
stop_components-IsInner e n rs = rw ((stop_components_iff e n rs).1) (
    if_intro (λ xs. IsInner (worker_not_ready ∷ canceled_worker ∷ shut_down_server ∷ xs))
      (ltb (length rs) n)
      (λ late. record {
        opens = refl;
        closes = refl;
        listens = refl;
        unlistens = refl;
        serves = refl;
        works = refl;
      })
      (λ timely. record {
        opens = refl;
        closes = refl;
        listens = refl;
        unlistens = refl;
        serves = refl;
        works = refl;
      }))

await_components-IsInner :
    (w : WorkerWorld) (ending : WorkerEnding) → IsInner (await_components w ending).actions
unfolding await_components count
await_components-IsInner w signaled = stop_components-IsInner w.shutdown_error 2 w.results
await_components-IsInner w (component_ended r) =
    let inner = stop_components-IsInner w.shutdown_error 1 w.results in
    record {
      opens = inner.opens;
      closes = inner.closes;
      listens = inner.listens;
      unlistens = inner.unlistens;
      serves = inner.serves;
      works = inner.works;
    }

await_components-code :
    (w : WorkerWorld) (ending : WorkerEnding) → (await_components w ending).code ≤ 1
unfolding await_components
await_components-code w signaled = code_of-bound (stop_components w.shutdown_error 2 w.results).0
await_components-code w (component_ended r) = omega arith

await_components-success :
    (w : WorkerWorld) (ending : WorkerEnding)
    → w.ending ≡ ending
    → ((await_components w ending).code ≡ 1) ⊎ IsGraceful w
unfolding await_components
await_components-success w signaled e =
    elim (code_of-cases (stop_components w.shutdown_error 2 w.results).0) [
      | inl failed ↦ inl failed
      | inr clean ↦
          let (shut, both, well) = (stop_components_iff w.shutdown_error 2 w.results).0.0 clean in
          inr (record { by_signal = e; shut_down = shut; both = both; well = well })
    ]
await_components-success w (component_ended r) e = inl refl

serve_worker-IsProper : (w : WorkerWorld) → IsProper (IsGraceful w) (serve_worker w)
unfolding serve_worker count
serve_worker-IsProper w =
    let inner = await_components-IsInner w w.ending in
    let counted =
      λ (a : Action). count-append a (await_components w w.ending).actions (canceled_worker ∷ []) in
    record {
      pool = ground (arith, inner.opens, inner.closes, counted opened_pool, counted closed_pool);
      listener =
          ground
            (arith, inner.listens, inner.unlistens, counted listening, counted closed_listener);
      worker = ground (arith, inner.works, counted started_worker, counted canceled_worker);
      code = await_components-code w w.ending;
      success = elim (await_components-success w w.ending refl) [
        | inl failed ↦ inl failed
        | inr g ↦ inr (inr g)
      ];
    }

listen_worker-IsProper :
    (cfg : WorkerProcessConfig) (w : WorkerWorld) → IsProper (IsGraceful w) (listen_worker cfg w)
unfolding listen_worker
listen_worker-IsProper cfg w = unless_err-IsProper (IsGraceful w) _ _ (λ store.
    unless_failed-IsProper (IsGraceful w) _ _ (
      unless_err-IsProper (IsGraceful w) _ _ (λ worker. unless_ended-IsProper (IsGraceful w) _ _ (
        unless_failed-IsProper (IsGraceful w) _ _ (
          listener-IsProper (IsGraceful w) _
            (unless_ended-IsProper (IsGraceful w) _ _ (serve_worker-IsProper w)))))))

connect_worker-IsProper :
    {S : Type 0} (registry : Registry S) (go process : Collector) (s : S)
    (cfg : WorkerProcessConfig) (w : WorkerWorld)
    → IsProper (IsGraceful w) (connect_worker registry go process s cfg w)
unfolding connect_worker
connect_worker-IsProper registry go process s cfg w = pool-IsProper (IsGraceful w) _ (
    unless_failed_in-IsProper (IsGraceful w) _ _ _ (
      unless_failed-IsProper (IsGraceful w) _ _ (
        unless_failed-IsProper (IsGraceful w) _ _
          (unless_failed-IsProper (IsGraceful w) _ _ (listen_worker-IsProper cfg w)))))

-- However it starts and ends, the worker process closes its pool and its listener as often as it
-- opens them, tells a worker that it started to stop, and exits with 0 or 1. It exits with 1, or it
-- has not started its server, or its end was graceful: a signal ended it, the server shut down
-- without an error, and both components ended without one before the deadline.
pub run_worker-IsProper :
    {S : Type 0} (lib : Parsers) (lookup : Lookup) (registry : Registry S) (go process : Collector)
    (s : S) (w : WorkerWorld)
    → IsProper (IsGraceful w) (run_worker lib lookup registry go process s w)
unfolding run_worker
run_worker-IsProper lib lookup registry go process s w = unless_ended-IsProper (IsGraceful w) _ _ (
    unless_err-IsProper (IsGraceful w) _ _ (λ cfg.
      unless_failed_in-IsProper (IsGraceful w) _ _ _
        (connect_worker-IsProper registry go process s cfg w)))
