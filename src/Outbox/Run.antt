-- ===== src/Outbox/Run.antt =====
-- The loop of Worker.Run (worker.go). Which case of its `select` is taken is a schedule of turns.
pub mod Stops
use game_rewards_service.Base.{
  ℕ, ◌≡◌, Bool, true, false, Option, none, some, List, [], ◌∷◌, ◌++◌, if◌then◌else◌, Result, ok,
  err,
}
use game_rewards_service.Base.Int.{ℤ, pos}
use game_rewards_service.Errors.{
  Err, sentinel, wrap, is, is_context_error, Sentinel, store_unavailable, worker_fatal,
}
use game_rewards_service.Outbox.Worker.{Worker, Store, World, Iteration, run_once}

-- `<-ctx.Done()` or `<-timer.C`.
pub data Turn : Type 0 where
  done : Turn
  fire : Iteration → Turn

pub data Verdict : Type 0 where
  stop : Option Err → Verdict
  go_on : Bool → Verdict

abbrev pub fatal : Err
fatal = wrap "outbox worker operation failed" (sentinel worker_fatal)

-- What Run does with the answer of an iteration.
unfoldable pub verdict : Option Sentinel → Result Err Bool → Verdict
verdict ctx (ok processed) = go_on processed
verdict ctx (err e) =
    if is_context_error ctx e
    then stop none
    else if is e store_unavailable
    then go_on false
    else stop (some fatal)

-- `exit` is what Run returned, if it has; `waits` are the arguments of timer.Reset, oldest first.
pub record Outcome (S : Type 0) : Type 0 where
  pub exit : Option (Option Err)
  pub started : Bool
  pub world : World S
  pub waits : List ℤ

module _ {S : Type 0} (store : Store S) (w : Worker) where
  continue : Verdict → World S → List ℤ → (World S → List ℤ → Outcome S) → Outcome S
  continue (stop e) s waits rest = record {
    exit = some e;
    started = true;
    world = s;
    waits = waits;
  }
  continue (go_on processed) s waits rest =
      rest s (waits ++ (if processed then pos 0 else w.poll_interval) ∷ [])

  unfoldable pub loop : List Turn → World S → List ℤ → Outcome S
  unfolding continue verdict
  loop [] s waits = record { exit = none; started = true; world = s; waits = waits }
  loop (done ∷ ts) s waits = record { exit = some none; started = true; world = s; waits = waits }
  loop (fire it ∷ ts) s waits =
      let (r, s') = run_once store w it s in
      continue (verdict it.after_iteration r) s' waits (loop ts)

  -- The first two arguments are ctx.Err() before the start and after the timer is made.
  unfoldable pub run : Option Sentinel → Option Sentinel → List Turn → World S → Outcome S
  unfolding loop
  run (some e) before turns s = record { exit = some none; started = false; world = s; waits = [] }
  run none (some e) turns s = record { exit = some none; started = false; world = s; waits = [] }
  run none none turns s = loop turns s []
