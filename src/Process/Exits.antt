-- ===== src/Process/Exits.antt =====
-- What every return of a process leaves.
use game_rewards_service.Base.{
  ℕ, suc, ◌+◌, ◌≤◌, ◌≡◌, ◌⊎◌, inl, inr, refl, Option, none, some, List, [], ◌∷◌, ◌++◌, arith, ◌==◌,
  if◌then◌else◌, Result, ok, err,
}
use game_rewards_service.Errors.{Err, Sentinel, is_context_error}
use game_rewards_service.Process.{
  Action, opened_pool, closed_pool, listening, closed_listener, started_server, started_worker,
  canceled_worker, worker_not_ready, shut_down_server, closed_server, Exit, exit, after, deferred,
  unless_ended, unless_failed, unless_failed_in, unless_err, code_of,
}

abbrev tag : Action → ℕ
tag opened_pool = 0
tag closed_pool = 1
tag listening = 2
tag closed_listener = 3
tag started_server = 4
tag started_worker = 5
tag canceled_worker = 6
tag worker_not_ready = 7
tag shut_down_server = 8
tag closed_server = 9

-- How often an action is taken.
unfoldable pub count : Action → List Action → ℕ
count a [] = 0
count a (b ∷ bs) = if tag a == tag b then suc (count a bs) else count a bs

pub count-append : (a : Action) (bs cs : List Action) → count a (bs ++ cs) ≡ count a bs + count a cs
unfolding count
count-append a [] cs = omega arith
count-append a (b ∷ bs) cs = ground (arith, count-append a bs cs)

pub code_of-cases : (e : Option Err) → (code_of e ≡ 1) ⊎ (e ≡ none)
code_of-cases none = inr refl
code_of-cases (some e) = inl refl

pub code_of-bound : (e : Option Err) → code_of e ≤ 1
code_of-bound none = omega arith
code_of-bound (some e) = omega arith

-- Actions among which no pool, listener, server or worker is opened, started or closed.
pub record IsInner (xs : List Action) : Type 0 where
  pub opens : count opened_pool xs ≡ 0
  pub closes : count closed_pool xs ≡ 0
  pub listens : count listening xs ≡ 0
  pub unlistens : count closed_listener xs ≡ 0
  pub serves : count started_server xs ≡ 0
  pub works : count started_worker xs ≡ 0

-- The pool and the listener are closed as often as they are opened, a worker that is started is told
-- to stop, the exit code is 0 or 1, and is 1, or the server was not started, or the end was graceful.
pub record IsProper (graceful : Type 0) (x : Exit) : Type 0 where
  pub pool : count opened_pool x.actions ≡ count closed_pool x.actions
  pub listener : count listening x.actions ≡ count closed_listener x.actions
  pub worker : count started_worker x.actions ≤ count canceled_worker x.actions
  pub code : x.code ≤ 1
  pub success : (x.code ≡ 1) ⊎ ((count started_server x.actions ≡ 0) ⊎ graceful)

module _ (graceful : Type 0) where
  exit-IsProper : (code : ℕ) → code ≤ 1 → IsProper graceful (exit code)
  unfolding count
  exit-IsProper code h = record {
    pool = refl;
    listener = refl;
    worker = omega arith;
    code = h;
    success = inr (inl refl);
  }

  pub unless_ended-IsProper :
      (ended : Option Sentinel) (x : Exit)
      → IsProper graceful x
      → IsProper graceful (unless_ended ended x)
  unfolding unless_ended
  unless_ended-IsProper none x h = h
  unless_ended-IsProper (some s) x h = exit-IsProper 0 (omega arith)

  pub unless_failed-IsProper :
      (e : Option Err) (x : Exit) → IsProper graceful x → IsProper graceful (unless_failed e x)
  unfolding unless_failed
  unless_failed-IsProper none x h = h
  unless_failed-IsProper (some e) x h = exit-IsProper 1 (omega arith)

  pub unless_failed_in-IsProper :
      (ended : Option Sentinel) (e : Option Err) (x : Exit)
      → IsProper graceful x
      → IsProper graceful (unless_failed_in ended e x)
  unfolding unless_failed_in
  unless_failed_in-IsProper ended none x h = h
  unless_failed_in-IsProper ended (some e) x h =
      exit-IsProper (if is_context_error ended e then 0 else 1) (ground arith)

  pub unless_err-IsProper :
      {E A : Type 0} (r : Result E A) (rest : A → Exit)
      → ((a : A) → IsProper graceful (rest a))
      → IsProper graceful (unless_err r rest)
  unfolding unless_err
  unless_err-IsProper (ok a) rest h = h a
  unless_err-IsProper (err e) rest h = exit-IsProper 1 (omega arith)

  pub pool-IsProper :
      (x : Exit)
      → IsProper graceful x
      → IsProper graceful (after opened_pool (deferred closed_pool x))
  unfolding count
  pool-IsProper x h =
      let counted = λ (a : Action). count-append a x.actions (closed_pool ∷ []) in
      record {
        pool = ground (arith, h.pool, counted opened_pool, counted closed_pool);
        listener = ground (arith, h.listener, counted listening, counted closed_listener);
        worker = ground (arith, h.worker, counted started_worker, counted canceled_worker);
        code = h.code;
        success = elim h.success [
          | inl failed ↦ inl failed
          | inr (inl unserved) ↦ inr (inl (ground (arith, counted started_server)))
          | inr (inr g) ↦ inr (inr g)
        ];
      }

  pub listener-IsProper :
      (x : Exit)
      → IsProper graceful x
      → IsProper graceful (after listening (deferred closed_listener x))
  unfolding count
  listener-IsProper x h =
      let counted = λ (a : Action). count-append a x.actions (closed_listener ∷ []) in
      record {
        pool = ground (arith, h.pool, counted opened_pool, counted closed_pool);
        listener = ground (arith, h.listener, counted listening, counted closed_listener);
        worker = ground (arith, h.worker, counted started_worker, counted canceled_worker);
        code = h.code;
        success = elim h.success [
          | inl failed ↦ inl failed
          | inr (inl unserved) ↦ inr (inl (ground (arith, counted started_server)))
          | inr (inr g) ↦ inr (inr g)
        ];
      }
