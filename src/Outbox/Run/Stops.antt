-- ===== src/Outbox/Run/Stops.antt =====
-- When Worker.Run goes on, and when and with what it returns.
use game_rewards_service.Base.{
  ◌≡◌, refl, sym, subst, ◌∙◌, Bool, true, false, Option, none, some, List, [], ◌∷◌, ◌++◌, arith,
  append_nil, append_assoc, Bool-cases, inl, inr, Result, ok, err,
}
use game_rewards_service.Base.Int.{ℤ, pos}
use game_rewards_service.Errors.{Err, is, is_context_error, Sentinel, store_unavailable}
use game_rewards_service.Outbox.Worker.{Worker, Store, World, Iteration, run_once}
use game_rewards_service.Outbox.Run.{
  Turn, done, fire, Verdict, stop, go_on, Outcome, verdict, fatal, loop, continue, run,
}

-- An error that neither comes from the context nor says that the store is unavailable.
abbrev pub IsFatal : Iteration → Result Err Bool → Type 0
IsFatal it r =
    (e : Err) × (r ≡ err e)
    × (is_context_error it.after_iteration e ≡ false)
    × (is e store_unavailable ≡ false)

verdict-fatal :
    (it : Iteration) (r : Result Err Bool) (x : Err)
    → verdict it.after_iteration r ≡ stop (some x)
    → (x ≡ fatal) × IsFatal it r
unfolding verdict
verdict-fatal it (ok p) x h = cc
verdict-fatal it (err e) x h = (ground arith, (e, refl, ground arith, ground arith))

module _ {S : Type 0} (store : Store S) (w : Worker) where
  -- Some iteration of the schedule, from the state that the earlier ones left, answers fatally.
  pub data Fails : List Turn → World S → Type 0 where
    now :
        {it : Iteration} {ts : List Turn} {s : World S}
        → IsFatal it (run_once store w it s).0
        → Fails (fire it ∷ ts) s
    later :
        {it : Iteration} {ts : List Turn} {s : World S}
        → Fails ts (run_once store w it s).1
        → Fails (fire it ∷ ts) s

  loop-Fails :
      (ts : List Turn) (s : World S) (waits : List ℤ) (x : Err)
      → (loop store w ts s waits).exit ≡ some (some x)
      → (x ≡ fatal) × Fails ts s
  unfolding loop
  loop-Fails [] s waits x h = cc
  loop-Fails (done ∷ ts) s waits x h = absurd (ground arith)
  loop-Fails (fire it ∷ ts) s waits x h =
      go (verdict it.after_iteration (run_once store w it s).0) refl
        (loop-Fails ts (run_once store w it s).1) h
    where
      go :
          (v : Verdict)
          → verdict it.after_iteration (run_once store w it s).0 ≡ v
          → ((waits : List ℤ) (x : Err)
              → (loop store w ts (run_once store w it s).1 waits).exit ≡ some (some x)
              → (x ≡ fatal) × Fails ts (run_once store w it s).1)
          → (continue store w v (run_once store w it s).1 waits (loop store w ts)).exit
            ≡ some (some x)
          → (x ≡ fatal) × Fails (fire it ∷ ts) s
      go (stop none) e ih k = absurd (ground arith)
      go (stop (some y)) e ih k =
          let (f, g) = verdict-fatal it (run_once store w it s).0 y e in (ground arith, now g)
      go (go_on p) e ih k = let (f, g) = ih _ x k in (f, later g)

  -- If Run returns an error, it is the fatal worker error, and some iteration answered with an
  -- error that neither came from the context nor said that the store is unavailable.
  pub run-fatal :
      (before begun : Option Sentinel) (ts : List Turn) (s : World S) (x : Err)
      → (run store w before begun ts s).exit ≡ some (some x)
      → (x ≡ fatal) × Fails ts s
  unfolding run
  run-fatal (some e) begun ts s x h = absurd (ground arith)
  run-fatal none (some e) ts s x h = absurd (ground arith)
  run-fatal none none ts s x h = loop-Fails ts s [] x h

  -- How the loop goes through its schedule from a state: the waits that it sets its timer to, oldest
  -- first, what Run returned, if it has, and the state at the end.
  pub data Runs : List Turn → World S → List ℤ → Option (Option Err) → World S → Type 0 where
    over : {s : World S} → Runs [] s [] none s
    cancelled : {ts : List Turn} {s : World S} → Runs (done ∷ ts) s [] (some none) s
    processed :
        {it : Iteration} {ts : List Turn} {s end : World S} {waits : List ℤ}
        {exit : Option (Option Err)}
        → (run_once store w it s).0 ≡ ok true
        → Runs ts (run_once store w it s).1 waits exit end
        → Runs (fire it ∷ ts) s (pos 0 ∷ waits) exit end
    found_nothing :
        {it : Iteration} {ts : List Turn} {s end : World S} {waits : List ℤ}
        {exit : Option (Option Err)}
        → (run_once store w it s).0 ≡ ok false
        → Runs ts (run_once store w it s).1 waits exit end
        → Runs (fire it ∷ ts) s (w.poll_interval ∷ waits) exit end
    unavailable :
        {it : Iteration} {ts : List Turn} {s end : World S} {waits : List ℤ}
        {exit : Option (Option Err)} (e : Err)
        → (run_once store w it s).0 ≡ err e
        → is_context_error it.after_iteration e ≡ false
        → is e store_unavailable ≡ true
        → Runs ts (run_once store w it s).1 waits exit end
        → Runs (fire it ∷ ts) s (w.poll_interval ∷ waits) exit end
    interrupted :
        {it : Iteration} {ts : List Turn} {s : World S} (e : Err)
        → (run_once store w it s).0 ≡ err e
        → is_context_error it.after_iteration e ≡ true
        → Runs (fire it ∷ ts) s [] (some none) (run_once store w it s).1
    ends_fatally :
        {it : Iteration} {ts : List Turn} {s : World S}
        → IsFatal it (run_once store w it s).0
        → Runs (fire it ∷ ts) s [] (some (some fatal)) (run_once store w it s).1

  -- The loop's outcome, when it is entered with these waits set before.
  abbrev LoopRuns : List Turn → World S → List ℤ → Outcome S → Type 0
  LoopRuns ts s before o =
      (waits : List ℤ) × Runs ts s waits o.exit o.world × (o.waits ≡ before ++ waits)

  loop-LoopRuns :
      (ts : List Turn) (s : World S) (before : List ℤ)
      → LoopRuns ts s before (loop store w ts s before)
  unfolding loop verdict
  loop-LoopRuns [] s before = ([], over, sym (append_nil before))
  loop-LoopRuns (done ∷ ts) s before = ([], cancelled, sym (append_nil before))
  loop-LoopRuns (fire it ∷ ts) s before =
      go (run_once store w it s).0 refl
        (λ wait. loop-LoopRuns ts (run_once store w it s).1 (before ++ wait ∷ []))
    where
      go :
          (r : Result Err Bool)
          → (run_once store w it s).0 ≡ r
          → ((wait : ℤ)
              → LoopRuns ts
                  (run_once store w it s).1
                  (before ++ wait ∷ [])
                  (loop store w ts (run_once store w it s).1 (before ++ wait ∷ [])))
          → LoopRuns (fire it ∷ ts) s before (
              continue store w
                (verdict it.after_iteration r)
                (run_once store w it s).1
                before
                (loop store w ts))
      go (ok true) e ih =
          let (waits, runs, same) = ih (pos 0) in
          (pos 0 ∷ waits, processed e runs, same ∙ append_assoc before (pos 0 ∷ []) waits)
      go (ok false) e ih =
          let (waits, runs, same) = ih w.poll_interval in
          (
            w.poll_interval ∷ waits,
            found_nothing e runs,
            same ∙ append_assoc before (w.poll_interval ∷ []) waits,
          )
      go (err x) e ih = elim (Bool-cases (is_context_error it.after_iteration x)) [
        | inl told ↦ rw told ([], interrupted x e told, sym (append_nil before))
        | inr alive ↦ elim (Bool-cases (is x store_unavailable)) [
          | inl down ↦
              let (waits, runs, same) = ih w.poll_interval in
              rw (alive, down)
                (
                  w.poll_interval ∷ waits,
                  unavailable x e alive down runs,
                  same ∙ append_assoc before (w.poll_interval ∷ []) waits,
                )
          | inr other ↦
              rw (alive, other) ([], ends_fatally (x, e, alive, other), sym (append_nil before))
        ]
      ]

  -- Run, once it has started, goes through any schedule like this: after an iteration that processed
  -- an event it waits for nothing, after one that did not, or that found the store unavailable, it
  -- waits for the poll interval; it returns nil when its context is done, between iterations or in
  -- one, and the fatal error after any other error, and then waits no more; else it has not returned.
  pub run-Runs :
      (ts : List Turn) (s : World S)
      → Runs ts s
          (run store w none none ts s).waits
          (run store w none none ts s).exit
          (run store w none none ts s).world
  unfolding run
  run-Runs ts s =
      let (waits, runs, same) = loop-LoopRuns ts s [] in
      subst (λ x. Runs ts s x (loop store w ts s []).exit (loop store w ts s []).world) (sym same)
        runs
