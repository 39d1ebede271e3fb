-- ===== src/Outbox/Delivery/Publishes.antt =====
-- Iterations of a worker whose publisher accepts every event: an event that is due gets published.
use game_rewards_service.Base.{
  ℕ, ◌+◌, ◌≤◌, ◌≡◌, refl, sym, ap, subst, ◌∙◌, true, false, none, some, List, [], ◌∷◌, ◌⊎◌, inl,
  inr, arith, All, Bool-cases, length, if◌then◌else◌, &&-eq-true,
}
use game_rewards_service.Base.Int.{pos, ◌≤ℤ◌, max_int64}
use game_rewards_service.Base.Text.{Bytes, str_eq, eq_of_str_eq}
use game_rewards_service.Postgres.{Driver}
use game_rewards_service.Outbox.Row.{Row, published, is_final}
use game_rewards_service.Outbox.Store.{Call, Event, is_due, event_of, claimed_row}
use game_rewards_service.Outbox.Store.Table.{find_row, find_row-id, ids}
use game_rewards_service.Outbox.Store.Claim.{find_row-In}
use game_rewards_service.Outbox.Store.Change.{In-find_row, due_open}
use game_rewards_service.Outbox.Store.Lease.{is_claimable}
use game_rewards_service.Outbox.Store.Totals.{total, total-replaced, pick, All-replaced}
use game_rewards_service.Outbox.Store.Transition.{Transition, publish, moved}
use game_rewards_service.Outbox.Worker.{Worker, World, Iteration, run_once}
use game_rewards_service.Outbox.Worker.Config.{IsWorker}
use game_rewards_service.Outbox.Delivery.{Database, postgres_store, decision}
use game_rewards_service.Outbox.Delivery.Iterations.{
  idle, settled, abandoned, Settled, run_once-Iterated,
}
use game_rewards_service.Outbox.Delivery.Queue.{IsHealthy, IsQueue, All-map}
use game_rewards_service.Outbox.Delivery.Drain.{iterate, Settled-Progress}

-- Tables with the same keys find the same keys.
find_row-ids :
    (i : Bytes) (r : Row) (t t' : List Row)
    → ids t' ≡ ids t
    → find_row i t ≡ some r
    → (r' : Row) × (find_row i t' ≡ some r')
unfolding find_row
find_row-ids i r [] [] e h = cc
find_row-ids i r [] (q' ∷ qs') e h = cc
find_row-ids i r (q ∷ qs) [] e h = cc
find_row-ids i r (q ∷ qs) (q' ∷ qs') e h =
    let same : q'.id ≡ q.id = cc in
    let rest : ids qs' ≡ ids qs = cc in
    elim (Bool-cases (str_eq q.id i)) [
      | inl here ↦ (q', rw (same, here))
      | inr away ↦
          let (r', found) = find_row-ids i r qs qs' rest (ground arith) in
          (r', rw (same, away) found)
    ]

abbrev pub unfinished : Row → ℕ
unfinished q = if is_final q.status then 0 else 1

-- An iteration that is not told to stop, and whose publisher accepts every event.
abbrev pub Accepts : Iteration → Type 0
Accepts it = (it.after_publish ≡ none) × ((e : Event) → it.publish e ≡ none)

-- The event of `i` is published, or it is due at every time of the script.
abbrev pub IsOnTime : (ℕ → Call) → Bytes → Row → Type 0
IsOnTime script i q =
    str_eq q.id i ≡ true → (q.status ≡ published) ⊎ ((n : ℕ) → is_due (script n).now q ≡ true)

abbrev IsServed : Bytes → Row → Type 0
IsServed i q = str_eq q.id i ≡ true → q.status ≡ published

accepted_decision :
    (w : Worker) (it : Iteration) (e : Event) (move : Transition)
    → Accepts it
    → decision w it e ≡ some move
    → move ≡ publish
unfolding decision
accepted_decision w it e move (told, fine) h = let here = fine e in ground arith

-- An iteration finds an event that is due, that no transaction locks and that is not published.
nothing-IsServed :
    (script : ℕ → Call) (n : ℕ) (i : Bytes) (t : List Row)
    → (script n).skip_locked i ≡ false
    → All (IsOnTime script i) t
    → All (λ q. is_claimable (script n) q ≡ false) t
    → All (IsServed i) t
nothing-IsServed script n i [] unlocked on_time nothing = tt
nothing-IsServed script n i (q ∷ qs) unlocked on_time nothing = (
  λ same. elim (on_time.0 same) [
    | inl served ↦ served
    | inr always ↦
        (let now = always n in
          let here = eq_of_str_eq q.id i same in
          let missed = nothing.0 in absurd (ground (arith, here)))
  ],
  nothing-IsServed script n i qs unlocked on_time.1 nothing.1,
)

-- Among finished rows, the one that is published or due is published.
finished-IsServed :
    (script : ℕ → Call) (i : Bytes) (t : List Row)
    → All (IsOnTime script i) t
    → total unfinished t ≡ 0
    → All (IsServed i) t
unfolding total
finished-IsServed script i [] on_time h = tt
finished-IsServed script i (q ∷ qs) on_time h = (
  λ same. elim (on_time.0 same) [
    | inl served ↦ served
    | inr always ↦ (let live = due_open _ q (always 0) in absurd (ground arith))
  ],
  finished-IsServed script i qs on_time.1 (omega arith),
)

module _ (d : Driver) (script : ℕ → Call) (healthy : IsHealthy script) (w : Worker) (m : ℕ)
    (worker : IsWorker w) (fits : w.backoff.max ≤ℤ pos max_int64) (bound : w.max_failures ≡ pos m)
    (i : Bytes) (unlocked : (n : ℕ) → (script n).skip_locked i ≡ false) where
  -- A queue in which the event of `i` is published or due.
  pub record IsPrompt (t : List Row) : Type 0 where
    pub queue : IsQueue m script t
    pub on_time : All (IsOnTime script i) t

  -- What an iteration with an accepting publisher makes of the table.
  record Advances (t t' : List Row) : Type 0 where
    prompt : IsPrompt t'
    kept : ids t' ≡ ids t
    stays : All (IsServed i) t → All (IsServed i) t'
    gains : All (IsServed i) t' ⊎ (total unfinished t' + 1 ≤ total unfinished t)

  Settled-Advances :
      (it : Iteration) (s : World Database) (r : Row) (move : Transition)
      → Accepts it
      → IsPrompt s.store.table
      → (first : is_claimable (script s.store.sent) r ≡ true)
      → Settled d script w it s r move (run_once (postgres_store d script) w it s)
      → decision w it (event_of r) ≡ some move
      → find_row r.id s.store.table ≡ some r
      → Advances s.store.table (run_once (postgres_store d script) w it s).1.store.table
  Settled-Advances it s r move accepts prompt first done decided found =
      let o = run_once (postgres_store d script) w it s in
      let t = s.store.table in
      let r' =
        moved d move (script (s.store.sent + 1)).now
          (claimed_row d w.worker_id w.lock_ttl (script s.store.sent).now r) in
      let chosen = accepted_decision w it (event_of r) move accepts decided in
      let open_row = due_open (script s.store.sent).now r (&&-eq-true _ _ first).0 in
      elim (Settled-Progress d script healthy w m worker fits bound it s o r move prompt.queue
        (In-find_row r.id t r found) open_row decided done) [
          | inl (free, failed, _) ↦ (let good = done.result in cc)
          | inr (_, queue', kept, _) ↦
              (let published_now : r'.status ≡ published = rw chosen in
                let closed : is_final r'.status ≡ true = rw published_now in
                let sums =
                  total-replaced unfinished r r' t o.1.store.table prompt.queue.valid.distinct
                    done.valid.distinct done.ids found done.row done.others in
                record {
                  prompt = record {
                    queue = queue';
                    on_time =
                        All-replaced (IsOnTime script i) r r' t o.1.store.table done.valid.distinct
                          done.row done.others (λ same. inl published_now) prompt.on_time;
                  };
                  kept = kept;
                  stays =
                      All-replaced (IsServed i) r r' t o.1.store.table done.valid.distinct done.row
                        done.others (λ same. published_now);
                  gains = inr (ground arith);
                })
        ]

  run_once-Advances :
      (it : Iteration) (s : World Database)
      → Accepts it
      → IsPrompt s.store.table
      → Advances s.store.table (run_once (postgres_store d script) w it s).1.store.table
  run_once-Advances it s accepts prompt =
      let queue = prompt.queue in
      elim (run_once-Iterated d script w it s worker fits queue.valid (healthy.answers s.store.sent)
        (healthy.answers (s.store.sent + 1))
        (All-map _ _ s.store.table (λ r h. h s.store.sent) queue.clock)
        (healthy.ordered s.store.sent) (All-map _ _ s.store.table (λ r h. omega arith) queue.room)
        queue.named) [
          | idle nothing result same ↦
              let served =
                nothing-IsServed script s.store.sent i s.store.table (unlocked s.store.sent)
                  prompt.on_time nothing in
              record {
                prompt = subst IsPrompt (sym same) prompt;
                kept = ap ids same;
                stays = subst (λ t. All (IsServed i) t) (sym same);
                gains = inl (subst (λ t. All (IsServed i) t) (sym same) served);
              }
          | settled r move first decided done ↦
              Settled-Advances it s r move accepts prompt first.meets done decided
                (find_row-In r s.store.table queue.valid.distinct first.member)
          | abandoned r first decided left ↦
              (let (x, told) = left.stopped in let fine = accepts.0 in absurd (ground arith))
        ]

  -- The iterations publish the event of `i`, or each of them finishes an event.
  record Ends (its : List Iteration) (t t' : List Row) : Type 0 where
    prompt : IsPrompt t'
    kept : ids t' ≡ ids t
    stays : All (IsServed i) t → All (IsServed i) t'
    gains : All (IsServed i) t' ⊎ (total unfinished t' + length its ≤ total unfinished t)

  iterate-Ends :
      (its : List Iteration) (s : World Database)
      → All Accepts its
      → IsPrompt s.store.table
      → Ends its s.store.table (iterate (postgres_store d script) w its s).1.store.table
  unfolding iterate
  iterate-Ends [] s accept prompt = record {
    prompt = prompt;
    kept = refl;
    stays = λ h. h;
    gains = inr (omega arith);
  }
  iterate-Ends (it ∷ its) s accept prompt =
      let step = run_once-Advances it s accept.0 prompt in
      let rest =
        iterate-Ends its (run_once (postgres_store d script) w it s).1 accept.1 step.prompt in
      record {
        prompt = rest.prompt;
        kept = rest.kept ∙ step.kept;
        stays = λ h. rest.stays (step.stays h);
        gains = elim step.gains [
          | inl served ↦ inl (rest.stays served)
          | inr less ↦ elim rest.gains [ inl served ↦ inl served | inr fewer ↦ inr (omega arith) ]
        ];
      }

  -- With as many iterations as there are unfinished events, the row of `i` gets published.
  pub publishes :
      (its : List Iteration) (s : World Database) (r : Row)
      → All Accepts its
      → IsPrompt s.store.table
      → total unfinished s.store.table ≤ length its
      → find_row i s.store.table ≡ some r
      → (q : Row) × (find_row i (iterate (postgres_store d script) w its s).1.store.table ≡ some q)
        × (q.status ≡ published)
  publishes its s r accept prompt enough found =
      let end = (iterate (postgres_store d script) w its s).1.store.table in
      let ends = iterate-Ends its s accept prompt in
      let (q, there) = find_row-ids i r s.store.table end ends.kept found in
      let served : All (IsServed i) end = elim ends.gains [
        | inl served ↦ served
        | inr fewer ↦ finished-IsServed script i end ends.prompt.on_time (omega arith)
      ] in
      (
        q,
        there,
        pick (IsServed i) q end served (In-find_row i end q there) (find_row-id i end q there),
      )
