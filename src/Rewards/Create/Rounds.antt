-- ===== src/Rewards/Create/Rounds.antt =====
-- The rounds of the reservation loop of createClaim, on every schedule.
use game_rewards_service.Base.{
  append_nil, ℕ, zero, suc, ◌<◌, ◌≤◌, ◌≡◌, ◌≢◌, refl, Bool, true, false, Option, none, some, List,
  [], ◌∷◌, ◌++◌, arith, Result, ok, err, length, Result-cases, Option-cases, Bool-cases, inl, inr,
}
use game_rewards_service.Errors.{Err, is, no_rows}
use game_rewards_service.Postgres.{Driver}
use game_rewards_service.Rewards.Claim.{Claim, CreateClaimParams, CreateClaimResult, Library}
use game_rewards_service.Rewards.Tables.{
  Db, KeyRow, Write, find_key, reserve_statement, apply_writes,
}
use game_rewards_service.Rewards.Transaction.{
  Turn, Tx, pure, exec, try_insert_claim, Action, after_step, load_row, commit,
  try_reserve_idempotency_key, try_load_idempotent_claim_result, stored_result,
}
use game_rewards_service.Rewards.Create.{
  Reservation, reserved, replay, exhausted, Fresh, reserve_loop, after_reserve, after_load, begin,
  complete, after_loop, create_claim, transact,
}

abbrev is_exhausted : Result Err Reservation → Bool
is_exhausted (ok exhausted) = true
is_exhausted (ok reserved) = false
is_exhausted (ok (replay r)) = false
is_exhausted (err e) = false

reserve_false :
    {ws : List Write} (p : CreateClaimParams) (db : Db)
    → reserve_statement p db ≡ ok (false, ws)
    → (ws ≡ []) × ((k : KeyRow) × (find_key p.key_hash db.keys ≡ some k))
unfolding reserve_statement
reserve_false p db h = elim (Option-cases (find_key p.key_hash db.keys)) [
  | inl free ↦ absurd (ground arith)
  | inr (k, found) ↦ (ground arith, (k, found))
]

abbrev is_missing : Result Err (Option CreateClaimResult) → Bool
is_missing (ok none) = true
is_missing (ok (some r)) = false
is_missing (err e) = false

module _ (lib : Library) (d : Driver) (p : CreateClaimParams) where
  commit-replays :
      (r : CreateClaimResult) (again : Action Reservation) (c : Db) (w : List Write)
      (turns : List Turn)
      → is_exhausted
          (after_load lib d p again
            (some r)
            (record { committed = c; writes = w; turns = turns })).0
        ≡ false
  unfolding after_load commit
  commit-replays r again c w [] = refl
  commit-replays r again c w (t ∷ ts) = ground arith

  pub load_row-ok :
      {r : CreateClaimResult} (k : KeyRow) (tx : Tx)
      → stored_result lib d p k k.response_status k.response_body ≡ ok r
      → load_row lib d p (some k) tx ≡ (ok (some r), tx)
  unfolding load_row
  load_row-ok k tx h = ground arith

  pub load_row-err :
      {e : Err} (k : KeyRow) (tx : Tx)
      → stored_result lib d p k k.response_status k.response_body ≡ err e
      → load_row lib d p (some k) tx ≡ (err e, tx)
  unfolding load_row
  load_row-err k tx h = ground arith

  pub load_row-none : (tx : Tx) → load_row lib d p none tx ≡ (ok none, tx)
  unfolding load_row
  load_row-none tx = refl

  load_row-stops :
      (k : KeyRow) (again : Action Reservation) (c : Db) (w : List Write) (turns : List Turn)
      → is_exhausted
          (after_step
            (load_row lib d p (some k) (record { committed = c; writes = w; turns = turns }))
            (after_load lib d p again)).0
        ≡ false
  load_row-stops k again c w turns =
      let tx : Tx = record { committed = c; writes = w; turns = turns } in
      elim (Result-cases (stored_result lib d p k k.response_status k.response_body)) [
        | inl (r, e) ↦ rw (is_exhausted, load_row-ok k tx e) (commit-replays r again c w turns)
        | inr (x, e) ↦ rw (is_exhausted, load_row-err k tx e)
      ]

  load-goes_on :
      (row : Option KeyRow) (again : Action Reservation) (c : Db) (w : List Write)
      (turns : List Turn)
      → is_exhausted (again (record { committed = c; writes = w; turns = turns })).0 ≡ false
      → is_exhausted
          (after_step
            (load_row lib d p row (record { committed = c; writes = w; turns = turns }))
            (after_load lib d p again)).0
        ≡ false
  unfolding load_row after_load
  load-goes_on none again c w turns h = h
  load-goes_on (some k) again c w turns h = load_row-stops k again c w turns

  reserve-goes_on :
      (b : Bool) (again : Action Reservation) (c : Db) (w : List Write) (turns : List Turn)
      → ((c' : Db) (w' : List Write) (ts : List Turn)
          → length ts ≤ length turns
          → is_exhausted (again (record { committed = c'; writes = w'; turns = ts })).0 ≡ false)
      → is_exhausted
          (after_reserve lib d p again b (record { committed = c; writes = w; turns = turns })).0
        ≡ false
  unfolding after_reserve try_load_idempotent_claim_result
  reserve-goes_on true again c w turns ih = refl
  reserve-goes_on false again c w [] ih =
      load-goes_on _ again c (w ++ []) [] (ih c (w ++ []) [] (omega arith))
  reserve-goes_on false again c w (t ∷ ts) ih = elim (Option-cases t.fault) [
    | inl none_h ↦
        rw (none_h) (load-goes_on _ again (t.other c) (w ++ []) ts (ih _ _ ts (omega arith)))
    | inr (e, h) ↦ elim (Bool-cases (is e no_rows)) [
      | inl y ↦ rw (h, y) (load-goes_on none again (t.other c) w ts (ih _ _ ts (omega arith)))
      | inr y ↦ rw (h, y)
    ]
  ]

  seen-stops :
      {k : KeyRow} (b : Bool) (again : Action Reservation) (c : Db) (w : List Write)
      → find_key p.key_hash (apply_writes c w).keys ≡ some k
      → is_exhausted
          (after_reserve lib d p again b (record { committed = c; writes = w; turns = [] })).0
        ≡ false
  unfolding after_reserve try_load_idempotent_claim_result
  seen-stops true again c w h = refl
  seen-stops {k = k} false again c w h =
      rw (is_exhausted, h) (load_row-stops k again c (w ++ []) [])

  reserve-stops :
      (b : Bool) (ws : List Write) (again : Action Reservation) (c : Db) (w : List Write)
      → reserve_statement p (apply_writes c w) ≡ ok (b, ws)
      → is_exhausted
          (after_reserve lib d p again b (record { committed = c; writes = w ++ ws; turns = [] })).0
        ≡ false
  unfolding after_reserve
  reserve-stops true ws again c w h = refl
  reserve-stops false ws again c w h =
      let (none_written, (k, found)) = reserve_false p (apply_writes c w) h in
      rw (none_written, append_nil w) (seen-stops false again c w found)

  loop-reserves :
      (n : ℕ) (c : Db) (w : List Write) (turns : List Turn)
      → length turns < n
      → is_exhausted
          (reserve_loop lib d p n (record { committed = c; writes = w; turns = turns })).0
        ≡ false
  unfolding reserve_loop try_reserve_idempotency_key
  loop-reserves zero c w turns h = ground arith
  loop-reserves (suc n) c w [] h = elim (Result-cases (reserve_statement p (apply_writes c w))) [
    | inl ((b, ws), e) ↦ rw (is_exhausted, e) (reserve-stops b ws (reserve_loop lib d p n) c w e)
    | inr (x, e) ↦ rw (is_exhausted, e)
  ]
  loop-reserves (suc n) c w (t ∷ ts) h =
      let next : (c' : Db) (w' : List Write) (us : List Turn)
          → length us ≤ length ts
          → is_exhausted
              (reserve_loop lib d p n (record { committed = c'; writes = w'; turns = us })).0
            ≡ false =
        λ c' w' us le. loop-reserves n c' w' us (omega arith) in
      elim (Option-cases t.fault) [
        | inl none_h ↦ elim (Result-cases (reserve_statement p (apply_writes (t.other c) w))) [
          | inl ((b, ws), e) ↦
              rw (is_exhausted, none_h, e)
                (reserve-goes_on b (reserve_loop lib d p n) (t.other c) (w ++ ws) ts next)
          | inr (x, e) ↦ rw (is_exhausted, none_h, e)
        ]
        | inr (e, h) ↦ rw (is_exhausted, h)
      ]

  some_result :
      (x : Result Err CreateClaimResult × Tx)
      → is_missing (after_step x (λ r. pure (some r))).0 ≡ false
  some_result (ok r, tx) = refl
  some_result (err e, tx) = refl

  completes :
      (fresh : Fresh) (x : Result Err (Option Claim) × Tx)
      → is_missing
          (after_step x
            (λ claim tx. after_step (complete lib d p fresh claim tx) (λ r. pure (some r)))).0
        ≡ false
  completes fresh (ok claim, tx) = some_result (complete lib d p fresh claim tx)
  completes fresh (err e, tx) = refl

  after_loop-answers :
      (fresh : Fresh) (x : Result Err Reservation × Tx)
      → is_exhausted x.0 ≡ false
      → is_missing (after_step x (after_loop lib d p fresh)).0 ≡ false
  unfolding after_loop
  after_loop-answers fresh (err e, tx) h = refl
  after_loop-answers fresh (ok exhausted, tx) h = ground arith
  after_loop-answers fresh (ok (replay r), tx) h = refl
  after_loop-answers fresh (ok reserved, tx) h =
      completes fresh (try_insert_claim lib d p fresh.claim_id fresh.now tx)

  transact-answers :
      (n : ℕ) (fresh : Fresh) (turns : List Turn) (c : Db)
      → length turns < n
      → is_missing
          (transact lib d p n fresh (record { committed = c; writes = []; turns = turns })).0
        ≡ false
  unfolding transact begin exec
  transact-answers n fresh [] c h = after_loop-answers fresh _ (loop-reserves n c [] [] h)
  transact-answers n fresh (t ∷ ts) c h = elim (Option-cases t.fault) [
    | inl none_h ↦
        rw (is_missing, none_h)
          (after_loop-answers fresh _ (loop-reserves n (t.other c) [] ts (omega arith)))
    | inr (e, fault_h) ↦ rw (is_missing, fault_h)
  ]

  -- With more rounds than turns the fuel does not run out, whatever the schedule and the tables.
  pub create_claim-ends :
      (n : ℕ) (fresh : Fresh) (turns : List Turn) (db : Db)
      → length turns < n
      → (create_claim lib d p n fresh turns db).0 ≢ ok none
  unfolding create_claim
  create_claim-ends n fresh turns db h eq =
      let answers = transact-answers n fresh turns db h in ground arith
