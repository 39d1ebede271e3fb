-- ===== src/Rewards/Create/Atomic.antt =====
-- What createClaim leaves in the tables, on every schedule.
use game_rewards_service.Base.{
  ℕ, zero, suc, ◌≡◌, refl, sym, Bool, true, false, Option, none, some, List, [], arith, ok,
  Result-cases, inl, inr, subst,
}
use game_rewards_service.Postgres.{Driver}
use game_rewards_service.Rewards.Claim.{CreateClaimParams, Library}
use game_rewards_service.Rewards.Tables.{
  Db, KeyRow, Write, find_key, reserve_statement, apply_writes,
}
use game_rewards_service.Rewards.Transaction.{
  Turn, Action, after_step, load_row, try_reserve_idempotency_key, try_load_idempotent_claim_result,
  stored_result,
}
use game_rewards_service.Rewards.Create.{
  Reservation, Fresh, reserve_loop, after_reserve, after_load, begin, after_loop, create_claim,
  transact,
}
use game_rewards_service.Rewards.Create.Rounds.{load_row-ok, load_row-err, load_row-none}
use game_rewards_service.Rewards.Create.Steps.{
  Reached, Reached-trans, step-then, exec-Stepped, exec_seen-Stepped, query_row-Stepped,
}
use game_rewards_service.Rewards.Create.Completion.{
  reserved-finishes, reserve-writes, find-writes, KeyPost,
}
use game_rewards_service.Rewards.Create.Batch.{
  IsAtomic, untouched, Goal, tx_of, replay-IsAtomic, stored_result-replayed,
}

module _ (lib : Library) (d : Driver) (p : CreateClaimParams) (fresh : Fresh) (db : Db)
    (turns : List Turn) where
  -- A round that goes on from tables that other transactions made.
  abbrev Going : Action Reservation → Type 0
  Going again =
      (c : Db) (ts : List Turn)
      → Reached db turns c ts
      → Goal lib d p fresh db turns
          (after_step (again (tx_of lib d p fresh db turns c [] ts)) (after_loop lib d p fresh))

  row-goes :
      (row : Option KeyRow) (again : Action Reservation) (c : Db) (ts : List Turn)
      → Reached db turns c ts
      → Going again
      → Goal lib d p fresh db turns (
          after_step
            (after_step
              (load_row lib d p row (tx_of lib d p fresh db turns c [] ts))
              (after_load lib d p again))
            (after_loop lib d p fresh))
  unfolding after_load
  row-goes none again c ts r go =
      rw (load_row-none lib d p (tx_of lib d p fresh db turns c [] ts)) (go c ts r)
  row-goes (some k) again c ts r go =
      let tx = tx_of lib d p fresh db turns c [] ts in
      elim (Result-cases (stored_result lib d p k k.response_status k.response_body)) [
        | inl (result, e) ↦ rw (load_row-ok lib d p k tx e) (
            replay-IsAtomic lib d p fresh db turns result again c ts r (
              stored_result-replayed lib d p fresh db turns k k.response_status k.response_body
                result e))
        | inr (x, e) ↦ rw (load_row-err lib d p k tx e) (untouched ts r refl)
      ]

  -- The key is there: it is read.
  taken-goes :
      (again : Action Reservation) (c : Db) (ts : List Turn)
      → Reached db turns c ts
      → Going again
      → Goal lib d p fresh db turns (
          after_step
            (after_reserve lib d p again false (tx_of lib d p fresh db turns c [] ts))
            (after_loop lib d p fresh))
  unfolding after_reserve try_load_idempotent_claim_result
  taken-goes again c ts r go =
      step-then
        (λ y.
          Goal lib d p fresh db turns
            (after_step (after_step y (after_load lib d p again)) (after_loop lib d p fresh)))
        (load_row lib d p)
        (query_row-Stepped d (λ seen. ok (find_key p.key_hash seen.keys, [])) (λ o vs. vs ≡ []) refl
          (find-writes lib d p fresh db turns) c [] ts)
        (λ row vs c' ts' r' none_written.
          subst
            (λ us. Goal lib d p fresh db turns (
              after_step
                (after_step (load_row lib d p row (tx_of lib d p fresh db turns c' us ts'))
                  (after_load lib d p again))
                (after_loop lib d p fresh)))
            (sym none_written) (row-goes row again c' ts' (Reached-trans r r') go))
        (λ x w' c' ts' r'. untouched ts' (Reached-trans r r') refl)

  reserve-goes :
      (b : Bool) (ws : List Write) (again : Action Reservation) (c : Db) (ts : List Turn)
      → KeyPost lib d p fresh db turns b ws
      → Reached db turns c ts
      → Going again
      → Goal lib d p fresh db turns (
          after_step
            (after_reserve lib d p again b (tx_of lib d p fresh db turns c ws ts))
            (after_loop lib d p fresh))
  unfolding after_reserve
  reserve-goes true ws again c ts (h, free) r go =
      rw h (reserved-finishes lib d p fresh db turns free c ts r)
  reserve-goes false ws again c ts h r go =
      subst
        (λ us. Goal lib d p fresh db turns (
          after_step (after_reserve lib d p again false (tx_of lib d p fresh db turns c us ts))
            (after_loop lib d p fresh)))
        (sym h) (taken-goes again c ts r go)

  loop-goes : (n : ℕ) → Going (reserve_loop lib d p n)
  unfolding reserve_loop try_reserve_idempotency_key after_loop apply_writes
  loop-goes zero c ts r = untouched ts r refl
  loop-goes (suc n) c ts r =
      step-then (λ y. Goal lib d p fresh db turns (after_step y (after_loop lib d p fresh)))
        (after_reserve lib d p (reserve_loop lib d p n))
        (exec_seen-Stepped d (reserve_statement p) (KeyPost lib d p fresh db turns) c [] ts
          (λ c' ts' r' b ws h.
            reserve-writes lib d p fresh db turns c' ts' b ws (Reached-trans r r') h))
        (λ b ws c' ts' r' h.
          reserve-goes b ws (reserve_loop lib d p n) c' ts' h (Reached-trans r r') (loop-goes n))
        (λ x w' c' ts' r'. untouched ts' (Reached-trans r r') refl)

  -- Whatever other transactions commit and whatever faults the driver reports, createClaim writes all
  -- of a request or nothing. Either the tables are as other transactions made them, and no new result
  -- is answered; or on top of them come the key with the response and, for a 201, the claim and its
  -- event, where no row had the key at an earlier moment of the request, and this response is
  -- answered, or an error.
  pub create_claim-IsAtomic :
      (rounds : ℕ)
      → IsAtomic lib d p fresh db turns
          (create_claim lib d p rounds fresh turns db).0
          (create_claim lib d p rounds fresh turns db).1
  unfolding create_claim transact begin
  create_claim-IsAtomic rounds =
      step-then (Goal lib d p fresh db turns)
        (λ _ tx. after_step (reserve_loop lib d p rounds tx) (after_loop lib d p fresh))
        (exec-Stepped d (λ seen. ok (tt, [])) (λ _ ws. ws ≡ []) (λ seen u ws h. ground arith) db []
          turns)
        (λ _ ws c' ts' r' none_written. rw none_written (loop-goes rounds c' ts' r'))
        (λ x w' c' ts' r'. untouched ts' r' refl)
