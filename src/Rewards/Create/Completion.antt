-- ===== src/Rewards/Create/Completion.antt =====
-- createClaim from a reserved key on, on every schedule.
use game_rewards_service.Base.{
  ℕ, ◌≡◌, refl, Bool, true, false, Option, none, some, List, [], ◌∷◌, ◌++◌, arith, Result, ok,
  Option-cases, Bool-cases, inl, inr, ◌==◌,
}
use game_rewards_service.Base.Text.{Bytes}
use game_rewards_service.Errors.{Err}
use game_rewards_service.Postgres.{Driver}
use game_rewards_service.Rewards.Claim.{
  created_body, Claim, CreateClaimParams, CreateClaimResult, Library, new_reward_claimed_event,
  duplicate_claim_error,
}
use game_rewards_service.Rewards.Tables.{
  Db, KeyRow, Write, put_key, put_claim, put_event, complete_key, find_key, reserve_statement,
  insert_claim_statement, insert_event_statement, complete_statement,
}
use game_rewards_service.Rewards.Transaction.{
  Turn, Tx, pure, try_insert_claim, after_step, commit, complete_created_claim,
  complete_duplicate_claim, complete_idempotency_key, insert_reward_claimed_outbox_event,
}
use game_rewards_service.Rewards.Create.{reserved, Fresh, complete, after_loop}
use game_rewards_service.Rewards.Create.Rows.{new_key, new_claim, new_event}
use game_rewards_service.Rewards.Create.Steps.{
  Reached, Reached-trans, step-then, exec-Stepped, query_row-Stepped,
}
use game_rewards_service.Rewards.Transaction.{
  affected_one, marshalled, marshal_created_claim_response, marshal_duplicate_claim_response,
}
use game_rewards_service.Rewards.Create.Batch.{
  IsBatch, WasFree, was_free, created, conflict, untouched, Goal, tx_of, commit-IsAtomic,
}

module _ (lib : Library) (d : Driver) (p : CreateClaimParams) (fresh : Fresh) (db : Db)
    (turns : List Turn) where
  abbrev pub KeyPost : Bool → List Write → Type 0
  KeyPost true ws = (ws ≡ put_key (new_key p) ∷ []) × WasFree p db turns
  KeyPost false ws = ws ≡ []

  pub reserve-writes :
      (seen : Db) (ts : List Turn) (b : Bool) (ws : List Write)
      → Reached db turns seen ts
      → reserve_statement p seen ≡ ok (b, ws)
      → KeyPost b ws
  unfolding reserve_statement
  reserve-writes seen ts true ws r h = (ground arith, was_free seen ts r (ground arith))
  reserve-writes seen ts false ws r h = ground arith

  pub find-writes :
      (seen : Db) (o : Option KeyRow) (ws : List Write)
      → ◌≡◌ {A = Result Err (Option KeyRow × List Write)}
          (ok (find_key p.key_hash seen.keys, []))
          (ok (o, ws))
      → ws ≡ []
  find-writes seen o ws h = ground arith

module _ (lib : Library) (d : Driver) (p : CreateClaimParams) (fresh : Fresh) (db : Db)
    (turns : List Turn) (free : WasFree p db turns) where
  -- The rest of createClaim after a completion.
  abbrev Finishing : Result Err CreateClaimResult × Tx → Type 0
  Finishing y = Goal lib d p fresh db turns (
      after_step (after_step y (λ r tx. after_step (commit d tx) (λ _. pure r)))
        (λ r. pure (some r)))

  complete_statement-writes :
      (status : ℕ) (body id : Bytes) (seen : Db) (n : ℕ) (ws : List Write)
      → complete_statement p status body id seen ≡ ok (n, ws)
      → (n == 1) ≡ true
      → ws ≡ complete_key p status body id ∷ []
  unfolding complete_statement
  complete_statement-writes status body id seen n ws h one = ground arith

  key-finishes :
      (status : ℕ) (body id : Bytes) (w : List Write) (c : Db) (ts : List Turn)
      → Reached db turns c ts
      → IsBatch lib d p fresh status body (w ++ complete_key p status body id ∷ [])
      → Finishing (
          after_step
            (complete_idempotency_key lib d p status body id (tx_of lib d p fresh db turns c w ts))
            (λ _. pure (record { status_code = status; response_body = body; replayed = false })))
  unfolding complete_idempotency_key affected_one
  key-finishes status body id w c ts r b =
      step-then
        (λ y. Finishing (
          after_step y
            (λ _. pure (record { status_code = status; response_body = body; replayed = false }))))
        (affected_one lib d p)
        (exec-Stepped d (complete_statement p status body id)
          (λ n ws. (n == 1) ≡ true → ws ≡ complete_key p status body id ∷ [])
          (complete_statement-writes status body id) c w ts)
        (λ n ws c' ts' r' h. elim (Bool-cases (n == 1)) [
          | inl one ↦
              rw (one, h one)
                (commit-IsAtomic lib d p fresh db turns status body
                  (w ++ complete_key p status body id ∷ []) c' ts' free (Reached-trans r r') b)
          | inr other ↦ rw other (untouched ts' (Reached-trans r r') refl)
        ])
        (λ e w' c' ts' r'. untouched ts' (Reached-trans r r') refl)

  duplicate-finishes :
      (c : Db) (ts : List Turn)
      → Reached db turns c ts
      → Finishing (
          complete_duplicate_claim lib d p
            (tx_of lib d p fresh db turns c (put_key (new_key p) ∷ []) ts))
  unfolding complete_duplicate_claim marshalled marshal_created_claim_response
      marshal_duplicate_claim_response
  duplicate-finishes c ts r = elim (Option-cases (lib.encode_error duplicate_claim_error)) [
    | inl bad ↦ rw bad (untouched ts r refl)
    | inr (body, e) ↦
        rw e (key-finishes 409 body [] (put_key (new_key p) ∷ []) c ts r (conflict body e))
  ]

  insert_event-writes :
      (payload : Bytes) (seen : Db) (u : Unit {0}) (ws : List Write)
      → insert_event_statement fresh.event_id fresh.claim_id payload seen ≡ ok (u, ws)
      → ws ≡ put_event (new_event fresh payload) ∷ []
  unfolding insert_event_statement
  insert_event-writes payload seen u ws h = ground arith

  abbrev claimed : List Write
  claimed = put_key (new_key p) ∷ put_claim (new_claim p fresh) ∷ []

  created-finishes :
      (c : Db) (ts : List Turn)
      → Reached db turns c ts
      → Finishing (
          complete_created_claim lib d p fresh.event_id
            (new_claim p fresh)
            (tx_of lib d p fresh db turns c claimed ts))
  unfolding complete_created_claim insert_reward_claimed_outbox_event marshalled
      marshal_created_claim_response marshal_duplicate_claim_response
  created-finishes c ts r = elim (Option-cases (created_body lib (new_claim p fresh))) [
    | inl bad ↦ rw bad (untouched ts r refl)
    | inr (body, e) ↦
        elim (Option-cases
          (lib.encode_event (new_reward_claimed_event fresh.event_id (new_claim p fresh)))) [
            | inl bad ↦ rw (e, bad) (untouched ts r refl)
            | inr (payload, k) ↦
                rw (e, k)
                  (step-then Finishing
                    (λ _ tx.
                      after_step (complete_idempotency_key lib d p 201 body fresh.claim_id tx) (λ _.
                        pure
                          (record { status_code = 201; response_body = body; replayed = false })))
                    (exec-Stepped d (insert_event_statement fresh.event_id fresh.claim_id payload)
                      (λ u ws. ws ≡ put_event (new_event fresh payload) ∷ [])
                      (insert_event-writes payload) c claimed ts)
                    (λ u ws c' ts' r' h. rw h (
                      key-finishes 201 body fresh.claim_id
                        (claimed ++ put_event (new_event fresh payload) ∷ []) c' ts'
                        (Reached-trans r r') (created body payload e k)))
                    (λ x w' c' ts' r'. untouched ts' (Reached-trans r r') refl))
          ]
  ]

  -- The statements that insert a claim and reserve a key.
  abbrev ClaimPost : Option Claim → List Write → Type 0
  ClaimPost none ws = ws ≡ []
  ClaimPost (some claim) ws =
      (claim ≡ new_claim p fresh) × (ws ≡ put_claim (new_claim p fresh) ∷ [])

  insert_claim-writes :
      (seen : Db) (o : Option Claim) (ws : List Write)
      → insert_claim_statement fresh.claim_id fresh.now p seen ≡ ok (o, ws)
      → ClaimPost o ws
  unfolding insert_claim_statement
  insert_claim-writes seen none ws h = ground arith
  insert_claim-writes seen (some claim) ws h = ground arith

  claims-finish :
      (claim : Option Claim) (ws : List Write) (c : Db) (ts : List Turn)
      → Reached db turns c ts
      → ClaimPost claim ws
      → Goal lib d p fresh db turns (
          after_step
            (complete lib d p fresh claim
              (tx_of lib d p fresh db turns c (put_key (new_key p) ∷ ws) ts))
            (λ r. pure (some r)))
  unfolding complete
  claims-finish none ws c ts r h = rw h (duplicate-finishes c ts r)
  claims-finish (some claim) ws c ts r (same, written) =
      rw (same, written) (created-finishes c ts r)

  pub reserved-finishes :
      (c : Db) (ts : List Turn)
      → Reached db turns c ts
      → Goal lib d p fresh db turns (
          after_loop lib d p fresh reserved
            (tx_of lib d p fresh db turns c (put_key (new_key p) ∷ []) ts))
  unfolding after_loop try_insert_claim
  reserved-finishes c ts r =
      step-then (Goal lib d p fresh db turns)
        (λ claim tx. after_step (complete lib d p fresh claim tx) (λ r. pure (some r)))
        (query_row-Stepped d (insert_claim_statement fresh.claim_id fresh.now p) ClaimPost refl
          insert_claim-writes c (put_key (new_key p) ∷ []) ts)
        (λ claim ws c' ts' r' h. claims-finish claim ws c' ts' (Reached-trans r r') h)
        (λ x w' c' ts' r'. untouched ts' (Reached-trans r r') refl)
