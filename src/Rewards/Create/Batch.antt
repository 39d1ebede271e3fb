-- ===== src/Rewards/Create/Batch.antt =====
-- All that a request writes, and its commit.
use game_rewards_service.Base.{
  ℕ, ◌≡◌, ◌⊎◌, refl, Bool, true, false, not, Option, none, some, List, [], ◌∷◌, arith, Result, ok,
  err, Option-cases, Bool-cases, inl, inr,
}
use game_rewards_service.Base.Text.{Bytes}
use game_rewards_service.Errors.{Err}
use game_rewards_service.Postgres.{Driver}
use game_rewards_service.Rewards.Claim.{
  created_body, CreateClaimParams, CreateClaimResult, Library, new_reward_claimed_event,
  duplicate_claim_error,
}
use game_rewards_service.Rewards.Tables.{
  Db, KeyRow, Write, put_key, put_claim, put_event, complete_key, apply_writes, find_key,
}
use game_rewards_service.Rewards.Transaction.{
  Turn, Tx, pure, Action, after_step, commit, stored_result,
}
use game_rewards_service.Rewards.Create.{Reservation, Fresh, after_load, after_loop}
use game_rewards_service.Rewards.Create.Rows.{new_key, new_claim, new_event}
use game_rewards_service.Rewards.Create.Steps.{Reached, here, turn, Reached-trans}

-- No row had the key at some moment between the statements of the request.
pub data WasFree (p : CreateClaimParams) (db : Db) (turns : List Turn) : Type 0 where
  was_free :
      (seen : Db) (us : List Turn)
      → Reached db turns seen us
      → find_key p.key_hash seen.keys ≡ none
      → WasFree p db turns

module _ (lib : Library) (d : Driver) (p : CreateClaimParams) (fresh : Fresh) where
  -- All that a request writes: the key, the claim and its event for a created claim, and the key alone
  -- for a conflict; the key holds the response.
  pub data IsBatch : ℕ → Bytes → List Write → Type 0 where
    created :
        (body payload : Bytes)
        → created_body lib (new_claim p fresh) ≡ some body
        → lib.encode_event (new_reward_claimed_event fresh.event_id (new_claim p fresh))
          ≡ some payload
        → IsBatch 201 body (
            put_key (new_key p)
            ∷ put_claim (new_claim p fresh)
            ∷ put_event (new_event fresh payload)
            ∷ complete_key p 201 body fresh.claim_id
            ∷ [])
    conflict :
        (body : Bytes)
        → lib.encode_error duplicate_claim_error ≡ some body
        → IsBatch 409 body (put_key (new_key p) ∷ complete_key p 409 body [] ∷ [])

  abbrev pub is_new : Result Err (Option CreateClaimResult) → Bool
  is_new (ok (some result)) = not result.replayed
  is_new (ok none) = false
  is_new (err e) = false

  module _ (db : Db) (turns : List Turn) where
    -- The tables are those that other transactions made, and no new result is answered; or one whole
    -- batch came on top of them, for a key that was free, and its response is answered, or an error.
    pub data IsAtomic (r : Result Err (Option CreateClaimResult)) (db' : Db) : Type 0 where
      untouched : (ts : List Turn) → Reached db turns db' ts → is_new r ≡ false → IsAtomic r db'
      whole :
          (base : Db) (ts : List Turn) (status : ℕ) (body : Bytes) (ws : List Write)
          → WasFree p db turns
          → Reached db turns base ts
          → IsBatch status body ws
          → db' ≡ apply_writes base ws
          → (r
              ≡ ok (some (record { status_code = status; response_body = body; replayed = false })))
            ⊎ ((e : Err) × (r ≡ err e))
          → IsAtomic r db'

    abbrev pub Goal : Result Err (Option CreateClaimResult) × Tx → Type 0
    Goal x = IsAtomic x.0 x.1.committed

    abbrev pub tx_of : Db → List Write → List Turn → Tx
    tx_of c w ts = record { committed = c; writes = w; turns = ts }

    pub commit-IsAtomic :
        (status : ℕ) (body : Bytes) (w : List Write) (c : Db) (ts : List Turn)
        → WasFree p db turns
        → Reached db turns c ts
        → IsBatch status body w
        → Goal (
            after_step
              (after_step (commit d (tx_of c w ts)) (λ _.
                pure (record { status_code = status; response_body = body; replayed = false })))
              (λ r. pure (some r)))
    unfolding commit
    commit-IsAtomic status body w c [] free r b = whole c [] status body w free r b refl (inl refl)
    commit-IsAtomic status body w c (t ∷ ts) free r b =
        let reached = Reached-trans r (turn t here) in
        elim (Option-cases t.fault) [
          | inl calm ↦ rw calm (whole (t.other c) ts status body w free reached b refl (inl refl))
          | inr (e, fault) ↦ elim (Bool-cases t.applied) [
            | inl applied ↦
                rw (fault, applied)
                  (whole (t.other c) ts status body w free reached b refl (inr (_, refl)))
            | inr lost ↦ rw (fault, lost) (untouched ts reached refl)
          ]
        ]

    pub replay-IsAtomic :
        (result : CreateClaimResult) (again : Action Reservation) (c : Db) (ts : List Turn)
        → Reached db turns c ts
        → result.replayed ≡ true
        → Goal (
            after_step
              (after_load lib d p again (some result) (tx_of c [] ts))
              (after_loop lib d p fresh))
    unfolding commit after_load after_loop apply_writes
    replay-IsAtomic result again c [] r h = untouched [] r (rw h)
    replay-IsAtomic result again c (t ∷ ts) r h =
        let reached = Reached-trans r (turn t here) in
        elim (Option-cases t.fault) [
          | inl calm ↦ rw calm (untouched ts reached (rw h))
          | inr (e, fault) ↦ elim (Bool-cases t.applied) [
            | inl applied ↦ rw (fault, applied) (untouched ts reached refl)
            | inr lost ↦ rw (fault, lost) (untouched ts reached refl)
          ]
        ]

    pub stored_result-replayed :
        (k : KeyRow) (status : Option ℕ) (body : Option Bytes) (result : CreateClaimResult)
        → stored_result lib d p k status body ≡ ok result
        → result.replayed ≡ true
    unfolding stored_result
    stored_result-replayed k none body result h = ground arith
    stored_result-replayed k (some status) none result h = ground arith
    stored_result-replayed k (some status) (some body) result h = ground arith
