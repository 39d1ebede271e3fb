-- ===== src/Rewards/Create.antt =====
-- createClaim of internal/rewards/postgres.go: the reservation loop and the two ways to complete.
pub mod Rounds
pub mod Steps
pub mod Batch
pub mod Completion
pub mod Atomic
pub mod Linked
pub mod Traffic
pub mod Found
pub mod Kept
pub mod Retry
pub mod Rows
pub mod Serial
use game_rewards_service.Base.{
  ℕ, zero, suc, ◌≡◌, Bool, true, false, Option, none, some, List, [], ◌∷◌, Result, ok, err,
}
use game_rewards_service.Base.Text.{Bytes}
use game_rewards_service.Errors.{Err}
use game_rewards_service.Postgres.{Driver}
use game_rewards_service.Rewards.Claim.{Claim, CreateClaimParams, CreateClaimResult, Library}
use game_rewards_service.Rewards.Tables.{Db}
use game_rewards_service.Rewards.Transaction.{
  Turn, Tx, Action, after_step, ◌>>=◌, ◌>>◌, pure, exec, commit, try_reserve_idempotency_key,
  try_load_idempotent_claim_result, try_insert_claim, complete_created_claim,
  complete_duplicate_claim,
}

-- How the reservation loop ends; `exhausted` means that the fuel ran out.
pub data Reservation : Type 0 where
  reserved : Reservation
  replay : CreateClaimResult → Reservation
  exhausted : Reservation

-- The identifiers that newUUIDV4 makes for the claim and its event, and the transaction's now().
pub record Fresh : Type 0 where
  pub claim_id : Bytes
  pub event_id : Bytes
  pub now : ℕ

module _ (lib : Library) (d : Driver) (p : CreateClaimParams) where
  -- A stored result ends the loop once it is committed; a vanished row starts another round.
  unfoldable pub after_load : Action Reservation → Option CreateClaimResult → Action Reservation
  after_load again none = again
  after_load again (some r) = do commit d; pure (replay r)

  unfoldable pub after_reserve : Action Reservation → Bool → Action Reservation
  unfolding after_load
  after_reserve again true = pure reserved
  after_reserve again false = do
    stored ← try_load_idempotent_claim_result lib d p
    after_load again stored

  -- `for { … }`, by the rounds left.
  unfoldable pub reserve_loop : ℕ → Action Reservation
  unfolding after_reserve
  reserve_loop zero tx = (ok exhausted, tx)
  reserve_loop (suc rounds) tx =
      after_step (try_reserve_idempotency_key lib d p tx) (after_reserve (reserve_loop rounds))

  unfoldable pub complete : Fresh → Option Claim → Action CreateClaimResult
  complete fresh none = do r ← complete_duplicate_claim lib d p; commit d; pure r
  complete fresh (some claim) = do
    r ← complete_created_claim lib d p fresh.event_id claim
    commit d
    pure r

  unfoldable pub after_loop : Fresh → Reservation → Action (Option CreateClaimResult)
  unfolding complete
  after_loop fresh exhausted = pure none
  after_loop fresh (replay r) = pure (some r)
  after_loop fresh reserved = do
    claim ← try_insert_claim lib d p fresh.claim_id fresh.now
    r ← complete fresh claim
    pure (some r)

  -- BeginTx.
  unfoldable pub begin : Action (Unit {0})
  begin = exec d (λ db. ok (tt, []))

  -- The transaction up to its end: `none` means that the fuel ran out.
  unfoldable pub transact : ℕ → Fresh → Action (Option CreateClaimResult)
  unfolding begin reserve_loop after_loop
  transact rounds fresh = do begin; reservation ← reserve_loop rounds; after_loop fresh reservation

  -- The deferred rollback drops what was not committed.
  unfoldable pub create_claim :
      ℕ → Fresh → List Turn → Db → Result Err (Option CreateClaimResult) × Db
  unfolding transact
  create_claim rounds fresh turns db =
      let (r, tx) = transact rounds fresh (record { committed = db; writes = []; turns = turns }) in
      (r, tx.committed)
