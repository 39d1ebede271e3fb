-- ===== src/Rewards/Create/Retry.antt =====
-- A request of internal/rewards/postgres.go that is made again after it was answered.
use game_rewards_service.Base.{
  ℕ, suc, ◌≡◌, refl, Bool, true, false, ◌&&◌, Option, some, List, [], arith, Bool-cases, inl, inr,
  if◌then◌else◌, Result, ok, err, subst, sym,
}
use game_rewards_service.Base.Text.{Bytes, is_empty, str_eq}
use game_rewards_service.Errors.{Err, sentinel, idempotency_key_reused}
use game_rewards_service.Postgres.{Driver}
use game_rewards_service.Rewards.Claim.{CreateClaimParams, CreateClaimResult, Library}
use game_rewards_service.Rewards.Tables.{Db, KeyRow, find_key, Write, apply_writes, completed}
use game_rewards_service.Rewards.Transaction.{Turn}
use game_rewards_service.Rewards.Create.{Fresh, create_claim}
use game_rewards_service.Rewards.Create.Rows.{new_key, find_key-here, reserve_seen}
use game_rewards_service.Rewards.Create.Serial.{replay_run, reused_run}
use game_rewards_service.Rewards.Create.Batch.{IsBatch, created, conflict, untouched, whole, is_new}
use game_rewards_service.Rewards.Create.Atomic.{create_claim-IsAtomic}
use game_rewards_service.Rewards.Create.Steps.{Reached}
use game_rewards_service.Rewards.Create.Linked.{
  IsJson, IsLinked, complete_where-first, request-IsLinked,
}
use game_rewards_service.Rewards.Create.Traffic.{
  IsTraffic, AreTraffic, steps-IsLinked, turns-IsLinked, answered-find_key, settled_same,
  settled_other,
}
use game_rewards_service.Rewards.Create.Kept.{traffic-find_key, of_key}

-- Do they claim the same reward?
abbrev pub is_same : CreateClaimParams → CreateClaimParams → Bool
is_same p q =
    str_eq p.player_id q.player_id
    && (str_eq p.campaign_id q.campaign_id && str_eq p.reward_id q.reward_id)

-- The row of a request's key, once it was answered.
pub record IsStored (p : CreateClaimParams) (r : CreateClaimResult) (k : KeyRow) : Type 0 where
  pub player : k.player_id ≡ p.player_id
  pub campaign : k.campaign_id ≡ p.campaign_id
  pub reward : k.reward_id ≡ p.reward_id
  pub status : k.response_status ≡ some r.status_code
  pub body : k.response_body ≡ some r.response_body

module _ (lib : Library) (d : Driver) where
  batch-IsStored :
      (p : CreateClaimParams) (fresh : Fresh) (base : Db) (status : ℕ) (body : Bytes)
      (ws : List Write)
      → IsLinked lib base
      → IsBatch lib d p fresh status body ws
      → (k : KeyRow) × (find_key p.key_hash (apply_writes base ws).keys ≡ some k)
        × IsStored p (record { status_code = status; response_body = body; replayed = false }) k
  unfolding apply_writes
  batch-IsStored p fresh base _ _ _ v (created body payload e e') = (
    completed 201 body fresh.claim_id (new_key p),
    rw (complete_where-first lib base.claims p 201 body fresh.claim_id base.keys v.answered)
        (find_key-here (completed 201 body fresh.claim_id (new_key p)) base.keys),
    record { player = refl; campaign = refl; reward = refl; status = refl; body = refl },
  )
  batch-IsStored p fresh base _ _ _ v (conflict body e) = (
    completed 409 body [] (new_key p),
    rw (complete_where-first lib base.claims p 409 body [] base.keys v.answered)
        (find_key-here (completed 409 body [] (new_key p)) base.keys),
    record { player = refl; campaign = refl; reward = refl; status = refl; body = refl },
  )

  answer_injective :
      {x : Result Err (Option CreateClaimResult)} {r s : CreateClaimResult}
      → x ≡ ok (some r)
      → x ≡ ok (some s)
      → r ≡ s
  answer_injective e e' = cc

  -- A request that was answered for the first time has left its row.
  answered-IsStored :
      (p : CreateClaimParams) (fresh : Fresh) (rounds : ℕ) (turns : List Turn) (db : Db)
      (r : CreateClaimResult)
      → ((c : Db) (ts : List Turn) → Reached db turns c ts → IsLinked lib c)
      → (create_claim lib d p rounds fresh turns db).0 ≡ ok (some r)
      → r.replayed ≡ false
      → (k : KeyRow) × (find_key p.key_hash (create_claim lib d p rounds fresh turns db).1.keys
          ≡ some k)
        × IsStored p r k
  answered-IsStored p fresh rounds turns db r found answered fresh_answer =
      elim (create_claim-IsAtomic lib d p fresh db turns rounds) [
        | untouched ts reached none_new ↦
            let same = subst (λ x. is_new lib d p fresh x ≡ false) answered none_new in
            absurd (ground arith)
        | whole base ts status body ws free reached b written (inl answer) ↦
            let (k, stored, row) =
              batch-IsStored p fresh base status body ws (found base ts reached) b in
            (
              k,
              subst (λ x. find_key p.key_hash x.keys ≡ some k) (sym written) stored,
              subst (λ x. IsStored p x k) (answer_injective answer answered) row,
            )
        | whole base ts status body ws free reached b written (inr (e, failed)) ↦
            absurd (ground arith)
      ]

  -- What a request finds whose key has this row.
  find_again :
      (p q : CreateClaimParams) (r : CreateClaimResult) (k : KeyRow) (later : Fresh) (n : ℕ)
      (db : Db)
      → IsLinked lib db
      → q.key_hash ≡ p.key_hash
      → find_key p.key_hash db.keys ≡ some k
      → IsStored p r k
      → create_claim lib d q (suc n) later [] db ≡ (
        if is_same p q
            then ok (some (record r { replayed = true }))
            else err (sentinel idempotency_key_reused),
        db,
      )
  find_again p q r k later n db v key e row =
      let found = subst (λ h. find_key h db.keys ≡ some k) (sym key) e in
      let whole_row = answered-find_key lib db.claims p.key_hash k db.keys v.answered e in
      elim (Bool-cases (is_same p q)) [
        | inl same ↦ rw same (
            replay_run lib d q later n db (reserve_seen q db found) found (
              settled_same lib d q db.claims k r.status_code r.response_body row.status row.body
                whole_row (rw (row.player, row.campaign, row.reward, same))))
        | inr other ↦ rw other (
            reused_run lib d q later n db (reserve_seen q db found) found (
              settled_other lib d q db.claims k r.status_code r.response_body row.status row.body
                whole_row (rw (row.player, row.campaign, row.reward, other))))
      ]

  -- On linked tables, a request that was answered for the first time, whatever requests ran beside
  -- it, is answered with the same status and body as a replay when it is made again, after any
  -- requests and after clean-ups that spare its key; a request with this key for another reward is
  -- refused with ErrIdempotencyKeyReused; neither changes the tables. The later request is alone, the
  -- encoder gives JSON, and the new claim's identifier is not empty.
  pub create_claim_again :
      (json : IsJson lib) (p q : CreateClaimParams) (fresh later : Fresh) (rounds n : ℕ)
      (turns : List Turn) (db : Db) (r : CreateClaimResult) (f : Db → Db)
      → IsLinked lib db
      → is_empty fresh.claim_id ≡ false
      → AreTraffic lib d (of_key p.key_hash) turns
      → (create_claim lib d p rounds fresh turns db).0 ≡ ok (some r)
      → r.replayed ≡ false
      → IsTraffic lib d (of_key p.key_hash) f
      → q.key_hash ≡ p.key_hash
      → create_claim lib d q (suc n) later [] (f (create_claim lib d p rounds fresh turns db).1) ≡ (
        if is_same p q
            then ok (some (record r { replayed = true }))
            else err (sentinel idempotency_key_reused),
        f (create_claim lib d p rounds fresh turns db).1,
      )
  create_claim_again json p q fresh later rounds n turns db r f v named beside answered first t
        key =
      let spared = of_key p.key_hash in
      let after = (create_claim lib d p rounds fresh turns db).1 in
      let found : (c : Db) (ts : List Turn) → Reached db turns c ts → IsLinked lib c =
        λ c ts reached. turns-IsLinked lib d spared json turns beside db c ts reached v in
      let linked = request-IsLinked lib d json p fresh db turns rounds named found in
      let (k, stored, row) = answered-IsStored p fresh rounds turns db r found answered first in
      find_again p q r k later n (f after) (steps-IsLinked lib d spared json f t after linked) key
        (traffic-find_key lib d json p.key_hash k f t after linked stored) row
