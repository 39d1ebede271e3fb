-- ===== src/Rewards/Create/Found.antt =====
-- A request of internal/rewards/postgres.go whose key was used before, by whichever request.
use game_rewards_service.Base.{
  ℕ, suc, ◌≡◌, Bool, true, ◌&&◌, some, [], arith, Bool-cases, Option-cases, inl, inr, if◌then◌else◌,
  ok, err,
}
use game_rewards_service.Base.Text.{Bytes, str_eq}
use game_rewards_service.Errors.{sentinel, idempotency_key_reused}
use game_rewards_service.Postgres.{Driver}
use game_rewards_service.Rewards.Claim.{CreateClaimParams, Library}
use game_rewards_service.Rewards.Tables.{Db, KeyRow, find_key}
use game_rewards_service.Rewards.Create.{Fresh, create_claim}
use game_rewards_service.Rewards.Create.Rows.{reserve_seen}
use game_rewards_service.Rewards.Create.Serial.{replay_run, reused_run}
use game_rewards_service.Rewards.Create.Linked.{IsJson, is_answered}
use game_rewards_service.Rewards.Create.Traffic.{
  IsTraffic, no_rows_yet, traffic-IsLinked, answered-find_key, settled_same, settled_other, no_body,
  no_status,
}

-- Does the request claim what the row's request claimed?
abbrev pub is_for : CreateClaimParams → KeyRow → Bool
is_for p k =
    str_eq k.player_id p.player_id
    && (str_eq k.campaign_id p.campaign_id && str_eq k.reward_id p.reward_id)

module _ (lib : Library) (d : Driver) (p : CreateClaimParams) (fresh : Fresh) (n : ℕ) (db : Db)
    (k : KeyRow) where
  -- The row holds an answer, and the request gets it or is refused.
  abbrev pub IsFound : Type 0
  IsFound =
      (status : ℕ) × (body : Bytes) × (k.response_status ≡ some status)
      × (k.response_body ≡ some body)
      × (create_claim lib d p (suc n) fresh [] db ≡ (
        if is_for p k
            then ok (some (record { status_code = status; response_body = body; replayed = true }))
            else err (sentinel idempotency_key_reused),
        db,
      ))

  row-IsFound :
      find_key p.key_hash db.keys ≡ some k
      → is_answered lib db.claims k ≡ true
      → (status : ℕ) (body : Bytes) → k.response_status ≡ some status
      → k.response_body ≡ some body
      → IsFound
  row-IsFound e v status body s b = (
    status,
    body,
    s,
    b,
    elim (Bool-cases (is_for p k)) [
      | inl same ↦ rw same (
          replay_run lib d p fresh n db (reserve_seen p db e) e
            (settled_same lib d p db.claims k status body s b v same))
      | inr other ↦ rw other (
          reused_run lib d p fresh n db (reserve_seen p db e) e
            (settled_other lib d p db.claims k status body s b v other))
    ],
  )

  answered-IsFound :
      find_key p.key_hash db.keys ≡ some k → is_answered lib db.claims k ≡ true → IsFound
  answered-IsFound e v = elim (Option-cases k.response_body) [
    | inl b ↦ (let bad = no_body lib d p db.claims k b in absurd (ground arith))
    | inr (body, b) ↦ elim (Option-cases k.response_status) [
      | inl s ↦ (let bad = no_status lib d p db.claims k s in absurd (ground arith))
      | inr (status, s) ↦ row-IsFound e v status body s b
    ]
  ]

-- After any requests and clean-ups on the empty tables, in any order and at once, a request whose key
-- has a row is answered with the row's status and body, marked as replayed, if it is for the row's
-- player, campaign and reward, and refused with ErrIdempotencyKeyReused if it is not; the tables stay
-- as they are. The request itself runs alone, the encoder gives JSON, and the identifiers of the new
-- claims are not empty.
pub create_claim-IsFound :
    (lib : Library) (d : Driver) (kept : KeyRow → Bool)
    → IsJson lib
    → (f : Db → Db) → IsTraffic lib d kept f
    → (p : CreateClaimParams) (fresh : Fresh) (n : ℕ) (k : KeyRow)
    → find_key p.key_hash (f no_rows_yet).keys ≡ some k
    → IsFound lib d p fresh n (f no_rows_yet) k
create_claim-IsFound lib d kept json f t p fresh n k e =
    let db = f no_rows_yet in
    let v = traffic-IsLinked lib d kept json f t in
    answered-IsFound lib d p fresh n db k e
      (answered-find_key lib db.claims p.key_hash k db.keys v.answered e)
