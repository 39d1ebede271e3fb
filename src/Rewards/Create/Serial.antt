-- ===== src/Rewards/Create/Serial.antt =====
-- createClaim of internal/rewards/postgres.go when nothing else touches the tables and the database
-- answers.
use game_rewards_service.Base.{
  ℕ, suc, ◌≡◌, refl, true, false, ◌&&◌, ◌||◌, none, some, [], ◌∷◌, arith, ok, err, length, ◌==◌,
}
use game_rewards_service.Base.Text.{Bytes, str_eq, str_eq_refl, is_empty}
use game_rewards_service.Base.Text.Utf8.{valid_string}
use game_rewards_service.Errors.{Err, sentinel, idempotency_key_reused}
use game_rewards_service.Postgres.{Driver}
use game_rewards_service.Rewards.Claim.{
  created_body, Claim, CreateClaimParams, CreateClaimResult, Library, new_reward_claimed_event,
  duplicate_claim_error,
}
use game_rewards_service.Rewards.Tables.{
  Db, KeyRow, apply_writes, find_key, reserve_statement, completed, ids_ok, find_claim,
  has_claim_id, has_clash, shape_ok,
}
use game_rewards_service.Rewards.Transaction.{
  stored_result, commit, try_reserve_idempotency_key, try_load_idempotent_claim_result,
  try_insert_claim, complete_created_claim, complete_duplicate_claim,
}
use game_rewards_service.Rewards.Create.{Fresh, create_claim}
use game_rewards_service.Rewards.Create.Rows.{
  new_key, new_claim, new_event, db_created, count-new_key, complete-new_key, reserve_new,
  insert_new, insert_taken, insert_event_new, complete_one, find_key-here, reserve_seen,
}

module _ (lib : Library) (d : Driver) (p : CreateClaimParams) (fresh : Fresh) (n : ℕ)
    (db : Db) where
  pub replay_run :
      {k : KeyRow} {r : CreateClaimResult}
      → reserve_statement p db ≡ ok (false, [])
      → find_key p.key_hash db.keys ≡ some k
      → stored_result lib d p k k.response_status k.response_body ≡ ok r
      → create_claim lib d p (suc n) fresh [] db ≡ (ok (some r), db)
  unfolding create_claim apply_writes commit try_reserve_idempotency_key
      try_load_idempotent_claim_result
  replay_run h1 h2 h3 = rw (h1, h2) (ground arith)

  pub reused_run :
      {k : KeyRow} {e : Err}
      → reserve_statement p db ≡ ok (false, [])
      → find_key p.key_hash db.keys ≡ some k
      → stored_result lib d p k k.response_status k.response_body ≡ err e
      → create_claim lib d p (suc n) fresh [] db ≡ (err e, db)
  unfolding create_claim apply_writes commit try_reserve_idempotency_key
      try_load_idempotent_claim_result
  reused_run h1 h2 h3 = rw (h1, h2) (ground arith)

module _ (lib : Library) (d : Driver) (p : CreateClaimParams) (fresh : Fresh) (n : ℕ) (db : Db)
    (free_key : find_key p.key_hash db.keys ≡ none) (hash : length p.key_hash ≡ 32)
    (ids : ids_ok p ≡ true) where
  -- A first request for a reward already claimed answers 409 and keeps only its key and answer.
  pub create_claim_conflict :
      {c : Claim} {body : Bytes}
      → find_claim p.player_id p.campaign_id p.reward_id db.claims ≡ some c
      → lib.encode_error duplicate_claim_error ≡ some body
      → is_empty body ≡ false
      → create_claim lib d p (suc n) fresh [] db ≡ (
        ok (some (record { status_code = 409; response_body = body; replayed = false })),
        record db { keys = completed 409 body [] (new_key p) ∷ db.keys },
      )
  unfolding create_claim apply_writes commit try_reserve_idempotency_key try_insert_claim
      complete_duplicate_claim shape_ok
  create_claim_conflict {body = body} taken enc nonempty = rw (
    reserve_new p fresh db free_key hash ids,
    insert_taken p fresh (record db { keys = new_key p ∷ db.keys }) taken,
    enc,
    complete_one p fresh (record db { keys = new_key p ∷ db.keys }) 409 body []
        (count-new_key p db.keys free_key) (rw (nonempty)) refl,
    complete-new_key p 409 body [] db.keys free_key,
  )

  -- A first request for a reward not yet claimed answers 201 with the claim, and the claim, its event
  -- and the completed key are written together.
  pub create_claim_created :
      {body payload : Bytes}
      → find_claim p.player_id p.campaign_id p.reward_id db.claims ≡ none
      → has_claim_id fresh.claim_id db.claims ≡ false
      → has_clash (new_event fresh payload) db.events ≡ false
      → is_empty fresh.claim_id ≡ false
      → created_body lib (new_claim p fresh) ≡ some body
      → lib.encode_event (new_reward_claimed_event fresh.event_id (new_claim p fresh))
        ≡ some payload
      → is_empty body ≡ false
      → create_claim lib d p (suc n) fresh [] db ≡ (
        ok (some (record { status_code = 201; response_body = body; replayed = false })),
        db_created p fresh db body payload,
      )
  unfolding create_claim apply_writes commit try_reserve_idempotency_key try_insert_claim
      complete_created_claim shape_ok has_claim_id
  create_claim_created {body = body} {payload = payload} unclaimed fresh_id no_clash id_nonempty enc
        enc_event nonempty =
      let keyed : Db = record db { keys = new_key p ∷ db.keys } in
      let claimed : Db = record keyed { claims = new_claim p fresh ∷ db.claims } in
      let noted : Db = record claimed { events = new_event fresh payload ∷ db.events } in
      rw (
        reserve_new p fresh db free_key hash ids,
        insert_new p fresh keyed unclaimed fresh_id ids,
        enc,
        enc_event,
        insert_event_new p fresh claimed payload no_clash,
        complete_one p fresh noted 201 body fresh.claim_id (count-new_key p db.keys free_key)
            (rw (nonempty, id_nonempty)) (rw (str_eq_refl fresh.claim_id, id_nonempty)),
        complete-new_key p 201 body fresh.claim_id db.keys free_key,
      )

module _ (lib : Library) (d : Driver) (p : CreateClaimParams) (fresh : Fresh) (n : ℕ)
    (db : Db) where
  -- A request whose key is stored with the same player, campaign and reward and a complete answer
  -- gets that answer, marked as replayed, and changes nothing.
  pub create_claim_replayed :
      (k : KeyRow) (status : ℕ) (body : Bytes)
      → find_key p.key_hash db.keys ≡ some k
      → k.response_status ≡ some status
      → k.response_body ≡ some body
      → str_eq k.player_id p.player_id
          && (str_eq k.campaign_id p.campaign_id && str_eq k.reward_id p.reward_id)
        ≡ true
      → status == 201 || status == 409 ≡ true
      → is_empty body ≡ false
      → valid_string body && lib.json_valid body ≡ true
      → create_claim lib d p (suc n) fresh [] db
        ≡ (ok (some (record { status_code = status; response_body = body; replayed = true })), db)
  unfolding stored_result
  create_claim_replayed k status body h hs hb same known nonempty json =
      replay_run lib d p fresh n db (reserve_seen p db h) h
        (rw (hs, hb, nonempty, same, known, json))

  -- A key that is stored with an answer for another player, campaign or reward is refused, and
  -- nothing changes.
  pub create_claim_reused :
      (k : KeyRow) (status : ℕ) (body : Bytes)
      → find_key p.key_hash db.keys ≡ some k
      → k.response_status ≡ some status
      → k.response_body ≡ some body
      → is_empty body ≡ false
      → str_eq k.player_id p.player_id
          && (str_eq k.campaign_id p.campaign_id && str_eq k.reward_id p.reward_id)
        ≡ false
      → create_claim lib d p (suc n) fresh [] db ≡ (err (sentinel idempotency_key_reused), db)
  unfolding stored_result
  create_claim_reused k status body h hs hb nonempty other =
      reused_run lib d p fresh n db (reserve_seen p db h) h (rw (hs, hb, nonempty, other))

-- The request that claims the reward, repeated with the same key, gets the first answer again, marked
-- as replayed, and neither the claim nor its event is written a second time.
pub create_claim_twice :
    (lib : Library) (d : Driver) (p : CreateClaimParams) (first second : Fresh) (m n : ℕ) (db : Db)
    → {body payload : Bytes} → find_key p.key_hash db.keys ≡ none
    → length p.key_hash ≡ 32
    → ids_ok p ≡ true
    → find_claim p.player_id p.campaign_id p.reward_id db.claims ≡ none
    → has_claim_id first.claim_id db.claims ≡ false
    → has_clash (new_event first payload) db.events ≡ false
    → is_empty first.claim_id ≡ false
    → created_body lib (new_claim p first) ≡ some body
    → lib.encode_event (new_reward_claimed_event first.event_id (new_claim p first)) ≡ some payload
    → is_empty body ≡ false
    → valid_string body && lib.json_valid body ≡ true
    → create_claim lib d p (suc n) second [] (create_claim lib d p (suc m) first [] db).1 ≡ (
      ok (some (record { status_code = 201; response_body = body; replayed = true })),
      (create_claim lib d p (suc m) first [] db).1,
    )
create_claim_twice lib d p first second m n db {body = body} {payload = payload} free_key hash ids
      unclaimed fresh_id no_clash id_nonempty enc enc_event nonempty json =
    let stored : KeyRow = completed 201 body first.claim_id (new_key p) in
    let after = db_created p first db body payload in
    rw (
      create_claim_created lib d p first m db free_key hash ids unclaimed fresh_id no_clash
          id_nonempty enc enc_event nonempty,
      create_claim_replayed lib d p second n after stored 201 body (find_key-here stored db.keys)
          refl refl
          (rw (str_eq_refl p.player_id, str_eq_refl p.campaign_id, str_eq_refl p.reward_id)) refl
          nonempty json,
    )
