-- ===== src/Rewards/Create/Rows.antt =====
-- The rows and statements of one createClaim, while nothing else touches the tables.
use game_rewards_service.Base.{
  ℕ, ◌≡◌, refl, true, false, ◌||◌, none, some, List, [], ◌∷◌, arith, ok, length,
}
use game_rewards_service.Base.Text.{Bytes, str_eq_refl, is_empty}
use game_rewards_service.Rewards.Claim.{
  Claim, CreateClaimParams, outbox_aggregate_type_reward_claim, outbox_event_type_reward_claimed,
}
use game_rewards_service.Rewards.Tables.{
  Db, KeyRow, EventRow, put_key, find_key, reserve_statement, insert_claim_statement,
  insert_event_statement, complete_statement, complete_where, count_open, completed, is_open,
  ids_ok, find_claim, has_claim_id, has_clash, put_claim, put_event, complete_key, shape_ok,
}
use game_rewards_service.Rewards.Create.{Fresh}

-- No row of this key is left out by the search.
complete-find_key :
    (p : CreateClaimParams) (status : ℕ) (body id : Bytes) (ks : List KeyRow)
    → find_key p.key_hash ks ≡ none
    → complete_where p status body id ks ≡ ks
unfolding complete_where find_key
complete-find_key p status body id [] h = refl
complete-find_key p status body id (k ∷ ks) h =
    let step = complete-find_key p status body id ks in ground arith

count-find_key :
    (p : CreateClaimParams) (ks : List KeyRow) → find_key p.key_hash ks ≡ none → count_open p ks ≡ 0
unfolding count_open find_key
count-find_key p [] h = refl
count-find_key p (k ∷ ks) h = let step = count-find_key p ks in ground arith

abbrev pub new_key : CreateClaimParams → KeyRow
new_key p = record {
  key_hash = p.key_hash;
  player_id = p.player_id;
  campaign_id = p.campaign_id;
  reward_id = p.reward_id;
  response_status = none;
  response_body = none;
  reward_claim_id = none;
}

abbrev pub new_claim : CreateClaimParams → Fresh → Claim
new_claim p fresh = record {
  id = fresh.claim_id;
  player_id = p.player_id;
  campaign_id = p.campaign_id;
  reward_id = p.reward_id;
  created_at = fresh.now;
}

abbrev pub new_event : Fresh → Bytes → EventRow
new_event fresh payload = record {
  id = fresh.event_id;
  aggregate_type = outbox_aggregate_type_reward_claim;
  aggregate_id = fresh.claim_id;
  event_type = outbox_event_type_reward_claimed;
  payload = payload;
}

-- The tables once a claim, its event and its completed key are added.
abbrev pub db_created : CreateClaimParams → Fresh → Db → Bytes → Bytes → Db
db_created p fresh db body payload = record {
  claims = new_claim p fresh ∷ db.claims;
  keys = completed 201 body fresh.claim_id (new_key p) ∷ db.keys;
  events = new_event fresh payload ∷ db.events;
}

pub is_open-new_key : (p : CreateClaimParams) → is_open p (new_key p) ≡ true
is_open-new_key p = rw (
  str_eq_refl p.key_hash,
  str_eq_refl p.player_id,
  str_eq_refl p.campaign_id,
  str_eq_refl p.reward_id,
)

pub count-new_key :
    (p : CreateClaimParams) (ks : List KeyRow)
    → find_key p.key_hash ks ≡ none
    → count_open p (new_key p ∷ ks) ≡ 1
unfolding count_open
count-new_key p ks h = rw (is_open-new_key p, count-find_key p ks h)

pub complete-new_key :
    (p : CreateClaimParams) (status : ℕ) (body id : Bytes) (ks : List KeyRow)
    → find_key p.key_hash ks ≡ none
    → complete_where p status body id (new_key p ∷ ks) ≡ completed status body id (new_key p) ∷ ks
unfolding complete_where
complete-new_key p status body id ks h =
    rw (is_open-new_key p, complete-find_key p status body id ks h)

module _ (p : CreateClaimParams) (fresh : Fresh) (db : Db) where
  pub reserve_new :
      find_key p.key_hash db.keys ≡ none
      → length p.key_hash ≡ 32
      → ids_ok p ≡ true
      → reserve_statement p db ≡ ok (true, put_key (new_key p) ∷ [])
  unfolding reserve_statement
  reserve_new h1 h2 h3 = ground arith

  pub insert_new :
      find_claim p.player_id p.campaign_id p.reward_id db.claims ≡ none
      → has_claim_id fresh.claim_id db.claims ≡ false
      → ids_ok p ≡ true
      → insert_claim_statement fresh.claim_id fresh.now p db
        ≡ ok (some (new_claim p fresh), put_claim (new_claim p fresh) ∷ [])
  unfolding insert_claim_statement
  insert_new h1 h2 h3 = ground arith

  pub insert_taken :
      {c : Claim}
      → find_claim p.player_id p.campaign_id p.reward_id db.claims ≡ some c
      → insert_claim_statement fresh.claim_id fresh.now p db ≡ ok (none, [])
  unfolding insert_claim_statement
  insert_taken h = ground arith

  pub insert_event_new :
      (payload : Bytes)
      → has_clash (new_event fresh payload) db.events ≡ false
      → insert_event_statement fresh.event_id fresh.claim_id payload db
        ≡ ok (tt, put_event (new_event fresh payload) ∷ [])
  unfolding insert_event_statement
  insert_event_new payload h = ground arith

  pub complete_one :
      (status : ℕ) (body id : Bytes)
      → count_open p db.keys ≡ 1
      → shape_ok status body id ≡ true
      → is_empty id || has_claim_id id db.claims ≡ true
      → complete_statement p status body id db ≡ ok (1, complete_key p status body id ∷ [])
  unfolding complete_statement
  complete_one status body id h1 h2 h3 = ground arith

pub find_key-here : (k : KeyRow) (ks : List KeyRow) → find_key k.key_hash (k ∷ ks) ≡ some k
unfolding find_key
find_key-here k ks = rw (str_eq_refl k.key_hash)

pub reserve_seen :
    {k : KeyRow} (p : CreateClaimParams) (db : Db)
    → find_key p.key_hash db.keys ≡ some k
    → reserve_statement p db ≡ ok (false, [])
unfolding reserve_statement
reserve_seen p db h = ground arith
