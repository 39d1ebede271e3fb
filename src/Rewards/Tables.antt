-- ===== src/Rewards/Tables.antt =====
-- The tables that internal/rewards/postgres.go writes, and what its statements do to the rows that
-- the transaction sees. Constraints are those of migrations/000001_create_schema.up.sql.
use game_rewards_service.Base.{
  ℕ, ◌+◌, Bool, true, false, not, ◌&&◌, ◌||◌, Option, none, some, List, [], ◌∷◌, leb, ◌==◌,
  if◌then◌else◌, Result, ok, err, length,
}
use game_rewards_service.Base.Text.{Bytes, bytes, str_eq, is_empty}
use game_rewards_service.Base.Text.Utf8.{rune_count}
use game_rewards_service.Errors.{Err, pg_error}
use game_rewards_service.Rewards.Claim.{
  Claim, CreateClaimParams, outbox_aggregate_type_reward_claim, outbox_event_type_reward_claimed,
}

pub record KeyRow : Type 0 where
  pub key_hash : Bytes
  pub player_id : Bytes
  pub campaign_id : Bytes
  pub reward_id : Bytes
  pub response_status : Option ℕ
  pub response_body : Option Bytes
  pub reward_claim_id : Option Bytes

pub record EventRow : Type 0 where
  pub id : Bytes
  pub aggregate_type : Bytes
  pub aggregate_id : Bytes
  pub event_type : Bytes
  pub payload : Bytes

pub record Db : Type 0 where
  pub claims : List Claim
  pub keys : List KeyRow
  pub events : List EventRow

-- What a statement of the transaction writes.
pub data Write : Type 0 where
  put_key : KeyRow → Write
  put_claim : Claim → Write
  put_event : EventRow → Write
  complete_key : CreateClaimParams → ℕ → Bytes → Bytes → Write

unfoldable pub find_key : Bytes → List KeyRow → Option KeyRow
find_key h [] = none
find_key h (k ∷ ks) = if str_eq k.key_hash h then some k else find_key h ks

abbrev pub same_reward : Bytes → Bytes → Bytes → Claim → Bool
same_reward player campaign reward c =
    str_eq c.player_id player && (str_eq c.campaign_id campaign && str_eq c.reward_id reward)

-- The claim that the unique constraint on player, campaign and reward would refuse a second time.
unfoldable pub find_claim : Bytes → Bytes → Bytes → List Claim → Option Claim
find_claim player campaign reward [] = none
find_claim player campaign reward (c ∷ cs) =
    if same_reward player campaign reward c then some c else find_claim player campaign reward cs

unfoldable pub has_claim_id : Bytes → List Claim → Bool
has_claim_id i [] = false
has_claim_id i (c ∷ cs) = str_eq c.id i || has_claim_id i cs

abbrev pub clashes : EventRow → EventRow → Bool
clashes e f =
    str_eq f.id e.id
    || (str_eq f.aggregate_type e.aggregate_type
        && (str_eq f.aggregate_id e.aggregate_id && str_eq f.event_type e.event_type))

-- The primary key of outbox_events, and its unique aggregate and type.
unfoldable pub has_clash : EventRow → List EventRow → Bool
has_clash e [] = false
has_clash e (f ∷ fs) = clashes e f || has_clash e fs

abbrev is_none {ℓ} : {A : Type ℓ} → Option A → Bool
is_none none = true
is_none (some a) = false

-- WHERE key_hash = $1 AND player_id = $5 … AND response_status IS NULL AND …
abbrev pub is_open : CreateClaimParams → KeyRow → Bool
is_open p k =
    str_eq k.key_hash p.key_hash
    && (str_eq k.player_id p.player_id
        && (str_eq k.campaign_id p.campaign_id
            && (str_eq k.reward_id p.reward_id
                && (is_none k.response_status
                    && (is_none k.response_body && is_none k.reward_claim_id)))))

-- NULLIF($4, '')
abbrev pub nullif_empty : Bytes → Option Bytes
nullif_empty [] = none
nullif_empty (b ∷ bs) = some (b ∷ bs)

abbrev pub completed : ℕ → Bytes → Bytes → KeyRow → KeyRow
completed status body claim_id k = record k {
  response_status = some status;
  response_body = some body;
  reward_claim_id = nullif_empty claim_id;
}

unfoldable pub complete_where : CreateClaimParams → ℕ → Bytes → Bytes → List KeyRow → List KeyRow
complete_where p status body claim_id [] = []
complete_where p status body claim_id (k ∷ ks) =
    (if is_open p k then completed status body claim_id k else k)
    ∷ complete_where p status body claim_id ks

unfoldable pub count_open : CreateClaimParams → List KeyRow → ℕ
count_open p [] = 0
count_open p (k ∷ ks) = (if is_open p k then 1 else 0) + count_open p ks

unfoldable pub apply_write : Db → Write → Db
apply_write db (put_key k) = record db { keys = k ∷ db.keys }
apply_write db (put_claim c) = record db { claims = c ∷ db.claims }
apply_write db (put_event e) = record db { events = e ∷ db.events }
apply_write db (complete_key p status body claim_id) = record db {
  keys = complete_where p status body claim_id db.keys;
}

unfoldable pub apply_writes : Db → List Write → Db
unfolding apply_write
apply_writes db [] = db
apply_writes db (w ∷ ws) = apply_writes (apply_write db w) ws

abbrev pub check_violation : Err
check_violation = pg_error (bytes "23514")

abbrev pub unique_violation : Err
unique_violation = pg_error (bytes "23505")

abbrev pub length_ok : Bytes → Bool
length_ok s = leb 1 (rune_count s) && leb (rune_count s) 128

abbrev pub ids_ok : CreateClaimParams → Bool
ids_ok p = length_ok p.player_id && (length_ok p.campaign_id && length_ok p.reward_id)

-- INSERT INTO reward_claim_idempotency_keys … ON CONFLICT (key_hash) DO NOTHING; was it inserted?
unfoldable pub reserve_statement : CreateClaimParams → Db → Result Err (Bool × List Write)
reserve_statement p db = elim (find_key p.key_hash db.keys) [
  | some k ↦ ok (false, [])
  | none ↦
      if length p.key_hash == 32 && ids_ok p
      then ok (
        true,
        put_key (record {
          key_hash = p.key_hash;
          player_id = p.player_id;
          campaign_id = p.campaign_id;
          reward_id = p.reward_id;
          response_status = none;
          response_body = none;
          reward_claim_id = none;
        })
            ∷ [],
      )
      else err check_violation
]

-- INSERT INTO reward_claims … ON CONFLICT (player_id, campaign_id, reward_id) DO NOTHING RETURNING.
unfoldable pub insert_claim_statement :
    Bytes → ℕ → CreateClaimParams → Db → Result Err (Option Claim × List Write)
insert_claim_statement id now p db =
    elim (find_claim p.player_id p.campaign_id p.reward_id db.claims) [
      | some c ↦ ok (none, [])
      | none ↦
          if has_claim_id id db.claims
          then err unique_violation
          else if not (ids_ok p)
          then err check_violation
          else (let c : Claim = record {
            id = id;
            player_id = p.player_id;
            campaign_id = p.campaign_id;
            reward_id = p.reward_id;
            created_at = now;
          } in
              ok (some c, put_claim c ∷ []))
    ]

-- INSERT INTO outbox_events; the other columns take their defaults.
unfoldable pub insert_event_statement :
    Bytes → Bytes → Bytes → Db → Result Err (Unit {0} × List Write)
insert_event_statement event_id claim_id payload db =
    let e : EventRow = record {
      id = event_id;
      aggregate_type = outbox_aggregate_type_reward_claim;
      aggregate_id = claim_id;
      event_type = outbox_event_type_reward_claimed;
      payload = payload;
    } in
    if has_clash e db.events then err unique_violation else ok (tt, put_event e ∷ [])

-- The response's shape: a claim exactly for 201, none for 409, and a body that is not empty.
unfoldable pub shape_ok : ℕ → Bytes → Bytes → Bool
shape_ok status body claim_id =
    not (is_empty body)
    && ((status == 201 && not (is_empty claim_id)) || (status == 409 && is_empty claim_id))

-- UPDATE reward_claim_idempotency_keys …; the number of rows affected.
unfoldable pub complete_statement :
    CreateClaimParams → ℕ → Bytes → Bytes → Db → Result Err (ℕ × List Write)
unfolding shape_ok
complete_statement p status body claim_id db =
    if count_open p db.keys == 0
    then ok (0, [])
    else if not (shape_ok status body claim_id)
    then err check_violation
    else if not (is_empty claim_id || has_claim_id claim_id db.claims)
    then err (pg_error (bytes "23503"))
    else ok (count_open p db.keys, complete_key p status body claim_id ∷ [])
