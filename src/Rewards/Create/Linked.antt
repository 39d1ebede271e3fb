-- ===== src/Rewards/Create/Linked.antt =====
-- How the three tables of the reward claims hang together, whatever requests are served at once.
use game_rewards_service.Base.{
  ℕ, ◌≡◌, refl, Bool, true, false, not, ◌&&◌, ◌||◌, none, some, List, [], ◌∷◌, arith, ◌==◌, all,
}
use game_rewards_service.Base.Text.{Bytes, is_empty, str_eq, str_eq_refl}
use game_rewards_service.Base.Text.Utf8.{valid_string}
use game_rewards_service.Postgres.{Driver}
use game_rewards_service.Rewards.Claim.{
  Claim, CreateClaimParams, CreateClaimResponse, ErrorBody, Library,
  outbox_aggregate_type_reward_claim, outbox_event_type_reward_claimed,
}
use game_rewards_service.Rewards.Tables.{
  Db, KeyRow, EventRow, Write, apply_writes, has_claim_id, complete_where, completed, nullif_empty,
}
use game_rewards_service.Rewards.Transaction.{Turn}
use game_rewards_service.Rewards.Create.{Fresh, create_claim}
use game_rewards_service.Rewards.Create.Rows.{new_key, new_claim, new_event, is_open-new_key}
use game_rewards_service.Rewards.Create.Steps.{Reached}
use game_rewards_service.Rewards.Create.Batch.{IsBatch, created, conflict, untouched, whole}
use game_rewards_service.Rewards.Create.Atomic.{create_claim-IsAtomic}

-- What encoding/json gives is not empty and is JSON.
pub record IsJson (lib : Library) : Type 0 where
  pub claim :
      (c : CreateClaimResponse) (body : Bytes)
      → lib.encode_claim c ≡ some body
      → not (is_empty body) && (valid_string body && lib.json_valid body) ≡ true
  pub error :
      (e : ErrorBody) (body : Bytes)
      → lib.encode_error e ≡ some body
      → not (is_empty body) && (valid_string body && lib.json_valid body) ≡ true

-- Is this the event that a claim was made?
abbrev pub tells_of : Bytes → EventRow → Bool
tells_of id e =
    str_eq e.aggregate_type outbox_aggregate_type_reward_claim
    && (str_eq e.event_type outbox_event_type_reward_claimed && str_eq e.aggregate_id id)

unfoldable pub is_told : Bytes → List EventRow → Bool
is_told id [] = false
is_told id (e ∷ es) = tells_of id e || is_told id es

-- A key holds a response, a 201 that of a claim that is there.
unfoldable pub is_answered : Library → List Claim → KeyRow → Bool
is_answered lib claims k = elim k.response_body [
  | none ↦ false
  | some body ↦
      (not (is_empty body) && (valid_string body && lib.json_valid body))
      && (elim k.response_status [
        | none ↦ false
        | some status ↦ elim k.reward_claim_id [
          | none ↦ status == 409
          | some id ↦ status == 201 && has_claim_id id claims
        ]
      ])
]

-- Every claim has its event, every event its claim, and every key its response.
pub record IsLinked (lib : Library) (db : Db) : Type 0 where
  pub told : all (λ c. is_told c.id db.events) db.claims ≡ true
  pub sourced : all (λ e. has_claim_id e.aggregate_id db.claims) db.events ≡ true
  pub answered : all (is_answered lib db.claims) db.keys ≡ true

told-more :
    (e : EventRow) (es : List EventRow) (cs : List Claim)
    → all (λ c. is_told c.id es) cs ≡ true
    → all (λ c. is_told c.id (e ∷ es)) cs ≡ true
unfolding is_told
told-more e es [] h = refl
told-more e es (c ∷ cs) h = ground (arith, told-more e es cs)

sourced-more :
    (c : Claim) (cs : List Claim) (es : List EventRow)
    → all (λ e. has_claim_id e.aggregate_id cs) es ≡ true
    → all (λ e. has_claim_id e.aggregate_id (c ∷ cs)) es ≡ true
unfolding has_claim_id
sourced-more c cs [] h = refl
sourced-more c cs (e ∷ es) h = ground (arith, sourced-more c cs es)

answered-more :
    (lib : Library) (c : Claim) (cs : List Claim) (ks : List KeyRow)
    → all (is_answered lib cs) ks ≡ true
    → all (is_answered lib (c ∷ cs)) ks ≡ true
unfolding has_claim_id is_answered
answered-more lib c cs [] h = refl
answered-more lib c cs (k ∷ ks) h = ground (arith, answered-more lib c cs ks)

-- A key with a response is not open.
complete_where-answered :
    (lib : Library) (cs : List Claim) (p : CreateClaimParams) (status : ℕ) (body id : Bytes)
    (ks : List KeyRow)
    → all (is_answered lib cs) ks ≡ true
    → complete_where p status body id ks ≡ ks
unfolding complete_where is_answered
complete_where-answered lib cs p status body id [] h = refl
complete_where-answered lib cs p status body id (k ∷ ks) h =
    ground (arith, complete_where-answered lib cs p status body id ks)

-- The open key takes its response, the answered ones stay.
pub complete_where-first :
    (lib : Library) (cs : List Claim) (p : CreateClaimParams) (status : ℕ) (body id : Bytes)
    (ks : List KeyRow)
    → all (is_answered lib cs) ks ≡ true
    → complete_where p status body id (new_key p ∷ ks) ≡ completed status body id (new_key p) ∷ ks
unfolding complete_where
complete_where-first lib cs p status body id ks h =
    rw (is_open-new_key p, complete_where-answered lib cs p status body id ks h)

nullif_empty-some : (id : Bytes) → is_empty id ≡ false → nullif_empty id ≡ some id
nullif_empty-some [] h = ground arith
nullif_empty-some (b ∷ bs) h = refl

module _ (lib : Library) (d : Driver) (json : IsJson lib) where
  batch-IsLinked :
      (p : CreateClaimParams) (fresh : Fresh) (base : Db) (status : ℕ) (body : Bytes)
      (ws : List Write)
      → is_empty fresh.claim_id ≡ false
      → IsLinked lib base
      → IsBatch lib d p fresh status body ws
      → IsLinked lib (apply_writes base ws)
  unfolding apply_writes is_told is_answered has_claim_id str_eq
  batch-IsLinked p fresh base _ _ _ named v (created body payload e k) =
      let claim = new_claim p fresh in
      let event = new_event fresh payload in
      let more = sourced-more claim base.claims base.events v.sourced in
      let rest = told-more event base.events base.claims v.told in
      let keys = answered-more lib claim base.claims base.keys v.answered in
      let row =
        complete_where-first lib base.claims p 201 body fresh.claim_id base.keys v.answered in
      let valid = json.claim _ body e in
      record {
        told = rw (str_eq_refl fresh.claim_id, rest);
        sourced = rw (str_eq_refl fresh.claim_id, more);
        answered =
            rw (
              row,
              nullif_empty-some fresh.claim_id named,
              valid,
              str_eq_refl fresh.claim_id,
              keys,
            );
      }
  batch-IsLinked p fresh base _ _ _ named v (conflict body e) =
      let valid = json.error _ body e in
      let row = complete_where-first lib base.claims p 409 body [] base.keys v.answered in
      record { told = v.told; sourced = v.sourced; answered = rw (row, valid, v.answered) }

  -- A request keeps the tables linked, if all that it may find are.
  pub request-IsLinked :
      (p : CreateClaimParams) (fresh : Fresh) (db : Db) (turns : List Turn) (rounds : ℕ)
      → is_empty fresh.claim_id ≡ false
      → ((c : Db) (ts : List Turn) → Reached db turns c ts → IsLinked lib c)
      → IsLinked lib (create_claim lib d p rounds fresh turns db).1
  request-IsLinked p fresh db turns rounds named found =
      elim (create_claim-IsAtomic lib d p fresh db turns rounds) [
        | untouched ts r none_new ↦ found _ ts r
        | whole base ts status body ws free r b written answer ↦
            rw written (batch-IsLinked p fresh base status body ws named (found base ts r) b)
      ]
