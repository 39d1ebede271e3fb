-- ===== src/Rewards/Create/Traffic.antt =====
-- Requests of internal/rewards/postgres.go that run at once, as what each of them does to the tables.
use game_rewards_service.Base.{
  ℕ, ◌≡◌, refl, Bool, true, false, ◌&&◌, none, some, List, [], ◌∷◌, arith, all, ok, err, Result,
  if◌then◌else◌, inl, inr, Option-cases, ◌||◌, ◌==◌,
}
use game_rewards_service.Base.Text.{Bytes, is_empty, str_eq}
use game_rewards_service.Base.Text.Utf8.{valid_string}
use game_rewards_service.Errors.{Err, sentinel, idempotency_key_reused}
use game_rewards_service.Postgres.{Driver}
use game_rewards_service.Rewards.Claim.{Claim, CreateClaimParams, CreateClaimResult, Library}
use game_rewards_service.Rewards.Tables.{Db, KeyRow, find_key}
use game_rewards_service.Rewards.Transaction.{Turn, stored_result}
use game_rewards_service.Rewards.Create.{Fresh, create_claim}
use game_rewards_service.Rewards.Create.Steps.{Reached, here, turn}
use game_rewards_service.Rewards.Create.Linked.{IsJson, IsLinked, is_answered, request-IsLinked}

unfoldable pub drop_keys : (KeyRow → Bool) → List KeyRow → List KeyRow
drop_keys old [] = []
drop_keys old (k ∷ ks) = let rest = drop_keys old ks in if old k then rest else k ∷ rest

module _ (lib : Library) (d : Driver) (kept : KeyRow → Bool) where
  mutual
    -- What is committed while a statement waits: whole requests, with what was committed in the turns
    -- of their own statements, and the clean-up of old keys but those kept, one after the
    -- other.
    pub data IsTraffic : (Db → Db) → Type 0 where
      quiet_time : IsTraffic (λ db. db)
      request :
          (p : CreateClaimParams) (fresh : Fresh) (rounds : ℕ) (turns : List Turn)
          → is_empty fresh.claim_id ≡ false
          → AreTraffic turns
          → IsTraffic (λ db. (create_claim lib d p rounds fresh turns db).1)
      cleanup :
          (old : KeyRow → Bool)
          → ((k : KeyRow) → kept k ≡ true → old k ≡ false)
          → IsTraffic (λ db. record db { keys = drop_keys old db.keys })
      next : (f g : Db → Db) → IsTraffic f → IsTraffic g → IsTraffic (λ db. g (f db))

    pub data AreTraffic : List Turn → Type 0 where
      no_turns : AreTraffic []
      a_turn : (t : Turn) (ts : List Turn) → IsTraffic t.other → AreTraffic ts → AreTraffic (t ∷ ts)

abbrev pub no_rows_yet : Db
no_rows_yet = record { claims = []; keys = []; events = [] }

answered-drop :
    (lib : Library) (cs : List Claim) (old : KeyRow → Bool) (ks : List KeyRow)
    → all (is_answered lib cs) ks ≡ true
    → all (is_answered lib cs) (drop_keys old ks) ≡ true
unfolding drop_keys
answered-drop lib cs old [] h = refl
answered-drop lib cs old (k ∷ ks) h = ground (arith, answered-drop lib cs old ks)

module _ (lib : Library) (d : Driver) (kept : KeyRow → Bool) (json : IsJson lib) where
  mutual
    pub steps-IsLinked :
        (f : Db → Db) → IsTraffic lib d kept f → (db : Db) → IsLinked lib db → IsLinked lib (f db)
    steps-IsLinked _ quiet_time db v = v
    steps-IsLinked _ (request p fresh rounds turns named others) db v =
        request-IsLinked lib d json p fresh db turns rounds named
          (λ c ts r. turns-IsLinked turns others db c ts r v)
    steps-IsLinked _ (cleanup old spares) db v = record {
      told = v.told;
      sourced = v.sourced;
      answered = answered-drop lib db.claims old db.keys v.answered;
    }
    steps-IsLinked _ (next f g first second) db v =
        steps-IsLinked g second (f db) (steps-IsLinked f first db v)

    pub turns-IsLinked :
        (turns : List Turn)
        → AreTraffic lib d kept turns
        → (db c : Db) (ts : List Turn) → Reached db turns c ts
        → IsLinked lib db
        → IsLinked lib c
    turns-IsLinked turns all_traffic db _ _ here v = v
    turns-IsLinked _ (a_turn t ts one rest) db c left (turn _ r) v =
        turns-IsLinked ts rest (t.other db) c left r (steps-IsLinked t.other one db v)

  -- Whatever requests and clean-ups run on the empty tables, in any order and at once, every claim
  -- has its event in the outbox, every event is that of a claim, and every key holds a JSON
  -- response, which for a 201 is about a claim that is there. No request commits a key without its
  -- response. The encoder gives JSON, and a new claim's identifier is not empty.
  pub traffic-IsLinked : (f : Db → Db) → IsTraffic lib d kept f → IsLinked lib (f no_rows_yet)
  traffic-IsLinked f t =
      steps-IsLinked f t no_rows_yet (record { told = refl; sourced = refl; answered = refl })

pub answered-find_key :
    (lib : Library) (cs : List Claim) (h : Bytes) (k : KeyRow) (ks : List KeyRow)
    → all (is_answered lib cs) ks ≡ true
    → find_key h ks ≡ some k
    → is_answered lib cs k ≡ true
unfolding find_key
answered-find_key lib cs h k [] v e = ground arith
answered-find_key lib cs h k (k' ∷ ks) v e = ground (arith, answered-find_key lib cs h k ks)

module _ (lib : Library) (d : Driver) (p : CreateClaimParams) where
  -- The stored result, read as its row has it.
  abbrev pub settled : KeyRow → Result Err CreateClaimResult
  settled k = stored_result lib d p k k.response_status k.response_body

  pub no_body :
      (cs : List Claim) (k : KeyRow) → k.response_body ≡ none → is_answered lib cs k ≡ false
  unfolding is_answered
  no_body cs k b = rw b

  pub no_status :
      (cs : List Claim) (k : KeyRow) → k.response_status ≡ none → is_answered lib cs k ≡ false
  unfolding is_answered
  no_status cs k s = elim (Option-cases k.response_body) [
    | inl b ↦ rw b
    | inr (body, b) ↦ ground arith
  ]

  answered-parts :
      (cs : List Claim) (k : KeyRow) (status : ℕ) (body : Bytes)
      → k.response_status ≡ some status
      → k.response_body ≡ some body
      → is_answered lib cs k ≡ true
      → (is_empty body ≡ false)
        × (valid_string body && lib.json_valid body ≡ true)
        × (status == 201 || status == 409 ≡ true)
  unfolding is_answered
  answered-parts cs k status body s b v = elim (Option-cases k.reward_claim_id) [
    | inl none_linked ↦ ground arith
    | inr (id, linked) ↦ ground arith
  ]

  pub settled_same :
      (cs : List Claim) (k : KeyRow) (status : ℕ) (body : Bytes)
      → k.response_status ≡ some status
      → k.response_body ≡ some body
      → is_answered lib cs k ≡ true
      → str_eq k.player_id p.player_id
          && (str_eq k.campaign_id p.campaign_id && str_eq k.reward_id p.reward_id)
        ≡ true
      → settled k ≡ ok (record { status_code = status; response_body = body; replayed = true })
  unfolding stored_result
  settled_same cs k status body s b v same =
      let (full, valid, known) = answered-parts cs k status body s b v in
      rw (s, b, full, same, known, valid)

  pub settled_other :
      (cs : List Claim) (k : KeyRow) (status : ℕ) (body : Bytes)
      → k.response_status ≡ some status
      → k.response_body ≡ some body
      → is_answered lib cs k ≡ true
      → str_eq k.player_id p.player_id
          && (str_eq k.campaign_id p.campaign_id && str_eq k.reward_id p.reward_id)
        ≡ false
      → settled k ≡ err (sentinel idempotency_key_reused)
  unfolding stored_result
  settled_other cs k status body s b v other =
      let (full, _, _) = answered-parts cs k status body s b v in rw (s, b, full, other)
