-- ===== src/Rewards/Create/Kept.antt =====
-- A stored response of the reward claims stays as it is, whatever requests run.
use game_rewards_service.Base.{
  ℕ, ◌≡◌, Bool, true, false, none, some, List, [], ◌∷◌, arith, Bool-cases, inl, inr, subst,
}
use game_rewards_service.Base.Text.{Bytes, str_eq, eq_of_str_eq}
use game_rewards_service.Postgres.{Driver}
use game_rewards_service.Rewards.Claim.{CreateClaimParams, Library}
use game_rewards_service.Rewards.Tables.{Db, KeyRow, find_key, Write, apply_writes}
use game_rewards_service.Rewards.Transaction.{Turn}
use game_rewards_service.Rewards.Create.{Fresh, create_claim}
use game_rewards_service.Rewards.Create.Batch.{
  IsBatch, created, conflict, untouched, whole, was_free,
}
use game_rewards_service.Rewards.Create.Atomic.{create_claim-IsAtomic}
use game_rewards_service.Rewards.Create.Steps.{Reached, here, turn}
use game_rewards_service.Rewards.Create.Linked.{IsJson, IsLinked, complete_where-first}
use game_rewards_service.Rewards.Create.Traffic.{
  IsTraffic, AreTraffic, quiet_time, request, cleanup, next, a_turn, drop_keys, steps-IsLinked,
  turns-IsLinked,
}

find_key-other :
    (h : Bytes) (k : KeyRow) (ks : List KeyRow)
    → str_eq k.key_hash h ≡ false
    → find_key h (k ∷ ks) ≡ find_key h ks
unfolding find_key
find_key-other h k ks e = rw e

-- A row that is kept is found after a clean-up.
find_key-drop :
    (h : Bytes) (old : KeyRow → Bool) (k : KeyRow) (ks : List KeyRow)
    → ((k' : KeyRow) → str_eq k'.key_hash h ≡ true → old k' ≡ false)
    → find_key h ks ≡ some k
    → find_key h (drop_keys old ks) ≡ some k
unfolding find_key drop_keys
find_key-drop h old k [] spares e = ground arith
find_key-drop h old k (k' ∷ ks) spares e = elim (Bool-cases (str_eq k'.key_hash h)) [
  | inl same ↦ (let young = spares k' same in rw (young, same) (ground arith))
  | inr other ↦ (let rest = find_key-drop h old k ks spares in ground arith)
]

-- Is this a row of that key?
abbrev pub of_key : Bytes → KeyRow → Bool
of_key h row = str_eq row.key_hash h

module _ (lib : Library) (d : Driver) where
  -- A batch for another key leaves the row.
  batch-find_key :
      (p : CreateClaimParams) (fresh : Fresh) (base : Db) (status : ℕ) (body : Bytes)
      (ws : List Write) (h : Bytes)
      → IsLinked lib base
      → str_eq p.key_hash h ≡ false
      → IsBatch lib d p fresh status body ws
      → find_key h (apply_writes base ws).keys ≡ find_key h base.keys
  unfolding apply_writes
  batch-find_key p fresh base _ _ _ h v other (created body payload e e') =
      rw (complete_where-first lib base.claims p 201 body fresh.claim_id base.keys v.answered)
        (find_key-other h _ base.keys other)
  batch-find_key p fresh base _ _ _ h v other (conflict body e) =
      rw (complete_where-first lib base.claims p 409 body [] base.keys v.answered)
        (find_key-other h _ base.keys other)

  -- A request with a key that always has a row writes nothing.
  request-find_key :
      (p : CreateClaimParams) (fresh : Fresh) (db : Db) (turns : List Turn) (rounds : ℕ) (h : Bytes)
      (k : KeyRow)
      → ((c : Db) (ts : List Turn)
          → Reached db turns c ts
          → IsLinked lib c × (find_key h c.keys ≡ some k))
      → find_key h (create_claim lib d p rounds fresh turns db).1.keys ≡ some k
  request-find_key p fresh db turns rounds h k found =
      elim (create_claim-IsAtomic lib d p fresh db turns rounds) [
        | untouched ts r none_new ↦ (found _ ts r).1
        | whole base ts status body ws (was_free seen us reached free) r b written answer ↦
            elim (Bool-cases (str_eq p.key_hash h)) [
              | inl same ↦
                  let gone =
                    subst (λ x. find_key x seen.keys ≡ none) (eq_of_str_eq p.key_hash h same)
                      free in
                  let there = (found seen us reached).1 in absurd (ground arith)
              | inr other ↦
                  rw
                    (
                      written,
                      batch-find_key p fresh base status body ws h (found base ts r).0 other b,
                    )
                    (found base ts r).1
            ]
      ]

module _ (lib : Library) (d : Driver) (json : IsJson lib) (h : Bytes) (k : KeyRow) where
  mutual
    -- Requests, and clean-ups that spare the key, leave its row as it is.
    pub traffic-find_key :
        (f : Db → Db)
        → IsTraffic lib d (of_key h) f
        → (db : Db) → IsLinked lib db
        → find_key h db.keys ≡ some k
        → find_key h (f db).keys ≡ some k
    traffic-find_key _ quiet_time db v e = e
    traffic-find_key _ (request p fresh rounds turns named others) db v e =
        request-find_key lib d p fresh db turns rounds h k (λ c ts r. (
          turns-IsLinked lib d (of_key h) json turns others db c ts r v,
          turns-find_key turns others db c ts r v e,
        ))
    traffic-find_key _ (cleanup old spares) db v e = find_key-drop h old k db.keys spares e
    traffic-find_key _ (next f g first second) db v e =
        traffic-find_key g second (f db) (steps-IsLinked lib d (of_key h) json f first db v)
          (traffic-find_key f first db v e)

    pub turns-find_key :
        (turns : List Turn)
        → AreTraffic lib d (of_key h) turns
        → (db c : Db) (ts : List Turn) → Reached db turns c ts
        → IsLinked lib db
        → find_key h db.keys ≡ some k
        → find_key h c.keys ≡ some k
    turns-find_key turns all_traffic db _ _ here v e = e
    turns-find_key _ (a_turn t ts one rest) db c left (turn _ r) v e =
        turns-find_key ts rest (t.other db) c left r
          (steps-IsLinked lib d (of_key h) json t.other one db v)
          (traffic-find_key t.other one db v e)
