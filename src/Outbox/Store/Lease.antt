-- ===== src/Outbox/Store/Lease.antt =====
-- ClaimNext on a healthy database, and what the lease that it writes excludes.
use game_rewards_service.Base.{
  ℕ, ◌+◌, ◌≤◌, ◌<◌, ◌≡◌, refl, ap, Bool, true, false, not, ◌&&◌, Option, none, some, List, [], ◌∷◌,
  ◌⊎◌, inl, inr, arith, All, Bool-cases, &&-eq-true, Result, ok, err,
}
use game_rewards_service.Base.Int.{ℤ, pos, leb_ℤ}
use game_rewards_service.Base.Text.{Bytes, str_eq, str_eq_refl, eq_of_str_eq, is_empty}
use game_rewards_service.Errors.{Err, wrap, sentinel, lease_lost}
use game_rewards_service.Postgres.{Driver}
use game_rewards_service.Outbox.Row.{
  Row, satisfies, length_between, first_where, update_where, exec_update,
}
use game_rewards_service.Outbox.Store.{
  Event, Call, answered, is_due, is_held, claimed_row, event_of, claim_statement, claim_next,
}
use game_rewards_service.Outbox.Store.Table.{
  find_row, find_row-update_where, find_row-update_other, OnlyAt,
}
use game_rewards_service.Outbox.Store.Claim.{In, find_row-In, IsFirst, Selects, first_where-Selects}
use game_rewards_service.Outbox.Store.Transition.{
  IsValid, Transition, IsPermitted, perform, move_label, perform-lost, exec_update-hit,
  find_row-satisfies,
}

abbrev pub is_claimable : Call → Row → Bool
is_claimable c r = is_due c.now r && not (c.skip_locked r.id)

-- What a claim of `r` makes of the table: the lease on its row, and nothing else.
pub record Claimed (d : Driver) (w : Bytes) (ttl : ℤ) (c : Call) (t t' : List Row) (r : Row)
    : Type 0 where
  pub first : IsFirst (is_claimable c) t r
  pub leased : find_row r.id t' ≡ some (claimed_row d w ttl c.now r)
  pub others : (i : Bytes) → str_eq r.id i ≡ false → find_row i t' ≡ find_row i t

-- The two ways that a claim on a healthy database ends.
abbrev pub Outcome :
    Driver → Bytes → ℤ → Call → List Row → Result Err (Option Event) × List Row → Type 0
Outcome d w ttl c t o =
    (All (λ r. is_claimable c r ≡ false) t × (o ≡ (ok none, t)))
    ⊎ ((r : Row) × (t' : List Row) × (o ≡ (ok (some (event_of r)), t')) × Claimed d w ttl c t t' r)

claimed-satisfies :
    (d : Driver) (w : Bytes) (ttl : ℤ) (now : ℕ) (r : Row)
    → satisfies r ≡ true
    → is_due now r ≡ true
    → r.created_at ≤ now
    → length_between 1 128 w ≡ true
    → satisfies (claimed_row d w ttl now r) ≡ true
unfolding satisfies is_due
claimed-satisfies d w ttl now r v due k l = ground arith

same_id-OnlyAt : (i : Bytes) → OnlyAt i (λ o. str_eq o.id i)
same_id-OnlyAt i r h = h

CreatedBy : ℕ → List Row → Type 0
CreatedBy now = All (λ r. r.created_at ≤ now)

In-created : (now : ℕ) (r : Row) (t : List Row) → CreatedBy now t → In r t → r.created_at ≤ now
unfolding CreatedBy
In-created now r [] a m = absurd m
In-created now r (s ∷ rs) a (inl e) = rw e a.0
In-created now r (s ∷ rs) a (inr m) = In-created now r rs a.1 m

module _ (d : Driver) (w : Bytes) (ttl : ℤ) (c : Call) {t : List Row} (valid : IsValid t)
    (named : is_empty w ≡ false) (bounded : length_between 1 128 w ≡ true)
    (positive : leb_ℤ ttl (pos 0) ≡ false) (healthy : c.reply ≡ answered)
    (clock : All (λ r. r.created_at ≤ c.now) t) where
  claim_first :
      (r : Row)
      → IsFirst (is_claimable c) t r
      → exec_update (λ o. str_eq o.id r.id) (claimed_row d w ttl c.now) t
        ≡ ok (1, update_where (λ o. str_eq o.id r.id) (claimed_row d w ttl c.now) t)
  unfolding CreatedBy
  claim_first r first =
      let found = find_row-In r t valid.distinct first.member in
      exec_update-hit r.id (λ o. str_eq o.id r.id) (claimed_row d w ttl c.now) (same_id-OnlyAt r.id)
        t valid.distinct r found (str_eq_refl r.id)
        (claimed-satisfies d w ttl c.now r (find_row-satisfies r.id t r valid.rows found)
          (&&-eq-true _ _ first.meets).0 (In-created c.now r t clock first.member) bounded)

  Claimed-first :
      (r : Row)
      → IsFirst (is_claimable c) t r
      → Claimed d w ttl c t (update_where (λ o. str_eq o.id r.id) (claimed_row d w ttl c.now) t) r
  Claimed-first r first = record {
    first = first;
    leased = rw (
      find_row-update_where (λ o. str_eq o.id r.id) (claimed_row d w ttl c.now) (λ s. refl) r.id t,
      find_row-In r t valid.distinct first.member,
      str_eq_refl r.id,
    );
    others = λ i.
        find_row-update_other r.id (λ o. str_eq o.id r.id) (claimed_row d w ttl c.now)
          (same_id-OnlyAt r.id) (λ s. refl) i t;
  }

  claim_statement-none :
      first_where (is_claimable c) t ≡ none → claim_statement d w ttl c t ≡ ok (none, t)
  unfolding claim_statement
  claim_statement-none e = rw (e, claim_statement)

  claim_statement-some :
      (r : Row)
      → first_where (is_claimable c) t ≡ some r
      → IsFirst (is_claimable c) t r
      → claim_statement d w ttl c t
        ≡ ok (some (event_of r), update_where (λ o. str_eq o.id r.id) (claimed_row d w ttl c.now) t)
  unfolding claim_statement
  claim_statement-some r e first = rw (e, claim_statement) (rw (claim_first r first))

  -- A claim takes a first row of those that are due and not locked by another transaction, hands
  -- its event out and writes the lease; it reports no event only when no row is claimable.
  pub claim_next-outcome : Outcome d w ttl c t (claim_next d w ttl c t)
  unfolding claim_next
  claim_next-outcome =
      go (first_where (is_claimable c) t) refl (first_where-Selects (is_claimable c) t)
    where
      go :
          (o : Option Row)
          → first_where (is_claimable c) t ≡ o
          → Selects (is_claimable c) t o
          → Outcome d w ttl c t (claim_next d w ttl c t)
      go none e s = inl (s, rw (named, positive, healthy, claim_statement-none e))
      go (some r) e s =
          inr (r, _, rw (named, positive, healthy, claim_statement-some r e s), Claimed-first r s)

pub lease_live :
    (d : Driver) (w : Bytes) (ttl : ℤ) (start : ℕ) (r : Row) (now : ℕ)
    → now < start + d.interval ttl
    → is_due now (claimed_row d w ttl start r) ≡ false
unfolding is_due
lease_live d w ttl start r now h = ground arith

-- A table in which the lease on `r` that was written at `start` stands.
module _ (d : Driver) (w : Bytes) (ttl : ℤ) (start : ℕ) (t' : List Row) (r : Row)
    (leased : find_row r.id t' ≡ some (claimed_row d w ttl start r)) where
  not_claimable :
      (c' : Call) (s : Row)
      → find_row s.id t' ≡ some s
      → str_eq r.id s.id ≡ true
      → c'.now < start + d.interval ttl
      → is_claimable c' s ≡ true
      → ⊥
  not_claimable c' s found same early claimable =
      let here : find_row r.id t' ≡ some s = rw (eq_of_str_eq r.id s.id same) found in
      let row : s ≡ claimed_row d w ttl start r = ground (arith, here, leased) in
      let due : is_due c'.now s ≡ true = (&&-eq-true _ _ claimable).0 in
      cc (ap (is_due c'.now) row, lease_live d w ttl start r c'.now early, due)

  -- Until the lease runs out no claim on this table hands the event out.
  pub standing_lease :
      (b : Bytes) (ttl' : ℤ) (c' : Call) (e : Event)
      → IsValid t'
      → is_empty b ≡ false
      → length_between 1 128 b ≡ true
      → leb_ℤ ttl' (pos 0) ≡ false
      → c'.reply ≡ answered
      → All (λ s. s.created_at ≤ c'.now) t'
      → c'.now < start + d.interval ttl
      → (claim_next d b ttl' c' t').0 ≡ ok (some e)
      → str_eq r.id e.id ≡ false
  standing_lease b ttl' c' e valid named bounded positive healthy clock early claims =
      elim (claim_next-outcome d b ttl' c' valid named bounded positive healthy clock) [
        | inl (_, q) ↦ cc (claims, q)
        | inr (s, _, q, next) ↦ elim (Bool-cases (str_eq r.id e.id)) [
          | inr fine ↦ fine
          | inl clash ↦ absurd (
              not_claimable c' s (find_row-In s t' valid.distinct next.first.member)
                (ground (arith, clash, q, claims)) early next.first.meets)
        ]
      ]

-- The state after a claim that handed out `r`.
module _ (d : Driver) (w : Bytes) (ttl : ℤ) (c : Call) {t t' : List Row} (r : Row)
    (lease : Claimed d w ttl c t t' r) where
  -- Another worker's transition of the event fails with ErrLeaseLost and changes nothing.
  pub lease_fences :
      (b : Bytes) (m : Transition) (c' : Call)
      → IsValid t'
      → str_eq w b ≡ false
      → is_empty b ≡ false
      → is_empty r.id ≡ false
      → c'.reply ≡ answered
      → IsPermitted m r
      → perform d b r.id m c' t' ≡ (err (wrap (move_label m) (sentinel lease_lost)), t')
  unfolding is_held
  lease_fences b m c' valid other named given healthy permitted =
      perform-lost d b r.id m c' valid named given healthy r permitted
        (rw lease.leased (ground (arith, other)))
