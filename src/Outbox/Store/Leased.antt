-- ===== src/Outbox/Store/Leased.antt =====
-- A lease while other workers go on: the statements of store.go after ClaimNext, until the lease runs
-- out.
use game_rewards_service.Base.{
  ℕ, ◌+◌, ◌≤◌, ◌<◌, ◌≡◌, refl, sym, ap, Bool, true, false, Option, none, some, List, ◌⊎◌, inl, inr,
  arith, All, Bool-cases, if◌then◌else◌, ok,
}
use game_rewards_service.Base.Int.{ℤ, pos, leb_ℤ}
use game_rewards_service.Base.Text.{Bytes, str_eq, eq_of_str_eq, is_empty}
use game_rewards_service.Postgres.{Driver}
use game_rewards_service.Outbox.Row.{
  Row, length_between, first_where, update_where, checks_where, exec_update,
}
use game_rewards_service.Outbox.Store.{
  Event, Call, Reply, answered, lost, deliver, is_held, claimed_row, claim_statement, claim_next,
  transition, mark_published, schedule_retry, mark_dead_letter,
}
use game_rewards_service.Outbox.Store.Table.{find_row, find_row-id, find_row-update_where}
use game_rewards_service.Outbox.Store.Claim.{find_row-In, Selects, first_where-Selects}
use game_rewards_service.Outbox.Store.Lease.{is_claimable, Claimed, lease_live, standing_lease}
use game_rewards_service.Outbox.Store.Change.{deliver-returning, deliver-none}
use game_rewards_service.Outbox.Store.Transition.{
  IsValid, Transition, publish, retry, bury, moved, perform,
}
use game_rewards_service.Outbox.Store.History.{
  Cluster, Step, claims, performs, enqueues, elapses, Step-IsValid, fresh_differs,
}

-- A row that a statement does not meet stays as it is.
module _ (i : Bytes) (r : Row) (t : List Row) (found : find_row i t ≡ some r) where
  abbrev Stays : List Row → Type 0
  Stays t' = find_row i t' ≡ some r

  update_where-Stays :
      (p : Row → Bool) (f : Row → Row)
      → ((o : Row) → (f o).id ≡ o.id)
      → p r ≡ false
      → Stays (update_where p f t)
  update_where-Stays p f keeps miss = rw (find_row-update_where p f keeps i t, found) (rw miss)

  deliver-Stays :
      (reply : Reply) (p : Row → Bool) (f : Row → Row)
      → ((o : Row) → (f o).id ≡ o.id)
      → p r ≡ false
      → Stays (deliver reply (exec_update p f t) t).1
  unfolding deliver exec_update
  deliver-Stays answered p f keeps miss = elim (Bool-cases (checks_where p f t)) [
    | inl good ↦ rw good (update_where-Stays p f keeps miss)
    | inr bad ↦ rw bad found
  ]
  deliver-Stays (lost e false) p f keeps miss = found
  deliver-Stays (lost e true) p f keeps miss = elim (Bool-cases (checks_where p f t)) [
    | inl good ↦ rw good (update_where-Stays p f keeps miss)
    | inr bad ↦ rw bad found
  ]

  Stays-if :
      {A : Type 0} (b : Bool) (a : A) (o : A × List Row)
      → Stays o.1
      → Stays (if b then (a, t) else o).1
  Stays-if true a o h = found
  Stays-if false a o h = h

  -- A transition of another event, or by another worker than the holder.
  perform-Stays :
      (d : Driver) (w e : Bytes) (m : Transition) (c : Call)
      → is_held e w r ≡ false
      → Stays (perform d w e m c t).1
  unfolding perform mark_published schedule_retry mark_dead_letter transition
  perform-Stays d w e publish c miss = Stays-if (is_empty w) _ _ (
      Stays-if (is_empty e) _ _
        (deliver-Stays c.reply (is_held e w) (moved d publish c.now) (λ o. refl) miss))
  perform-Stays d w e (retry delay outcome) c miss = Stays-if (is_empty w) _ _ (
      Stays-if (is_empty e) _ _ (
        Stays-if (leb_ℤ delay (pos 0)) _ _ (
          deliver-Stays c.reply (is_held e w) (moved d (retry delay outcome) c.now) (λ o. refl)
            miss)))
  perform-Stays d w e (bury outcome) c miss = Stays-if (is_empty w) _ _ (
      Stays-if (is_empty e) _ _
        (deliver-Stays c.reply (is_held e w) (moved d (bury outcome) c.now) (λ o. refl) miss))

  claim_statement-Stays :
      (d : Driver) (w : Bytes) (ttl : ℤ) (c : Call) (o : Option Row)
      → IsValid t
      → is_claimable c r ≡ false
      → first_where (is_claimable c) t ≡ o
      → Selects (is_claimable c) t o
      → Stays (deliver c.reply (claim_statement d w ttl c t) t).1
  unfolding claim_statement
  claim_statement-Stays d w ttl c none valid free e s =
      rw (e, claim_statement) (rw (deliver-none c.reply t) found)
  claim_statement-Stays d w ttl c (some q) valid free e s =
      rw (e, claim_statement)
        (rw deliver-returning (
          deliver-Stays c.reply (λ o. str_eq o.id q.id) (claimed_row d w ttl c.now) (λ o. refl)
            (elim (Bool-cases (str_eq r.id q.id)) [
              | inr apart ↦ apart
              | inl clash ↦
                  let first = find_row-In q t valid.distinct s.member in
                  let here = eq_of_str_eq r.id i (find_row-id i t r found) in
                  let both = eq_of_str_eq r.id q.id clash in
                  let meets = s.meets in
                  let row : q ≡ r =
                    (let there : find_row i t ≡ some q = rw (sym here, both) first in
                      ground (arith, there, found)) in
                  cc (ap (is_claimable c) row, meets, free)
            ])))

  claim_next-Stays :
      (d : Driver) (w : Bytes) (ttl : ℤ) (c : Call)
      → IsValid t
      → is_claimable c r ≡ false
      → Stays (claim_next d w ttl c t).1
  unfolding claim_next
  claim_next-Stays d w ttl c valid free = Stays-if (is_empty w) _ _ (
      Stays-if (leb_ℤ ttl (pos 0)) _ _ (
        claim_statement-Stays d w ttl c (first_where (is_claimable c) t) valid free refl
          (first_where-Selects (is_claimable c) t)))

-- A step that is no transition of the event by the holder, and no claim after the lease has run out.
abbrev pub Spares : {d : Driver} {s s' : Cluster} → Bytes → Bytes → ℕ → Step d s s' → Type 0
Spares w i until (claims b ttl c e) = c.now < until
Spares w i until (performs b j m c e) = (str_eq w b ≡ false) ⊎ (str_eq i j ≡ false)
Spares w i until (enqueues q p good fresh e) = Unit
Spares w i until (elapses n e) = Unit

-- Any number of such steps.
pub data Meanwhile (d : Driver) (w i : Bytes) (until : ℕ) (s : Cluster) : Cluster → Type 0 where
  nothing_yet : Meanwhile d w i until s s
  after :
      {t u : Cluster}
      → Meanwhile d w i until s t
      → (st : Step d t u) → Spares w i until st
      → Meanwhile d w i until s u

module _ (d : Driver) (w : Bytes) (ttl : ℤ) (start : ℕ) (r : Row) where
  abbrev lease_row : Row
  lease_row = claimed_row d w ttl start r

  spared :
      (b j : Bytes) → (str_eq w b ≡ false) ⊎ (str_eq r.id j ≡ false) → is_held j b lease_row ≡ false
  unfolding is_held
  spared b j (inl other) = ground (arith, other)
  spared b j (inr other) = ground (arith, other)

  not_due : (c : Call) → c.now < start + d.interval ttl → is_claimable c lease_row ≡ false
  not_due c early = let live = lease_live d w ttl start r c.now early in ground arith

  Step-Stays :
      {s s' : Cluster} (st : Step d s s')
      → IsValid s.table
      → Spares w r.id (start + d.interval ttl) st
      → find_row r.id s.table ≡ some lease_row
      → find_row r.id s'.table ≡ some lease_row
  Step-Stays {s} (claims b ttl' c e) valid early h =
      rw e (claim_next-Stays r.id lease_row s.table h d b ttl' c valid (not_due c early))
  Step-Stays {s} (performs b j m c e) valid other h =
      rw e (perform-Stays r.id lease_row s.table h d b j m c (spared b j other))
  Step-Stays {s} (enqueues q p good fresh e) valid _ h =
      rw e (fresh_differs r.id lease_row q s.table fresh h)
  Step-Stays (elapses n e) valid _ h = rw e h

  Meanwhile-Stays :
      {s s' : Cluster}
      → Meanwhile d w r.id (start + d.interval ttl) s s'
      → IsValid s.table
      → find_row r.id s.table ≡ some lease_row
      → IsValid s'.table × (find_row r.id s'.table ≡ some lease_row)
  Meanwhile-Stays nothing_yet valid h = (valid, h)
  Meanwhile-Stays (after steps st spares) valid h =
      let (v, k) = Meanwhile-Stays steps valid h in (Step-IsValid st v, Step-Stays st v spares k)

-- After a claim, whatever any worker claims before the lease runs out, whatever transitions others make
-- or the holder makes of other events, and whatever is inserted, in any order, with any arguments and
-- with answers lost or not: a claim by any worker before the lease runs out does not hand the event out
-- again. That last claim is answered and has valid arguments, its clock is not before the rows'
-- creation, and the table after the first claim is valid.
pub lease_excludes_claims :
    (d : Driver) (w : Bytes) (ttl : ℤ) (c : Call) {t : List Row} {s s' : Cluster} (r : Row)
    → Claimed d w ttl c t s.table r
    → IsValid s.table
    → Meanwhile d w r.id (c.now + d.interval ttl) s s'
    → (b : Bytes) (ttl' : ℤ) (c' : Call) (e : Event) → is_empty b ≡ false
    → length_between 1 128 b ≡ true
    → leb_ℤ ttl' (pos 0) ≡ false
    → c'.reply ≡ answered
    → All (λ q. q.created_at ≤ c'.now) s'.table
    → c'.now < c.now + d.interval ttl
    → (claim_next d b ttl' c' s'.table).0 ≡ ok (some e)
    → str_eq r.id e.id ≡ false
lease_excludes_claims d w ttl c {s' = s'} r lease valid steps b ttl' c' e named bounded positive
      healthy clock early claimed =
    let (v, standing) = Meanwhile-Stays d w ttl c.now r steps valid lease.leased in
    standing_lease d w ttl c.now s'.table r standing b ttl' c' e v named bounded positive healthy
      clock early claimed
