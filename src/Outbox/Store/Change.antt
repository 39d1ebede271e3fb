-- ===== src/Outbox/Store/Change.antt =====
-- What any statement of store.go can do to the table, whatever its arguments and its reply.
use Prim.Native.String.{String}
use game_rewards_service.Base.{
  ℕ, ◌≤◌, ◌≡◌, refl, Bool, true, false, Option, none, some, List, [], ◌∷◌, inl, inr, arith,
  if◌then◌else◌, All, Bool-cases, &&-eq-true, Result, ok, err,
}
use game_rewards_service.Base.Int.{ℤ, pos, leb_ℤ}
use game_rewards_service.Base.Text.{Bytes, str_eq, eq_of_str_eq, is_empty}
use game_rewards_service.Errors.{Err}
use game_rewards_service.Postgres.{Driver}
use game_rewards_service.Outbox.Row.{
  Row, is_final, satisfies, first_where, update_where, checks_where, exec_update,
}
use game_rewards_service.Outbox.Store.{
  Event, Call, returning, Reply, answered, lost, deliver, is_due, is_held, claimed_row,
  claim_statement, claim_next, transition, mark_published, schedule_retry, mark_dead_letter,
}
use game_rewards_service.Outbox.Store.Table.{
  find_row, find_row-update_where, ids, ids-update_where, update_where-HasDistinctIds, updated,
  HasDistinctIds,
}
use game_rewards_service.Outbox.Store.Claim.{In, find_row-In, Selects, first_where-Selects}
use game_rewards_service.Outbox.Store.Lease.{is_claimable}
use game_rewards_service.Outbox.Store.Transition.{
  IsValid, Transition, publish, retry, bury, perform, moved, move_label,
}

-- What one statement can do to the table: nothing, or an UPDATE that the constraints let through,
-- that touches no final row and lowers no count of failures.
pub data Change (t t' : List Row) : Type 0 where
  same : t' ≡ t → Change t t'
  update :
      (p : Row → Bool) (f : Row → Row)
      → ((r : Row) → (f r).id ≡ r.id)
      → ((r : Row) → In r t → p r ≡ true → is_final r.status ≡ false)
      → ((r : Row) → r.failed_attempts ≤ (f r).failed_attempts)
      → checks_where p f t ≡ true
      → t' ≡ update_where p f t
      → Change t t'

pub In-find_row : (i : Bytes) (t : List Row) (r : Row) → find_row i t ≡ some r → In r t
unfolding find_row
In-find_row i [] r h = cc
In-find_row i (s ∷ rs) r h = elim (Bool-cases (str_eq s.id i)) [
  | inl e ↦ inl (ground arith)
  | inr e ↦ inr (In-find_row i rs r (ground arith))
]

update_where-satisfies :
    (p : Row → Bool) (f : Row → Row) (t : List Row)
    → All (λ r. satisfies r ≡ true) t
    → checks_where p f t ≡ true
    → All (λ r. satisfies r ≡ true) (update_where p f t)
unfolding update_where checks_where
update_where-satisfies p f [] a h = tt
update_where-satisfies p f (r ∷ rs) a h =
    (ground arith, update_where-satisfies p f rs a.1 (&&-eq-true _ _ h).1)

pub Change-IsValid : {t t' : List Row} → Change t t' → IsValid t → IsValid t'
Change-IsValid (same e) v = rw e v
Change-IsValid {t} (update p f keeps open_rows grows good e) v = rw e (record {
  distinct = update_where-HasDistinctIds p f keeps t v.distinct;
  rows = update_where-satisfies p f t v.rows good;
})

-- No row comes or goes.
pub Change-ids : {t t' : List Row} → Change t t' → ids t' ≡ ids t
Change-ids (same e) = rw e
Change-ids {t} (update p f keeps open_rows grows good e) = rw e (ids-update_where p f keeps t)

pub Change-final :
    {t t' : List Row} (i : Bytes) (r : Row)
    → Change t t'
    → find_row i t ≡ some r
    → is_final r.status ≡ true
    → find_row i t' ≡ some r
Change-final i r (same e) h k = rw e h
Change-final {t} i r (update p f keeps open_rows grows good e) h k =
    rw (e, find_row-update_where p f keeps i t, h)
      (elim (Bool-cases (p r)) [
        | inl hit ↦ cc (open_rows r (In-find_row i t r h) hit, k)
        | inr miss ↦ rw miss
      ])

pub Change-attempts :
    {t t' : List Row} (i : Bytes) (r : Row)
    → Change t t'
    → find_row i t ≡ some r
    → (r' : Row) × (find_row i t' ≡ some r') × (r.failed_attempts ≤ r'.failed_attempts)
Change-attempts i r (same e) h = (r, rw e h, omega arith)
Change-attempts {t} i r (update p f keeps open_rows grows good e) h =
    (updated p f r, rw (e, find_row-update_where p f keeps i t, h), ground (arith, grows r))

module _ (p : Row → Bool) (f : Row → Row) (t : List Row) (keeps : (r : Row) → (f r).id ≡ r.id)
    (open_rows : (r : Row) → In r t → p r ≡ true → is_final r.status ≡ false)
    (grows : (r : Row) → r.failed_attempts ≤ (f r).failed_attempts) where
  deliver-Change : (reply : Reply) → Change t (deliver reply (exec_update p f t) t).1
  unfolding deliver exec_update
  deliver-Change answered = elim (Bool-cases (checks_where p f t)) [
    | inl good ↦ update p f keeps open_rows grows good (rw good)
    | inr bad ↦ same (rw bad)
  ]
  deliver-Change (lost e false) = same refl
  deliver-Change (lost e true) = elim (Bool-cases (checks_where p f t)) [
    | inl good ↦ update p f keeps open_rows grows good (rw good)
    | inr bad ↦ same (rw bad)
  ]

held_open : (e w : Bytes) (r : Row) → is_held e w r ≡ true → is_final r.status ≡ false
unfolding is_held
held_open e w r h = ground arith

transition-Change :
    (d : Driver) (l : String) (w e : Bytes) (f : Row → Row) (c : Call) (t : List Row)
    → ((r : Row) → (f r).id ≡ r.id)
    → ((r : Row) → r.failed_attempts ≤ (f r).failed_attempts)
    → Change t (transition d l w e f c t).1
unfolding transition
transition-Change d l w e f c t keeps grows =
    deliver-Change (is_held e w) f t keeps (λ r _. held_open e w r) grows c.reply

Change-if :
    {A : Type 0} (b : Bool) (t : List Row) (a : A) (o : A × List Row)
    → Change t o.1
    → Change t (if b then (a, t) else o).1
Change-if true t a o h = same refl
Change-if false t a o h = h

pub perform-Change :
    (d : Driver) (w e : Bytes) (m : Transition) (c : Call) (t : List Row)
    → Change t (perform d w e m c t).1
unfolding perform mark_published schedule_retry mark_dead_letter
perform-Change d w e publish c t = Change-if (is_empty w) t _ _ (
    Change-if (is_empty e) t _ _ (
      transition-Change d (move_label publish) w e (moved d publish c.now) c t (λ r. refl)
        (λ r. omega arith)))
perform-Change d w e (retry delay outcome) c t = Change-if (is_empty w) t _ _ (
    Change-if (is_empty e) t _ _ (
      Change-if (leb_ℤ delay (pos 0)) t _ _ (
        transition-Change d (move_label (retry delay outcome)) w e
          (moved d (retry delay outcome) c.now) c t (λ r. refl) (λ r. omega arith))))
perform-Change d w e (bury outcome) c t = Change-if (is_empty w) t _ _ (
    Change-if (is_empty e) t _ _ (
      transition-Change d (move_label (bury outcome)) w e (moved d (bury outcome) c.now) c t
        (λ r. refl) (λ r. omega arith)))

pub deliver-returning :
    (reply : Reply) (e : Event) (x : Result Err (ℕ × List Row)) (t : List Row)
    → (deliver reply (returning e x) t).1 ≡ (deliver reply x t).1
unfolding deliver returning
deliver-returning answered e (ok a) t = refl
deliver-returning answered e (err f) t = refl
deliver-returning (lost f done) e (ok a) t = refl
deliver-returning (lost f done) e (err g) t = refl

pub due_open : (now : ℕ) (r : Row) → is_due now r ≡ true → is_final r.status ≡ false
unfolding is_due
due_open now r h = ground arith

same_row :
    (r s : Row) (t : List Row)
    → HasDistinctIds t
    → In r t
    → In s t
    → str_eq s.id r.id ≡ true
    → s ≡ r
same_row r s t d hr hs e =
    let at_r : find_row s.id t ≡ some r = rw (eq_of_str_eq s.id r.id e) (find_row-In r t d hr) in
    ground (arith, at_r, find_row-In s t d hs)

pub deliver-none :
    (reply : Reply) (t : List Row) → (deliver {A = Option Event} reply (ok (none, t)) t).1 ≡ t
unfolding deliver
deliver-none answered t = refl
deliver-none (lost e true) t = refl
deliver-none (lost e false) t = refl

claim_statement-Change :
    (d : Driver) (w : Bytes) (ttl : ℤ) (c : Call) (t : List Row) (o : Option Row)
    → HasDistinctIds t
    → first_where (is_claimable c) t ≡ o
    → Selects (is_claimable c) t o
    → Change t (deliver c.reply (claim_statement d w ttl c t) t).1
unfolding claim_statement
claim_statement-Change d w ttl c t none distinct e s =
    same (rw (e, claim_statement) (ground (arith, deliver-none c.reply t)))
claim_statement-Change d w ttl c t (some r) distinct e s =
    rw (e, claim_statement)
      (rw deliver-returning (
        deliver-Change (λ o. str_eq o.id r.id) (claimed_row d w ttl c.now) t (λ o. refl)
          (λ o member match.
            rw (same_row r o t distinct s.member member match)
              (due_open c.now r (&&-eq-true _ _ s.meets).0))
          (λ o. omega arith) c.reply))

pub claim_next-Change :
    (d : Driver) (w : Bytes) (ttl : ℤ) (c : Call) (t : List Row)
    → HasDistinctIds t
    → Change t (claim_next d w ttl c t).1
unfolding claim_next
claim_next-Change d w ttl c t distinct = Change-if (is_empty w) t _ _ (
    Change-if (leb_ℤ ttl (pos 0)) t _ _ (
      claim_statement-Change d w ttl c t (first_where (is_claimable c) t) distinct refl
        (first_where-Selects (is_claimable c) t)))
