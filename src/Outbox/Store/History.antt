-- ===== src/Outbox/Store/History.antt =====
-- Any interleaving of workers, producers and time on the table of events: whatever the arguments of
-- the calls, in whatever order they arrive, and with answers lost before or after the commit.
use game_rewards_service.Base.{
  ℕ, ◌+◌, ◌≤◌, ◌≡◌, sym, inl, inr, true, false, some, List, ◌∷◌, arith, All, Bool-cases,
}
use game_rewards_service.Base.Int.{ℤ}
use game_rewards_service.Base.Text.{Bytes, str_eq, eq_of_str_eq}
use game_rewards_service.Postgres.{Driver}
use game_rewards_service.Outbox.Row.{Row, pending, is_final, satisfies}
use game_rewards_service.Outbox.Store.{Call, claim_next}
use game_rewards_service.Outbox.Store.Table.{find_row, find_row-id, str_eq_sym}
use game_rewards_service.Outbox.Store.Claim.{find_row-In-absent}
use game_rewards_service.Outbox.Store.Change.{
  In-find_row, Change-IsValid, Change-final, Change-attempts, perform-Change, claim_next-Change,
}
use game_rewards_service.Outbox.Store.Transition.{IsValid, Transition, perform}

pub record Cluster : Type 0 where
  pub now : ℕ
  pub table : List Row

pub data Step (d : Driver) (s s' : Cluster) : Type 0 where
  claims :
      (w : Bytes) (ttl : ℤ) (c : Call)
      → s' ≡ record { now = s.now; table = (claim_next d w ttl c s.table).1 }
      → Step d s s'
  performs :
      (w e : Bytes) (m : Transition) (c : Call)
      → s' ≡ record { now = s.now; table = (perform d w e m c s.table).1 }
      → Step d s s'
  -- The insert of a claim's transaction: a new row, within the constraints.
  enqueues :
      (r : Row)
      → r.status ≡ pending
      → satisfies r ≡ true
      → All (λ q. str_eq q.id r.id ≡ false) s.table
      → s' ≡ record { now = s.now; table = r ∷ s.table }
      → Step d s s'
  elapses : (n : ℕ) → s' ≡ record { now = s.now + n; table = s.table } → Step d s s'

pub data Reach (d : Driver) (s : Cluster) : Cluster → Type 0 where
  here : Reach d s s
  next : {t u : Cluster} → Reach d s t → Step d t u → Reach d s u

pub Step-IsValid : {d : Driver} {s s' : Cluster} → Step d s s' → IsValid s.table → IsValid s'.table
Step-IsValid {d} {s} (claims w ttl c e) v =
    rw e (Change-IsValid (claim_next-Change d w ttl c s.table v.distinct) v)
Step-IsValid {d} {s} (performs w i m c e) v =
    rw e (Change-IsValid (perform-Change d w i m c s.table) v)
Step-IsValid (enqueues r p good fresh e) v =
    rw e (record { distinct = (fresh, v.distinct); rows = (good, v.rows) })
Step-IsValid (elapses n e) v = rw e v

-- Ids stay distinct, and rows meet the modelled constraints, which an UPDATE or an INSERT is checked
-- against.
pub Reach-IsValid :
    {d : Driver} {s s' : Cluster} → Reach d s s' → IsValid s.table → IsValid s'.table
Reach-IsValid here v = v
Reach-IsValid (next r st) v = Step-IsValid st (Reach-IsValid r v)

pub fresh_differs :
    (i : Bytes) (r : Row) (q : Row) (t : List Row)
    → All (λ u. str_eq u.id q.id ≡ false) t
    → find_row i t ≡ some r
    → find_row i (q ∷ t) ≡ some r
unfolding find_row
fresh_differs i r q t fresh h = elim (Bool-cases (str_eq q.id i)) [
  | inl e ↦
      let apart = find_row-In-absent q.id r t fresh (In-find_row i t r h) in
      let named : i ≡ r.id = sym (eq_of_str_eq r.id i (find_row-id i t r h)) in
      cc (apart, str_eq_sym q.id r.id (rw named at e))
  | inr e ↦ rw e h
]

Step-final :
    {d : Driver} {s s' : Cluster} (i : Bytes) (r : Row)
    → Step d s s'
    → IsValid s.table
    → find_row i s.table ≡ some r
    → is_final r.status ≡ true
    → find_row i s'.table ≡ some r
Step-final {d} {s} i r (claims w ttl c e) v h k =
    rw e (Change-final i r (claim_next-Change d w ttl c s.table v.distinct) h k)
Step-final {d} {s} i r (performs w j m c e) v h k =
    rw e (Change-final i r (perform-Change d w j m c s.table) h k)
Step-final {d} {s} i r (enqueues q p good fresh e) v h k =
    rw e (fresh_differs i r q s.table fresh h)
Step-final i r (elapses n e) v h k = rw e h

-- A published or dead-lettered row is never changed again.
pub Reach-final :
    {d : Driver} {s s' : Cluster} (i : Bytes) (r : Row)
    → Reach d s s'
    → IsValid s.table
    → find_row i s.table ≡ some r
    → is_final r.status ≡ true
    → find_row i s'.table ≡ some r
Reach-final i r here v h k = h
Reach-final i r (next a st) v h k =
    Step-final i r st (Reach-IsValid a v) (Reach-final i r a v h k) k

abbrev pub AtLeast : Bytes → ℕ → List Row → Type 0
AtLeast i n t = (r : Row) × (find_row i t ≡ some r) × (n ≤ r.failed_attempts)

Step-attempts :
    {d : Driver} {s s' : Cluster} (i : Bytes) (n : ℕ)
    → Step d s s'
    → IsValid s.table
    → AtLeast i n s.table
    → AtLeast i n s'.table
Step-attempts {d} {s} i n (claims w ttl c e) v (r, h, k) =
    let (r', h', k') = Change-attempts i r (claim_next-Change d w ttl c s.table v.distinct) h in
    (r', rw e h', omega arith)
Step-attempts {d} {s} i n (performs w j m c e) v (r, h, k) =
    let (r', h', k') = Change-attempts i r (perform-Change d w j m c s.table) h in
    (r', rw e h', omega arith)
Step-attempts {d} {s} i n (enqueues q p good fresh e) v (r, h, k) =
    (r, rw e (fresh_differs i r q s.table fresh h), k)
Step-attempts i n (elapses m e) v (r, h, k) = (r, rw e h, k)

-- No event is ever lost, and its count of failures never falls.
pub Reach-attempts :
    {d : Driver} {s s' : Cluster} (i : Bytes) (n : ℕ)
    → Reach d s s'
    → IsValid s.table
    → AtLeast i n s.table
    → AtLeast i n s'.table
Reach-attempts i n here v h = h
Reach-attempts i n (next a st) v h =
    Step-attempts i n st (Reach-IsValid a v) (Reach-attempts i n a v h)
