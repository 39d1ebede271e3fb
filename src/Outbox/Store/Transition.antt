-- ===== src/Outbox/Store/Transition.antt =====
-- The three final transitions of store.go against the row that they name: what they do when the
-- worker holds the lease, and when it does not.
use Prim.Native.String.{String}
use game_rewards_service.Base.{
  ℕ, ◌+◌, ◌^◌, ◌≤◌, ◌<◌, ◌≡◌, refl, Bool, true, false, Option, none, some, List, [], ◌∷◌, inl, inr,
  arith, All, Bool-cases, Result, ok, err,
}
use game_rewards_service.Base.Int.{ℤ, pos, leb_ℤ}
use game_rewards_service.Base.Text.{Bytes, str_eq, is_empty}
use game_rewards_service.Errors.{Err, wrap, sentinel, lease_lost}
use game_rewards_service.Postgres.{Driver}
use game_rewards_service.Outbox.Observer.{PublishOutcome}
use game_rewards_service.Outbox.Row.{
  Row, is_processing, satisfies, reason_ok, update_where, exec_update,
}
use game_rewards_service.Outbox.Store.{
  Call, answered, is_held, transition, mark_published, schedule_retry, mark_dead_letter,
  published_row, retried_row, dead_lettered_row,
}
use game_rewards_service.Outbox.Store.Table.{
  find_row, find_row-update_where, find_row-update_other, HasDistinctIds, OnlyAt, hits, checks,
  count_where-hits, checks_where-checks, update_where_none,
}

-- A call of MarkPublished, ScheduleRetry or MarkDeadLetter.
pub data Transition : Type 0 where
  publish : Transition
  retry : ℤ → PublishOutcome → Transition
  bury : PublishOutcome → Transition

abbrev pub moved : Driver → Transition → ℕ → Row → Row
moved d publish now r = published_row now r
moved d (retry delay outcome) now r = retried_row d delay outcome now r
moved d (bury outcome) now r = dead_lettered_row outcome now r

unfoldable pub perform :
    Driver → Bytes → Bytes → Transition → Call → List Row → Result Err (Unit {0}) × List Row
perform d w e publish c t = mark_published d w e c t
perform d w e (retry delay outcome) c t = schedule_retry d w e delay outcome c t
perform d w e (bury outcome) c t = mark_dead_letter d w e outcome c t

-- The arguments that a worker passes: a positive delay, an outcome that is a failure, and a count
-- of failures that still fits its column.
abbrev pub IsPermitted : Transition → Row → Type 0
IsPermitted publish r = Unit
IsPermitted (retry delay outcome) r =
    (leb_ℤ delay (pos 0) ≡ false)
    × (reason_ok (some outcome) ≡ true)
    × (r.failed_attempts + 1 < 2 ^ 31)
IsPermitted (bury outcome) r = (reason_ok (some outcome) ≡ true) × (r.failed_attempts + 1 < 2 ^ 31)

pub record IsValid (t : List Row) : Type 0 where
  pub distinct : HasDistinctIds t
  pub rows : All (λ r. satisfies r ≡ true) t

pub find_row-satisfies :
    (i : Bytes) (t : List Row) (r : Row)
    → All (λ s. satisfies s ≡ true) t
    → find_row i t ≡ some r
    → satisfies r ≡ true
unfolding find_row
find_row-satisfies i [] r a h = cc
find_row-satisfies i (s ∷ rs) r a h = elim (Bool-cases (str_eq s.id i)) [
  | inl e ↦ ground arith
  | inr e ↦ find_row-satisfies i rs r a.1 (ground arith)
]

pub is_held-OnlyAt : (e w : Bytes) → OnlyAt e (is_held e w)
unfolding is_held
is_held-OnlyAt e w r h = ground arith

is_held-processing : (e w : Bytes) (r : Row) → is_held e w r ≡ true → is_processing r.status ≡ true
unfolding is_held
is_held-processing e w r h = ground arith

-- No transition of a valid row breaks a constraint.
moved-satisfies :
    (d : Driver) (m : Transition) (now : ℕ) (r : Row)
    → satisfies r ≡ true
    → is_processing r.status ≡ true
    → r.created_at ≤ now
    → IsPermitted m r
    → satisfies (moved d m now r) ≡ true
unfolding satisfies
moved-satisfies d publish now r v p k a = ground arith
moved-satisfies d (retry delay outcome) now r v p k a = ground arith
moved-satisfies d (bury outcome) now r v p k a = ground arith

checks-no_hit :
    (p : Row → Bool) (f : Row → Row) (o : Option Row) → hits p o ≡ 0 → checks p f o ≡ true
checks-no_hit p f none h = refl
checks-no_hit p f (some r) h = ground arith

module _ (i : Bytes) (p : Row → Bool) (f : Row → Row) (only : OnlyAt i p) (t : List Row)
    (distinct : HasDistinctIds t) where
  pub exec_update-hit :
      (r : Row)
      → find_row i t ≡ some r
      → p r ≡ true
      → satisfies (f r) ≡ true
      → exec_update p f t ≡ ok (1, update_where p f t)
  unfolding exec_update
  exec_update-hit r found here good =
      rw (checks_where-checks i p f only t distinct, count_where-hits i p f only t distinct, found)
        (rw (here, good))

  pub exec_update-miss : hits p (find_row i t) ≡ 0 → exec_update p f t ≡ ok (0, t)
  unfolding exec_update
  exec_update-miss none_hit =
      let count = count_where-hits i p f only t distinct in
      rw (
        checks_where-checks i p f only t distinct,
        checks-no_hit p f (find_row i t) none_hit,
        count,
        none_hit,
        update_where_none p f t (rw count none_hit),
      )

moved-id : (d : Driver) (m : Transition) (now : ℕ) (r : Row) → (moved d m now r).id ≡ r.id
moved-id d publish now r = refl
moved-id d (retry delay outcome) now r = refl
moved-id d (bury outcome) now r = refl

-- The label of the wrapped error.
abbrev pub move_label : Transition → String
move_label publish = "mark outbox event published"
move_label (retry delay outcome) = "schedule outbox event retry"
move_label (bury outcome) = "mark outbox event dead letter"

-- Past the argument checks the three methods are one statement.
perform-transition :
    (d : Driver) (w e : Bytes) (m : Transition) (c : Call) (t : List Row) (r : Row)
    → is_empty w ≡ false
    → is_empty e ≡ false
    → IsPermitted m r
    → perform d w e m c t ≡ transition d (move_label m) w e (moved d m c.now) c t
unfolding perform mark_published schedule_retry mark_dead_letter
perform-transition d w e publish c t r hw he a = rw (hw, he)
perform-transition d w e (retry delay outcome) c t r hw he a = rw (hw, he, a.0)
perform-transition d w e (bury outcome) c t r hw he a = rw (hw, he)

module _ (d : Driver) (w e : Bytes) (m : Transition) (c : Call) {t : List Row} (valid : IsValid t)
    (named : is_empty w ≡ false) (given : is_empty e ≡ false) (healthy : c.reply ≡ answered)
    (r : Row) (permitted : IsPermitted m r) where
  -- The holder's transition succeeds, makes the change to its row that the statement says, and
  -- leaves every other row alone.
  pub perform-held :
      find_row e t ≡ some r
      → is_held e w r ≡ true
      → r.created_at ≤ c.now
      → (t' : List Row) × (perform d w e m c t ≡ (ok tt, t'))
        × (find_row e t' ≡ some (moved d m c.now r))
        × ((i : Bytes) → str_eq e i ≡ false → find_row i t' ≡ find_row i t)
  unfolding transition
  perform-held found held clock = (
    update_where (is_held e w) (moved d m c.now) t,
    rw (perform-transition d w e m c t r named given permitted, transition)
        (rw (
          healthy,
          exec_update-hit e (is_held e w) (moved d m c.now) (is_held-OnlyAt e w) t valid.distinct r
              found held
              (moved-satisfies d m c.now r (find_row-satisfies e t r valid.rows found)
                (is_held-processing e w r held) clock permitted),
        )),
    rw (
      find_row-update_where (is_held e w) (moved d m c.now) (moved-id d m c.now) e t,
      found,
      held,
    ),
    λ i.
        find_row-update_other e (is_held e w) (moved d m c.now) (is_held-OnlyAt e w)
          (moved-id d m c.now) i t,
  )

  -- Anyone else's fails with ErrLeaseLost, and changes nothing.
  pub perform-lost :
      hits (is_held e w) (find_row e t) ≡ 0
      → perform d w e m c t ≡ (err (wrap (move_label m) (sentinel lease_lost)), t)
  unfolding transition
  perform-lost free =
      rw (perform-transition d w e m c t r named given permitted, transition)
        (rw (
          healthy,
          exec_update-miss e (is_held e w) (moved d m c.now) (is_held-OnlyAt e w) t valid.distinct
              free,
        ))
