-- ===== src/Outbox/Row.antt =====
-- Rows of outbox_events, the constraints of migrations/000001_create_schema.up.sql, and the two
-- kinds of SQL statement that internal/outbox/store.go sends: an UPDATE with a condition, and the
-- selection of the first due row.
use game_rewards_service.Base.{
  ℕ, ◌+◌, ◌^◌, Bool, true, false, not, ◌&&◌, ◌||◌, Option, none, some, List, [], ◌∷◌, leb, ltb,
  ◌==◌, if◌then◌else◌, Result, ok, err,
}
use game_rewards_service.Base.Text.{Bytes, bytes, str_leb}
use game_rewards_service.Base.Text.Utf8.{rune_count}
use game_rewards_service.Errors.{Err, pg_error}
use game_rewards_service.Outbox.Observer.{PublishOutcome, success, failed, timeout, canceled}

pub data Status : Type 0 where
  pending processing published dead_letter : Status

-- A uuid is its canonical text, whose byte order is that of the uuid; a text that is no uuid
-- reaches no row. Timestamps are numbers.
pub record Row : Type 0 where
  pub id : Bytes
  pub aggregate_type : Bytes
  pub aggregate_id : Bytes
  pub event_type : Bytes
  pub payload : Bytes
  pub status : Status
  pub failed_attempts : ℕ
  pub available_at : ℕ
  pub last_failure_reason : Option PublishOutcome
  pub locked_by : Option Bytes
  pub locked_until : Option ℕ
  pub created_at : ℕ
  pub updated_at : ℕ
  pub published_at : Option ℕ
  pub dead_lettered_at : Option ℕ

abbrev pub is_some {ℓ} : {A : Type ℓ} → Option A → Bool
is_some none = false
is_some (some a) = true

abbrev pub is_processing : Status → Bool
is_processing processing = true
is_processing _ = false

abbrev pub is_published : Status → Bool
is_published published = true
is_published _ = false

abbrev pub is_dead_letter : Status → Bool
is_dead_letter dead_letter = true
is_dead_letter _ = false

-- `published` and `dead_letter` rows are final.
abbrev pub is_final : Status → Bool
is_final s = is_published s || is_dead_letter s

abbrev pub length_between : ℕ → ℕ → Bytes → Bool
length_between lo hi s = leb lo (rune_count s) && leb (rune_count s) hi

abbrev pub reason_ok : Option PublishOutcome → Bool
reason_ok none = true
reason_ok (some success) = false
reason_ok (some failed) = true
reason_ok (some timeout) = true
reason_ok (some canceled) = true

abbrev pub failure_state_ok : Row → Bool
failure_state_ok r =
    if is_dead_letter r.status
    then ltb 0 r.failed_attempts && is_some r.last_failure_reason
    else (r.failed_attempts == 0 && not (is_some r.last_failure_reason))
      || (ltb 0 r.failed_attempts && is_some r.last_failure_reason)

abbrev pub locked_by_ok : Option Bytes → Bool
locked_by_ok none = true
locked_by_ok (some w) = length_between 1 128 w

abbrev pub processing_lock_ok : Row → Bool
processing_lock_ok r =
    if is_processing r.status
    then is_some r.locked_by && is_some r.locked_until
    else not (is_some r.locked_by) && not (is_some r.locked_until)

abbrev pub same : Bool → Bool → Bool
same a b = if a then b else not b

-- The column type integer, and the CHECK constraints on columns that a transition writes.
unfoldable pub satisfies : Row → Bool
satisfies r =
    (ltb r.failed_attempts (2 ^ 31) && reason_ok r.last_failure_reason)
    && ((failure_state_ok r && locked_by_ok r.locked_by)
        && ((leb r.created_at r.updated_at && same (is_published r.status) (is_some r.published_at))
            && (processing_lock_ok r
                && same (is_dead_letter r.status) (is_some r.dead_lettered_at))))

abbrev pub check_violation : Err
check_violation = pg_error (bytes "23514")

-- UPDATE … SET f WHERE p.
unfoldable pub update_where : (Row → Bool) → (Row → Row) → List Row → List Row
update_where p f [] = []
update_where p f (r ∷ rs) = (if p r then f r else r) ∷ update_where p f rs

unfoldable pub count_where : (Row → Bool) → List Row → ℕ
count_where p [] = 0
count_where p (r ∷ rs) = (if p r then 1 else 0) + count_where p rs

unfoldable pub checks_where : (Row → Bool) → (Row → Row) → List Row → Bool
unfolding satisfies
checks_where p f [] = true
checks_where p f (r ∷ rs) = (if p r then satisfies (f r) else true) && checks_where p f rs

-- The number of rows affected and the table after it; no row changes where a check fails.
unfoldable pub exec_update : (Row → Bool) → (Row → Row) → List Row → Result Err (ℕ × List Row)
unfolding update_where count_where checks_where
exec_update p f table =
    if checks_where p f table
    then ok (count_where p table, update_where p f table)
    else err check_violation

-- ORDER BY available_at, id.
unfoldable pub before : Row → Row → Bool
before r s =
    if ltb r.available_at s.available_at
    then true
    else if ltb s.available_at r.available_at
    then false
    else str_leb r.id s.id

unfoldable pub choose : Bool → Row → Option Row → Option Row
choose false r o = o
choose true r none = some r
choose true r (some s) = if before r s then some r else some s

-- SELECT … WHERE p ORDER BY available_at, id LIMIT 1.
unfoldable pub first_where : (Row → Bool) → List Row → Option Row
unfolding choose before
first_where p [] = none
first_where p (r ∷ rs) = choose (p r) r (first_where p rs)
