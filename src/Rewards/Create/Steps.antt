-- ===== src/Rewards/Create/Steps.antt =====
-- The steps of createClaim before its commit, on every schedule.
use game_rewards_service.Base.{
  ◌≡◌, refl, Option, none, some, List, [], ◌∷◌, ◌++◌, Result, ok, err, Result-cases, Option-cases,
  Bool-cases, inl, inr, if◌then◌else◌, append_nil, subst,
}
use game_rewards_service.Errors.{Err, Context, is, no_rows}
use game_rewards_service.Postgres.{Driver}
use game_rewards_service.Rewards.Tables.{Db, Write, apply_writes}
use game_rewards_service.Rewards.Transaction.{
  Turn, Tx, quiet, map_postgres_error, exec, query_row, Action, after_step,
}

-- The tables, and the turns left, after what other transactions commit in the first turns.
pub data Reached : Db → List Turn → Db → List Turn → Type 0 where
  here : {c : Db} {ts : List Turn} → Reached c ts c ts
  turn :
      {c c' : Db} {ts ts' : List Turn} (t : Turn)
      → Reached (t.other c) ts c' ts'
      → Reached c (t ∷ ts) c' ts'

pub Reached-trans :
    {a b c : Db} {us vs ws : List Turn} → Reached a us b vs → Reached b vs c ws → Reached a us c ws
Reached-trans here y = y
Reached-trans (turn t x) y = turn t (Reached-trans x y)

-- How a step before the commit ends: with an answer and what it wrote, or with an error.
pub data Stepped {A : Type 0} (c : Db) (ts : List Turn) (w : List Write)
    (post : A → List Write → Type 0) : Result Err A × Tx → Type 0 where
  went :
      (a : A) (ws : List Write) (c' : Db) (ts' : List Turn)
      → Reached c ts c' ts'
      → post a ws
      → Stepped c ts w post (ok a, record { committed = c'; writes = w ++ ws; turns = ts' })
  failed :
      (e : Err) (w' : List Write) (c' : Db) (ts' : List Turn)
      → Reached c ts c' ts'
      → Stepped c ts w post (err e, record { committed = c'; writes = w'; turns = ts' })

pub step-then :
    {A B : Type 0} {c : Db} {ts : List Turn} {w : List Write} {post : A → List Write → Type 0}
    {x : Result Err A × Tx} (goal : Result Err B × Tx → Type 0) (f : A → Action B)
    → Stepped c ts w post x
    → ((a : A) (ws : List Write) (c' : Db) (ts' : List Turn)
        → Reached c ts c' ts'
        → post a ws
        → goal (f a (record { committed = c'; writes = w ++ ws; turns = ts' })))
    → ((e : Err) (w' : List Write) (c' : Db) (ts' : List Turn)
        → Reached c ts c' ts'
        → goal (err e, record { committed = c'; writes = w'; turns = ts' }))
    → goal (after_step x f)
step-then goal f (went a ws c' ts' r h) good bad = good a ws c' ts' r h
step-then goal f (failed e w' c' ts' r) good bad = bad e w' c' ts' r

module _ (d : Driver) where
  exec_answered :
      {A : Type 0} (f : Db → Result Err (A × List Write)) (c : Db) (w : List Write) (t : Turn)
      (ts : List Turn) (a : A) (ws : List Write)
      → t.fault ≡ none
      → f (apply_writes (t.other c) w) ≡ ok (a, ws)
      → exec d f (record { committed = c; writes = w; turns = t ∷ ts })
        ≡ (ok a, record { committed = t.other c; writes = w ++ ws; turns = ts })
  unfolding exec
  exec_answered f c w t ts a ws quiet e = rw (exec, quiet, e) refl

  exec_refused :
      {A : Type 0} (f : Db → Result Err (A × List Write)) (c : Db) (w : List Write) (t : Turn)
      (ts : List Turn) (x : Err)
      → t.fault ≡ none
      → f (apply_writes (t.other c) w) ≡ err x
      → (y : Err) × (exec d f (record { committed = c; writes = w; turns = t ∷ ts })
          ≡ (err y, record { committed = t.other c; writes = w; turns = ts }))
  unfolding exec
  exec_refused f c w t ts x quiet e = (map_postgres_error d t.ctx x, rw (exec, quiet, e) refl)

  exec_faulty :
      {A : Type 0} (f : Db → Result Err (A × List Write)) (c : Db) (w : List Write) (t : Turn)
      (ts : List Turn) (x : Err)
      → t.fault ≡ some x
      → (y : Err) × (exec d f (record { committed = c; writes = w; turns = t ∷ ts })
          ≡ (err y, record { committed = t.other c; writes = w; turns = ts }))
  unfolding exec
  exec_faulty f c w t ts x e = (map_postgres_error d t.ctx x, rw (exec, e) refl)

  exec_last :
      {A : Type 0} (f : Db → Result Err (A × List Write)) (post : A → List Write → Type 0) (c : Db)
      (w : List Write)
      → ((a : A) (ws : List Write) → f (apply_writes c w) ≡ ok (a, ws) → post a ws)
      → Stepped c [] w post (exec d f (record { committed = c; writes = w; turns = [] }))
  unfolding exec
  exec_last f post c w h = elim (Result-cases (f (apply_writes c w))) [
    | inl ((a, ws), e) ↦ rw (exec, e) (went a ws c [] here (h a ws e))
    | inr (x, e) ↦ rw (exec, e) (failed _ w c [] here)
  ]

  -- The statement answers on tables that are reached, with its own writes.
  pub exec_seen-Stepped :
      {A : Type 0} (f : Db → Result Err (A × List Write)) (post : A → List Write → Type 0) (c : Db)
      (w : List Write) (ts : List Turn)
      → ((c' : Db) (ts' : List Turn)
          → Reached c ts c' ts'
          → (a : A) (ws : List Write) → f (apply_writes c' w) ≡ ok (a, ws)
          → post a ws)
      → Stepped c ts w post (exec d f (record { committed = c; writes = w; turns = ts }))
  exec_seen-Stepped f post c w [] h = exec_last f post c w (h c [] here)
  exec_seen-Stepped f post c w (t ∷ ts) h = elim (Option-cases t.fault) [
    | inl quiet ↦ elim (Result-cases (f (apply_writes (t.other c) w))) [
      | inl ((a, ws), e) ↦
          rw (exec_answered f c w t ts a ws quiet e)
            (went a ws (t.other c) ts (turn t here) (h (t.other c) ts (turn t here) a ws e))
      | inr (x, e) ↦
          let (y, same) = exec_refused f c w t ts x quiet e in
          rw same (failed y w (t.other c) ts (turn t here))
    ]
    | inr (x, e) ↦
        let (y, same) = exec_faulty f c w t ts x e in
        rw same (failed y w (t.other c) ts (turn t here))
  ]

  pub exec-Stepped :
      {A : Type 0} (f : Db → Result Err (A × List Write)) (post : A → List Write → Type 0)
      → ((db : Db) (a : A) (ws : List Write) → f db ≡ ok (a, ws) → post a ws)
      → (c : Db) (w : List Write) (ts : List Turn)
      → Stepped c ts w post (exec d f (record { committed = c; writes = w; turns = ts }))
  exec-Stepped f post h c w ts = exec_seen-Stepped f post c w ts (λ c' ts' r. h (apply_writes c' w))

  query_answered :
      {A : Type 0} (f : Db → Result Err (Option A × List Write)) (c : Db) (w : List Write)
      (t : Turn) (ts : List Turn) (a : Option A) (ws : List Write)
      → t.fault ≡ none
      → f (apply_writes (t.other c) w) ≡ ok (a, ws)
      → query_row d f (record { committed = c; writes = w; turns = t ∷ ts })
        ≡ (ok a, record { committed = t.other c; writes = w ++ ws; turns = ts })
  unfolding query_row
  query_answered f c w t ts a ws quiet e = rw (query_row, quiet, e) refl

  -- The answer to an error of the statement or of the driver.
  abbrev unanswered : {A : Type 0} → Err → Context → Result Err (Option A)
  unanswered x ctx = if is x no_rows then ok none else err (map_postgres_error d ctx x)

  query_refused :
      {A : Type 0} (f : Db → Result Err (Option A × List Write)) (c : Db) (w : List Write)
      (t : Turn) (ts : List Turn) (x : Err)
      → t.fault ≡ none
      → f (apply_writes (t.other c) w) ≡ err x
      → query_row d f (record { committed = c; writes = w; turns = t ∷ ts })
        ≡ (unanswered x t.ctx, record { committed = t.other c; writes = w; turns = ts })
  unfolding query_row
  query_refused f c w t ts x quiet e = rw (query_row, quiet, e) refl

  query_faulty :
      {A : Type 0} (f : Db → Result Err (Option A × List Write)) (c : Db) (w : List Write)
      (t : Turn) (ts : List Turn) (x : Err)
      → t.fault ≡ some x
      → query_row d f (record { committed = c; writes = w; turns = t ∷ ts })
        ≡ (unanswered x t.ctx, record { committed = t.other c; writes = w; turns = ts })
  unfolding query_row
  query_faulty f c w t ts x e = rw (query_row, e) refl

  unanswered-Stepped :
      {A : Type 0} (post : Option A → List Write → Type 0)
      → post none []
      → {c : Db} {ts : List Turn} (w : List Write) (x : Err) (ctx : Context) (c' : Db)
        (ts' : List Turn)
      → Reached c ts c' ts'
      → Stepped c ts w post (unanswered x ctx, record { committed = c'; writes = w; turns = ts' })
  unanswered-Stepped post nil {c = c} {ts = ts} w x ctx c' ts' r =
      elim (Bool-cases (is x no_rows)) [
        | inl missing ↦ rw (missing) (
            subst
              (λ v.
                Stepped c ts w post (ok none, record { committed = c'; writes = v; turns = ts' }))
              (append_nil w) (went none [] c' ts' r nil))
        | inr other ↦ rw other (failed _ w c' ts' r)
      ]

  query_last :
      {A : Type 0} (f : Db → Result Err (Option A × List Write))
      (post : Option A → List Write → Type 0)
      → post none []
      → ((db : Db) (a : Option A) (ws : List Write) → f db ≡ ok (a, ws) → post a ws)
      → (c : Db) (w : List Write)
      → Stepped c [] w post (query_row d f (record { committed = c; writes = w; turns = [] }))
  unfolding query_row
  query_last f post nil h c w = elim (Result-cases (f (apply_writes c w))) [
    | inl ((a, ws), e) ↦ rw (query_row, e) (went a ws c [] here (h (apply_writes c w) a ws e))
    | inr (x, e) ↦ rw (query_row, e) (unanswered-Stepped post nil w x quiet c [] here)
  ]

  pub query_row-Stepped :
      {A : Type 0} (f : Db → Result Err (Option A × List Write))
      (post : Option A → List Write → Type 0)
      → post none []
      → ((db : Db) (a : Option A) (ws : List Write) → f db ≡ ok (a, ws) → post a ws)
      → (c : Db) (w : List Write) (ts : List Turn)
      → Stepped c ts w post (query_row d f (record { committed = c; writes = w; turns = ts }))
  query_row-Stepped f post nil h c w [] = query_last f post nil h c w
  query_row-Stepped f post nil h c w (t ∷ ts) = elim (Option-cases t.fault) [
    | inl calm ↦ elim (Result-cases (f (apply_writes (t.other c) w))) [
      | inl ((a, ws), e) ↦
          rw (query_answered f c w t ts a ws calm e)
            (went a ws (t.other c) ts (turn t here) (h (apply_writes (t.other c) w) a ws e))
      | inr (x, e) ↦
          rw (query_refused f c w t ts x calm e)
            (unanswered-Stepped post nil w x t.ctx (t.other c) ts (turn t here))
    ]
    | inr (x, e) ↦
        rw (query_faulty f c w t ts x e)
          (unanswered-Stepped post nil w x t.ctx (t.other c) ts (turn t here))
  ]
