-- ===== src/Outbox/Store/Table.antt =====
-- The table of events as a map from ids to rows, and an UPDATE of at most one row seen through it.
use game_rewards_service.Base.{
  ℕ, ◌≡◌, refl, Bool, true, false, Option, none, some, List, [], ◌∷◌, inl, inr, arith,
  if◌then◌else◌, All, Bool-cases, Option-cases,
}
use game_rewards_service.Base.Text.{Bytes, str_eq, str_eq_refl, eq_of_str_eq}
use game_rewards_service.Outbox.Row.{Row, satisfies, update_where, count_where, checks_where}

-- The row with an id.
unfoldable pub find_row : Bytes → List Row → Option Row
find_row i [] = none
find_row i (r ∷ rs) = if str_eq r.id i then some r else find_row i rs

-- The keys of the rows, in their order.
abbrev pub ids : List Row → List Bytes
ids [] = []
ids (r ∷ rs) = r.id ∷ ids rs

-- The primary key.
abbrev pub HasDistinctIds : List Row → Type 0
HasDistinctIds [] = Unit
HasDistinctIds (r ∷ rs) = All (λ s. str_eq s.id r.id ≡ false) rs × HasDistinctIds rs

abbrev pub updated : (Row → Bool) → (Row → Row) → Row → Row
updated p f r = if p r then f r else r

abbrev pub updated? : (Row → Bool) → (Row → Row) → Option Row → Option Row
updated? p f none = none
updated? p f (some r) = some (updated p f r)

pub str_eq_sym : (s t : Bytes) → str_eq s t ≡ true → str_eq t s ≡ true
str_eq_sym s t h = let e = eq_of_str_eq s t h in rw e (str_eq_refl t)

pub str_eq_ne_sym : (s t : Bytes) → str_eq s t ≡ false → str_eq t s ≡ false
str_eq_ne_sym s t h = elim (Bool-cases (str_eq t s)) [ inl e ↦ cc (str_eq_sym t s e) | inr e ↦ e ]

pub find_row_other :
    (i j : Bytes) (rs : List Row)
    → str_eq j i ≡ true
    → All (λ s. str_eq s.id j ≡ false) rs
    → find_row i rs ≡ none
unfolding find_row
find_row_other i j [] h a = refl
find_row_other i j (r ∷ rs) h a =
    let e = eq_of_str_eq j i h in rw (rw e at a.0) (find_row_other i j rs h a.1)

pub find_row-id :
    (i : Bytes) (t : List Row) (r : Row) → find_row i t ≡ some r → str_eq r.id i ≡ true
unfolding find_row
find_row-id i [] r h = cc
find_row-id i (s ∷ rs) r h = ground (arith, find_row-id i rs r)

module _ (p : Row → Bool) (f : Row → Row) (keeps : (r : Row) → (f r).id ≡ r.id) where
  updated-id : (r : Row) → (updated p f r).id ≡ r.id
  updated-id r = ground (arith, keeps r)

  pub find_row-update_where :
      (i : Bytes) (t : List Row) → find_row i (update_where p f t) ≡ updated? p f (find_row i t)
  unfolding find_row update_where
  find_row-update_where i [] = refl
  find_row-update_where i (r ∷ rs) = elim (Bool-cases (str_eq r.id i)) [
    | inl e ↦ rw (updated-id r, e)
    | inr e ↦ rw (updated-id r, e) (find_row-update_where i rs)
  ]

  ids_kept :
      (i : Bytes) (t : List Row)
      → All (λ s. str_eq s.id i ≡ false) t
      → All (λ s. str_eq s.id i ≡ false) (update_where p f t)
  unfolding update_where
  ids_kept i [] a = tt
  ids_kept i (r ∷ rs) a = (rw (updated-id r) a.0, ids_kept i rs a.1)

  pub ids-update_where : (t : List Row) → ids (update_where p f t) ≡ ids t
  unfolding update_where
  ids-update_where [] = refl
  ids-update_where (r ∷ rs) = rw (updated-id r, ids-update_where rs)

  pub update_where-HasDistinctIds :
      (t : List Row) → HasDistinctIds t → HasDistinctIds (update_where p f t)
  unfolding update_where
  update_where-HasDistinctIds [] d = tt
  update_where-HasDistinctIds (r ∷ rs) d =
      (rw (updated-id r) (ids_kept r.id rs d.0), update_where-HasDistinctIds rs d.1)

abbrev pub hits : (Row → Bool) → Option Row → ℕ
hits p none = 0
hits p (some r) = if p r then 1 else 0

abbrev pub checks : (Row → Bool) → (Row → Row) → Option Row → Bool
checks p f none = true
checks p f (some r) = if p r then satisfies (f r) else true

-- A condition that only the row `i` can meet.
abbrev pub OnlyAt : Bytes → (Row → Bool) → Type 0
OnlyAt i p = (r : Row) → p r ≡ true → str_eq r.id i ≡ true

module _ (i : Bytes) (p : Row → Bool) (f : Row → Row) (only : OnlyAt i p) where
  misses : (r : Row) → str_eq r.id i ≡ false → p r ≡ false
  misses r h = elim (Bool-cases (p r)) [ inl e ↦ cc (only r e) | inr e ↦ e ]

  count_absent : (t : List Row) → All (λ s. str_eq s.id i ≡ false) t → count_where p t ≡ 0
  unfolding count_where
  count_absent [] a = refl
  count_absent (r ∷ rs) a = rw (misses r a.0) (omega (arith, count_absent rs a.1))

  checks_absent : (t : List Row) → All (λ s. str_eq s.id i ≡ false) t → checks_where p f t ≡ true
  unfolding checks_where
  checks_absent [] a = refl
  checks_absent (r ∷ rs) a = rw (misses r a.0) (checks_absent rs a.1)

  same_key :
      (r : Row) (rs : List Row)
      → str_eq r.id i ≡ true
      → All (λ s. str_eq s.id r.id ≡ false) rs
      → All (λ s. str_eq s.id i ≡ false) rs
  same_key r rs h a = let e = eq_of_str_eq r.id i h in rw e at a

  pub count_where-hits : (t : List Row) → HasDistinctIds t → count_where p t ≡ hits p (find_row i t)
  unfolding count_where find_row
  count_where-hits [] d = refl
  count_where-hits (r ∷ rs) d = elim (Bool-cases (str_eq r.id i)) [
    | inl e ↦ rw (e, count_absent rs (same_key r rs e d.0)) (ground arith)
    | inr e ↦ rw (e, misses r e) (omega (arith, count_where-hits rs d.1))
  ]

  pub checks_where-checks :
      (t : List Row) → HasDistinctIds t → checks_where p f t ≡ checks p f (find_row i t)
  unfolding checks_where find_row
  checks_where-checks [] d = refl
  checks_where-checks (r ∷ rs) d = elim (Bool-cases (str_eq r.id i)) [
    | inl e ↦ rw (e, checks_absent rs (same_key r rs e d.0)) (ground arith)
    | inr e ↦ rw (e, misses r e) (checks_where-checks rs d.1)
  ]

module _ (i : Bytes) (p : Row → Bool) (f : Row → Row) (only : OnlyAt i p)
    (keeps : (r : Row) → (f r).id ≡ r.id) where
  pub find_row-update_other :
      (j : Bytes) (t : List Row)
      → str_eq i j ≡ false
      → find_row j (update_where p f t) ≡ find_row j t
  find_row-update_other j t other =
      rw (find_row-update_where p f keeps j t) (elim (Option-cases (find_row j t)) [
        | inl e ↦ rw e
        | inr (r, e) ↦ rw (e, misses i p f only r (elsewhere r (find_row-id j t r e)))
      ])
    where
      elsewhere : (r : Row) → str_eq r.id j ≡ true → str_eq r.id i ≡ false
      elsewhere r h = let e = eq_of_str_eq r.id j h in rw e (str_eq_ne_sym i j other)

-- An UPDATE whose condition no row meets changes nothing.
pub update_where_none :
    (p : Row → Bool) (f : Row → Row) (t : List Row) → count_where p t ≡ 0 → update_where p f t ≡ t
unfolding count_where update_where
update_where_none p f [] h = refl
update_where_none p f (r ∷ rs) h = ground (arith, update_where_none p f rs)
