-- ===== src/Outbox/Store/Claim.antt =====
-- ClaimNext: which row it takes, what it writes, and what a lease then excludes.
use game_rewards_service.Base.{
  ◌≡◌, refl, Bool, true, false, Option, none, some, List, [], ◌∷◌, ◌⊎◌, inl, inr, arith, All,
  Bool-cases,
}
use game_rewards_service.Base.Text.{
  Bytes, str_eq, str_eq_refl, str_leb_refl, str_leb_total, str_leb_trans,
}
use game_rewards_service.Outbox.Row.{Row, before, choose, first_where}
use game_rewards_service.Outbox.Store.Table.{find_row, HasDistinctIds, str_eq_ne_sym}

abbrev pub In : Row → List Row → Type 0
In r [] = ⊥
In r (s ∷ rs) = (r ≡ s) ⊎ In r rs

pub find_row-In-absent :
    (i : Bytes) (r : Row) (rs : List Row)
    → All (λ s. str_eq s.id i ≡ false) rs
    → In r rs
    → str_eq r.id i ≡ false
find_row-In-absent i r [] a m = absurd m
find_row-In-absent i r (s ∷ rs) a (inl e) = rw e a.0
find_row-In-absent i r (s ∷ rs) a (inr m) = find_row-In-absent i r rs a.1 m

pub find_row-In : (r : Row) (t : List Row) → HasDistinctIds t → In r t → find_row r.id t ≡ some r
unfolding find_row
find_row-In r [] d m = absurd m
find_row-In r (s ∷ rs) d (inl e) = rw (e, str_eq_refl s.id)
find_row-In r (s ∷ rs) d (inr m) =
    rw (str_eq_ne_sym r.id s.id (find_row-In-absent s.id r rs d.0 m)) (find_row-In r rs d.1 m)

before_total : (r s : Row) → before r s ≡ false → before s r ≡ true
unfolding before
before_total r s h = ground (arith, str_leb_total r.id s.id)

before_refl : (r : Row) → before r r ≡ true
unfolding before
before_refl r = ground (arith, str_leb_refl r.id)

before_trans : (r s u : Row) → before r s ≡ true → before s u ≡ true → before r u ≡ true
unfolding before
before_trans r s u h k = ground (arith, str_leb_trans r.id s.id u.id)

-- `r` stands in the table, meets the condition, and no row that does comes before it.
pub record IsFirst (p : Row → Bool) (t : List Row) (r : Row) : Type 0 where
  pub member : In r t
  pub meets : p r ≡ true
  pub least : All (λ s. p s ≡ true → before r s ≡ true) t

before-All :
    (p : Row → Bool) (r s : Row) (t : List Row)
    → before r s ≡ true
    → All (λ u. p u ≡ true → before s u ≡ true) t
    → All (λ u. p u ≡ true → before r u ≡ true) t
before-All p r s [] h a = tt
before-All p r s (u ∷ rs) h a = (λ e. before_trans r s u h (a.0 e), before-All p r s rs h a.1)

vacuous :
    (p : Row → Bool) (r : Row) (t : List Row)
    → All (λ u. p u ≡ false) t
    → All (λ u. p u ≡ true → before r u ≡ true) t
vacuous p r [] a = tt
vacuous p r (u ∷ rs) a = (λ e. cc (a.0), vacuous p r rs a.1)

abbrev pub Selects : (Row → Bool) → List Row → Option Row → Type 0
Selects p t none = All (λ r. p r ≡ false) t
Selects p t (some r) = IsFirst p t r

Selects-choose :
    (p : Row → Bool) (r : Row) (rs : List Row) (b : Bool) (o : Option Row)
    → p r ≡ b
    → Selects p rs o
    → Selects p (r ∷ rs) (choose b r o)
unfolding choose
Selects-choose p r rs false none e h = (e, h)
Selects-choose p r rs false (some s) e h = record {
  member = inr h.member;
  meets = h.meets;
  least = (λ k. cc (e), h.least);
}
Selects-choose p r rs true none e h = record {
  member = inl refl;
  meets = e;
  least = (λ k. before_refl r, vacuous p r rs h);
}
Selects-choose p r rs true (some s) e h = elim (Bool-cases (before r s)) [
  | inl b ↦ rw b (record {
    member = inl refl;
    meets = e;
    least = (λ k. before_refl r, before-All p r s rs b h.least);
  })
  | inr b ↦ rw b (record {
    member = inr h.member;
    meets = h.meets;
    least = (λ k. before_total r s b, h.least);
  })
]

-- ORDER BY … LIMIT 1 finds a first row of those that meet the condition, and none only if none does.
pub first_where-Selects : (p : Row → Bool) (t : List Row) → Selects p t (first_where p t)
unfolding first_where
first_where-Selects p [] = tt
first_where-Selects p (r ∷ rs) =
    Selects-choose p r rs (p r) (first_where p rs) refl (first_where-Selects p rs)
