-- ===== src/Outbox/Store/Totals.antt =====
-- Sums over the table of events, when one row is replaced.
use game_rewards_service.Base.{
  ℕ, ◌+◌, ◌≡◌, refl, sym, ap, ◌∙◌, true, false, some, List, [], ◌∷◌, inl, inr, arith, All,
  Bool-cases, subst,
}
use game_rewards_service.Base.Text.{Bytes, str_eq, str_eq_refl, eq_of_str_eq}
use game_rewards_service.Outbox.Row.{Row}
use game_rewards_service.Outbox.Store.Table.{
  find_row, find_row_other, ids, HasDistinctIds, str_eq_ne_sym,
}
use game_rewards_service.Outbox.Store.Claim.{In, find_row-In}
use game_rewards_service.Outbox.Store.Change.{In-find_row}

unfoldable pub total : (Row → ℕ) → List Row → ℕ
total g [] = 0
total g (r ∷ rs) = g r + total g rs

-- Tables whose rows agree but for the heads.
tails_agree :
    (j : Bytes) (q q' : Row) (qs qs' : List Row)
    → q'.id ≡ q.id
    → HasDistinctIds (q ∷ qs)
    → HasDistinctIds (q' ∷ qs')
    → (str_eq q.id j ≡ false → find_row j (q' ∷ qs') ≡ find_row j (q ∷ qs))
    → find_row j qs' ≡ find_row j qs
unfolding find_row
tails_agree j q q' qs qs' e d d' h = elim (Bool-cases (str_eq q.id j)) [
  | inl here ↦ find_row_other j q'.id qs' (rw e here) d'.0 ∙ sym (find_row_other j q.id qs here d.0)
  | inr other ↦ (let same = h other in ground (arith, e))
]

pub find_row-head : (q : Row) (qs : List Row) → find_row q.id (q ∷ qs) ≡ some q
unfolding find_row
find_row-head q qs = rw (str_eq_refl q.id)

head_is :
    (i : Bytes) (q r : Row) (qs : List Row)
    → str_eq q.id i ≡ true
    → find_row i (q ∷ qs) ≡ some r
    → q ≡ r
unfolding find_row
head_is i q r qs e h = ground arith

tail_is :
    (i : Bytes) (q : Row) (qs : List Row)
    → str_eq q.id i ≡ false
    → find_row i (q ∷ qs) ≡ find_row i qs
unfolding find_row
tail_is i q qs e = rw e

heads_agree :
    (q q' : Row) (qs qs' : List Row)
    → q'.id ≡ q.id
    → find_row q.id (q' ∷ qs') ≡ find_row q.id (q ∷ qs)
    → q' ≡ q
heads_agree q q' qs qs' e h =
    head_is q.id q' q qs' (rw e (str_eq_refl q.id)) (h ∙ find_row-head q qs)

ids_head : (q q' : Row) (qs qs' : List Row) → ids (q' ∷ qs') ≡ ids (q ∷ qs) → q'.id ≡ q.id
ids_head q q' qs qs' e = cc

ids_tail : (q q' : Row) (qs qs' : List Row) → ids (q' ∷ qs') ≡ ids (q ∷ qs) → ids qs' ≡ ids qs
ids_tail q q' qs qs' e = cc

no_row : (i : Bytes) (r : Row) → find_row i [] ≡ some r → ⊥
unfolding find_row
no_row i r h = cc

-- A table is its keys and what they find.
tables_agree :
    (t t' : List Row)
    → HasDistinctIds t
    → HasDistinctIds t'
    → ids t' ≡ ids t
    → ((j : Bytes) → find_row j t' ≡ find_row j t)
    → t' ≡ t
tables_agree [] [] d d' e h = refl
tables_agree [] (q' ∷ qs') d d' e h = cc
tables_agree (q ∷ qs) [] d d' e h = cc
tables_agree (q ∷ qs) (q' ∷ qs') d d' e h =
    let same = ids_head q q' qs qs' e in
    let head = heads_agree q q' qs qs' same (h q.id) in
    let tail =
      tables_agree qs qs' d.1 d'.1 (ids_tail q q' qs qs' e)
        (λ j. tails_agree j q q' qs qs' same d d' (λ other. h j)) in
    rw (head, tail)

module _ (g : Row → ℕ) (r r' : Row) where
  -- With one row replaced, the sums differ by what the row counts.
  pub total-replaced :
      (t t' : List Row)
      → HasDistinctIds t
      → HasDistinctIds t'
      → ids t' ≡ ids t
      → find_row r.id t ≡ some r
      → find_row r.id t' ≡ some r'
      → ((j : Bytes) → str_eq r.id j ≡ false → find_row j t' ≡ find_row j t)
      → total g t' + g r ≡ total g t + g r'
  unfolding total
  total-replaced [] [] d d' e h h' others = absurd (no_row r.id r h)
  total-replaced [] (q' ∷ qs') d d' e h h' others = cc
  total-replaced (q ∷ qs) [] d d' e h h' others = cc
  total-replaced (q ∷ qs) (q' ∷ qs') d d' e h h' others =
      let same = ids_head q q' qs qs' e in
      elim (Bool-cases (str_eq q.id r.id)) [
        | inl here ↦
            let head = head_is r.id q r qs here h in
            let head' = head_is r.id q' r' qs' (rw same here) h' in
            let tail = tables_agree qs qs' d.1 d'.1 (ids_tail q q' qs qs' e) (λ j.
              tails_agree j q q' qs qs' same d d'
                (λ other. others j (rw (eq_of_str_eq q.id r.id here) at other))) in
            rw (head, head', tail) (omega arith)
        | inr away ↦
            let head = heads_agree q q' qs qs' same (others q.id (str_eq_ne_sym q.id r.id away)) in
            let rest =
              total-replaced qs qs' d.1 d'.1 (ids_tail q q' qs qs' e)
                (sym (tail_is r.id q qs away) ∙ h) (sym (tail_is r.id q' qs' (rw same away)) ∙ h')
                (λ j apart. tails_agree j q q' qs qs' same d d' (λ other. others j apart)) in
            let counted = ap g head in omega arith
      ]

pub pick : (P : Row → Type 0) (r : Row) (t : List Row) → All P t → In r t → P r
pick P r [] a m = absurd m
pick P r (s ∷ rs) a (inl e) = rw e a.0
pick P r (s ∷ rs) a (inr m) = pick P r rs a.1 m

All-In : (P : Row → Type 0) (t : List Row) → ((q : Row) → In q t → P q) → All P t
All-In P [] h = tt
All-In P (q ∷ qs) h = (h q (inl refl), All-In P qs (λ s m. h s (inr m)))

-- What holds of the rows of a table and of the new row holds of the table with it.
pub All-replaced :
    (P : Row → Type 0) (r r' : Row) (t t' : List Row)
    → HasDistinctIds t'
    → find_row r.id t' ≡ some r'
    → ((j : Bytes) → str_eq r.id j ≡ false → find_row j t' ≡ find_row j t)
    → P r'
    → All P t
    → All P t'
All-replaced P r r' t t' d h others new old = All-In P t' (λ q m.
    let found = find_row-In q t' d m in
    elim (Bool-cases (str_eq r.id q.id)) [
      | inl here ↦
          let same : some q ≡ some r' =
            sym found ∙ (ap (λ i. find_row i t') (sym (eq_of_str_eq r.id q.id here)) ∙ h) in
          subst P (ground arith) new
      | inr away ↦ pick P q t old (In-find_row q.id t q (sym (others q.id away) ∙ found))
    ])
