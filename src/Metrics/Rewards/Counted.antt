-- ===== src/Metrics/Rewards/Counted.antt =====
-- What the counters of reward claims and of idempotency hold after any sequence of outcomes.
use game_rewards_service.Base.{
  ℕ, suc, ◌≡◌, refl, Bool, true, false, not, ◌&&◌, List, [], ◌∷◌, ◌++◌, arith, ◌==◌, if◌then◌else◌,
  length, Result, ok, err,
}
use game_rewards_service.Base.Text.{Bytes, bytes, str_eq}
use game_rewards_service.Errors.{Err, is, idempotency_key_reused}
use game_rewards_service.Rewards.Claim.{CreateClaimResult}
use game_rewards_service.Metrics.{Sample}
use game_rewards_service.Metrics.Rewards.{
  claims_sample, idempotency_sample, observe_reward_claim, map_claim_success,
  map_idempotency_success,
}

abbrev pub Outcome : Type 0
Outcome = Result Err CreateClaimResult

unfoldable pub recorded : List Outcome → List Sample
unfolding observe_reward_claim
recorded [] = []
recorded (o ∷ os) = observe_reward_claim true o ++ recorded os

unfoldable pub same_values : List Bytes → List Bytes → Bool
unfolding str_eq
same_values [] [] = true
same_values [] (y ∷ ys) = false
same_values (x ∷ xs) [] = false
same_values (x ∷ xs) (y ∷ ys) = str_eq x y && same_values xs ys

-- The counter of a series, and that of all series of a name.
unfoldable pub value_of : Sample → List Sample → ℕ
unfolding same_values str_eq
value_of p [] = 0
value_of p (q ∷ qs) =
    if str_eq p.name q.name && same_values p.values q.values
    then suc (value_of p qs)
    else value_of p qs

unfoldable pub total_of : Bytes → List Sample → ℕ
unfolding str_eq
total_of name [] = 0
total_of name (q ∷ qs) = if str_eq name q.name then suc (total_of name qs) else total_of name qs

unfoldable pub count_where : (Outcome → Bool) → List Outcome → ℕ
count_where p [] = 0
count_where p (o ∷ os) = if p o then suc (count_where p os) else count_where p os

abbrev pub is_created : Outcome → Bool
is_created (ok result) = not result.replayed && result.status_code == 201
is_created (err e) = false

abbrev pub is_replayed : Outcome → Bool
is_replayed (ok result) = result.replayed
is_replayed (err e) = false

abbrev pub is_reused : Outcome → Bool
is_reused (ok result) = false
is_reused (err e) = is e idempotency_key_reused

-- After any outcomes both counters have as many counts as there were outcomes; the claims that count
-- as created are those answered 201 and not replayed, the operations that count as replayed are the
-- replayed answers, and the reused keys count alike in both.
pub record IsCounted (os : List Outcome) (qs : List Sample) : Type 0 where
  pub claims : total_of (claims_sample []).name qs ≡ length os
  pub operations : total_of (idempotency_sample []).name qs ≡ length os
  pub created : value_of (claims_sample (bytes "created")) qs ≡ count_where is_created os
  pub replayed : value_of (idempotency_sample (bytes "replayed")) qs ≡ count_where is_replayed os
  pub reused :
      value_of (claims_sample (bytes "idempotency_key_reused")) qs ≡ count_where is_reused os
  pub reused_keys : value_of (idempotency_sample (bytes "key_reused")) qs ≡ count_where is_reused os

observe_reward_claim-IsCounted :
    (o : Outcome) (os : List Outcome) (qs : List Sample)
    → IsCounted os qs
    → IsCounted (o ∷ os) (observe_reward_claim true o ++ qs)
unfolding observe_reward_claim map_claim_success map_idempotency_success total_of value_of
    same_values str_eq count_where
observe_reward_claim-IsCounted (ok result) os qs h = ground arith
observe_reward_claim-IsCounted (err e) os qs h = ground arith

-- After any sequence of outcomes both counters have as many counts as there were outcomes; the
-- claims that count as created are those answered 201 and not replayed, the operations that count as
-- replayed are the replayed answers, and each counter counts a reused key as such.
pub recorded-IsCounted : (os : List Outcome) → IsCounted os (recorded os)
unfolding recorded total_of value_of count_where
recorded-IsCounted [] = record {
  claims = refl;
  operations = refl;
  created = refl;
  replayed = refl;
  reused = refl;
  reused_keys = refl;
}
recorded-IsCounted (o ∷ os) =
    observe_reward_claim-IsCounted o os (recorded os) (recorded-IsCounted os)
