-- ===== src/Rewards/Service.antt =====
-- Service of internal/rewards/service.go.
use game_rewards_service.Base.{
  ℕ, suc, ◌≡◌, refl, sym, ap, ◌∙◌, Bool, not, Option, none, some, List, length, Result, ok, err,
  if◌then◌else◌,
}
use game_rewards_service.Base.Int.{ℤ, pos, leb_ℤ}
use game_rewards_service.Errors.{Err, message, wrap}
use game_rewards_service.Postgres.{Driver}
use game_rewards_service.Rewards.Claim.{
  CreateClaimCommand, CreateClaimParams, CreateClaimResult, Library,
}
use game_rewards_service.Rewards.Validate.{prepare_create_claim}
use game_rewards_service.Rewards.Tables.{Db}
use game_rewards_service.Rewards.Transaction.{Turn}
use game_rewards_service.Rewards.Create.{Fresh, create_claim}

-- The first argument says whether a pool is given; the service is its query timeout.
unfoldable pub new_service : Bool → ℤ → Result Err ℤ
new_service has_pool query_timeout =
    if not has_pool
    then err (message "reward claim pool is required")
    else if leb_ℤ query_timeout (pos 0)
    then err (message "reward claim query timeout must be greater than zero")
    else ok query_timeout

wrapped : Result Err (Option CreateClaimResult) × Db → Result Err (Option CreateClaimResult) × Db
wrapped (ok r, db) = (ok r, db)
wrapped (err e, db) = (err (wrap "create reward claim" e), db)

prepared :
    Library
    → Driver
    → ℕ
    → Fresh
    → List Turn
    → Db
    → Result Err CreateClaimParams
    → Result Err (Option CreateClaimResult) × Db
unfolding wrapped
prepared lib d rounds fresh turns db (err e) = (err e, db)
prepared lib d rounds fresh turns db (ok p) = wrapped (create_claim lib d p rounds fresh turns db)

-- CreateClaim; `none` means that the fuel of the reservation loop ran out.
unfoldable pub serve :
    Library
    → Driver
    → ℕ
    → Fresh
    → List Turn
    → Db
    → CreateClaimCommand
    → Result Err (Option CreateClaimResult) × Db
unfolding prepared
serve lib d rounds fresh turns db cmd =
    prepared lib d rounds fresh turns db (prepare_create_claim lib cmd)

ended : Result Err (Option CreateClaimResult) × Db → Result Err CreateClaimResult × Db
ended (err e, db) = (err e, db)
ended (ok (some r), db) = (ok r, db)
ended (ok none, db) = (err (message "the fuel ran out"), db)

-- CreateClaim with more fuel than turns, so that it does not run out.
unfoldable pub claim_service :
    Library
    → Driver
    → Fresh
    → List Turn
    → CreateClaimCommand
    → Db
    → Result Err CreateClaimResult × Db
unfolding ended
claim_service lib d fresh turns cmd db = ended (serve lib d (suc (length turns)) fresh turns db cmd)

ended-state : (x : Result Err (Option CreateClaimResult) × Db) → (ended (wrapped x)).1 ≡ x.1
unfolding ended wrapped
ended-state (err e, db) = refl
ended-state (ok (some r), db) = refl
ended-state (ok none, db) = refl

ended-ok :
    (x : Result Err (Option CreateClaimResult) × Db) (r : CreateClaimResult)
    → (ended (wrapped x)).0 ≡ ok r
    → x.0 ≡ ok (some r)
unfolding ended wrapped
ended-ok (err e, db) r h = cc
ended-ok (ok (some s), db) r h = cc
ended-ok (ok none, db) r h = cc

module _ (lib : Library) (d : Driver) (fresh : Fresh) (turns : List Turn) (cmd : CreateClaimCommand)
    (p : CreateClaimParams) (db : Db) (is_prepared : prepare_create_claim lib cmd ≡ ok p) where
  abbrev claimed : Result Err (Option CreateClaimResult) × Db
  claimed = create_claim lib d p (suc (length turns)) fresh turns db

  claim_service-claimed : claim_service lib d fresh turns cmd db ≡ ended (wrapped claimed)
  unfolding claim_service serve prepared
  claim_service-claimed = rw is_prepared

  pub claim_service-state : (claim_service lib d fresh turns cmd db).1 ≡ claimed.1
  claim_service-state = ap (λ x. x.1) claim_service-claimed ∙ ended-state claimed

  pub claim_service-ok :
      (r : CreateClaimResult)
      → (claim_service lib d fresh turns cmd db).0 ≡ ok r
      → claimed.0 ≡ ok (some r)
  claim_service-ok r h = ended-ok claimed r (sym (ap (λ x. x.0) claim_service-claimed) ∙ h)

  -- What the service answers once createClaim has.
  pub claim_service-answers :
      (r : CreateClaimResult) (after : Db)
      → claimed ≡ (ok (some r), after)
      → claim_service lib d fresh turns cmd db ≡ (ok r, after)
  unfolding wrapped ended
  claim_service-answers r after h = rw (claim_service-claimed, h)

  pub claim_service-fails :
      (e : Err) (after : Db)
      → claimed ≡ (err e, after)
      → claim_service lib d fresh turns cmd db ≡ (err (wrap "create reward claim" e), after)
  unfolding wrapped ended
  claim_service-fails e after h = rw (claim_service-claimed, h)
