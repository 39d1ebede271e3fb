-- ===== src/Web/Router/Again.antt =====
-- A reward claim that is sent to the API twice, from the router to the tables.
use game_rewards_service.Base.{
  ℕ, ◌≡◌, refl, sym, ap, ◌∙◌, subst, Bool, true, false, Option, none, List, [], ok,
}
use game_rewards_service.Base.Text.{Bytes, bytes, str_eq, is_empty}
use game_rewards_service.Postgres.{Driver}
use game_rewards_service.Rewards.Claim.{CreateClaimCommand, CreateClaimParams, Library}
use game_rewards_service.Rewards.Validate.{prepare_create_claim}
use game_rewards_service.Rewards.Tables.{Db}
use game_rewards_service.Rewards.Transaction.{Turn}
use game_rewards_service.Rewards.Create.{Fresh}
use game_rewards_service.Rewards.Create.Linked.{IsJson, IsLinked}
use game_rewards_service.Rewards.Create.Traffic.{IsTraffic, AreTraffic}
use game_rewards_service.Rewards.Create.Kept.{of_key}
use game_rewards_service.Rewards.Service.{claim_service}
use game_rewards_service.Http.{raw_json, HttpLibrary}
use game_rewards_service.Http.Handler.{command, handle}
use game_rewards_service.Http.Again.{answer_again, handle_again}
use game_rewards_service.Web.{Reply, WebRequest}
use game_rewards_service.Web.Responses.{WebLibrary}
use game_rewards_service.Web.Health.{Check}
use game_rewards_service.Web.Middleware.{Served}
use game_rewards_service.Web.Router.{ClaimParts, claim_request, claims_handler, new_router}
use game_rewards_service.Web.Router.Reach.{sent, served-sent}

module _ (wlib : WebLibrary) (hlib : HttpLibrary) (metrics : Option (WebRequest → Reply))
    (checks : List Check) (observer : Bool) (lib : Library) (d : Driver) where
  -- A request to the API over the tables, with what createClaim meets.
  abbrev pub api : Fresh → List Turn → List ℕ → ClaimParts → WebRequest → Db → Served Db
  api fresh turns random parts r db =
      new_router wlib random observer metrics checks
        (claims_handler wlib hlib (claim_service lib d fresh turns) parts) r db

  -- On linked tables, a reward claim that the API's handler answers for the first time with a raw
  -- response is answered with the same status and body, marked as replayed, when it is sent again,
  -- whatever requests and clean-ups that spare its key run beside it and between; a claim of another
  -- reward with its key is answered 409 with the code idempotency_key_reused. What reaches the client
  -- is the request identifier and this response, and the tables stay as they are. The later request
  -- is alone, and its client waits; the encoder gives JSON, and the new claim's identifier is not
  -- empty.
  pub new_router_again :
      (json : IsJson lib) (fresh later : Fresh) (turns : List Turn) (db : Db)
      (random random' : List ℕ) (parts parts' : ClaimParts) (first second : WebRequest)
      (cmd cmd' : CreateClaimCommand) (p q : CreateClaimParams) (status : ℕ) (body : Bytes)
      (f : Db → Db)
      → IsLinked lib db
      → is_empty fresh.claim_id ≡ false
      → AreTraffic lib d (of_key p.key_hash) turns
      → str_eq first.path (bytes "/v1/reward-claims") ≡ true
      → command hlib (claim_request parts first) ≡ ok cmd
      → prepare_create_claim lib cmd ≡ ok p
      → (handle hlib (claim_service lib d fresh turns) (claim_request parts first) db).response
        ≡ raw_json status body false
      → IsTraffic lib d (of_key p.key_hash) f
      → str_eq second.path (bytes "/v1/reward-claims") ≡ true
      → command hlib (claim_request parts' second) ≡ ok cmd'
      → second.ctx_error ≡ none
      → prepare_create_claim lib cmd' ≡ ok q
      → q.key_hash ≡ p.key_hash
      → let after = f (api fresh turns random parts first db).state in
        ((api later [] random' parts' second after).calls
          ≡ sent wlib random' second (answer_again hlib p q status body))
        × ((api later [] random' parts' second after).state ≡ after)
  new_router_again json fresh later turns db random random' parts parts' first second cmd cmd' p q
        status body f v named beside path1 c1 p1 answered t path2 c2 waits p2 key =
      let service1 = claim_service lib d fresh turns in
      let service2 = claim_service lib d later [] in
      let h1 = handle hlib service1 (claim_request parts first) db in
      let (left, _) =
        served-sent wlib hlib service1 parts metrics checks random observer first db h1 path1
          refl in
      let h2 = handle hlib service2 (claim_request parts' second) (f h1.state) in
      let (state, calls) =
        served-sent wlib hlib service2 parts' metrics checks random' observer second (f h1.state) h2
          path2 refl in
      let (response, same) =
        handle_again hlib lib d json fresh later turns db (claim_request parts first)
          (claim_request parts' second) cmd cmd' p q status body f v named beside c1 p1 answered t
          c2 waits p2 key in
      subst
        (λ x.
          ((api later [] random' parts' second (f x)).calls
            ≡ sent wlib random' second (answer_again hlib p q status body))
          × ((api later [] random' parts' second (f x)).state ≡ f x))
        (sym left) (calls ∙ ap (sent wlib random' second) response, state ∙ same)
