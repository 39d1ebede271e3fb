-- ===== src/Http/Tests.antt =====
-- Concrete requests, on which the theorem about the handler is tried.
use game_rewards_service.Base.{ℕ, ◌+◌, ◌≡◌, ◌⊎◌, refl, true, false, none, some, [], ◌∷◌, ok}
use game_rewards_service.Base.Text.{bytes, str_eq}
use game_rewards_service.Base.Text.Utf8.{chunks}
use game_rewards_service.Base.Text.Space.{trim_space}
use game_rewards_service.Rewards.Claim.{CreateClaimCommand}
use game_rewards_service.Http.{Request, Response, error_response, raw_json, HttpLibrary, Creator}
use game_rewards_service.Http.Decode.{
  read_idempotency_key, is_json_content_type, decode_create_reward_claim_request,
}
use game_rewards_service.Http.Handler.{command, handle, respond}
use game_rewards_service.Http.Outcomes.{IsAccepted, is_rejection, handle-cases}

abbrev library : HttpLibrary
library = record {
  parse_media_type = λ value. some value;
  unmarshal = λ body.
      ok (some (record { player_id = body; campaign_id = bytes "summer"; reward_id = bytes "r1" }));
}

-- A service that counts its calls.
abbrev counting : Creator ℕ
counting cmd n = (
  ok (record { status_code = 201; response_body = cmd.idempotency_key; replayed = false }),
  n + 1,
)

abbrev request : Request
request = record {
  method = bytes "POST";
  idempotency_keys = bytes " k-1 " ∷ [];
  content_type = bytes "application/json";
  body = ok (bytes "p1");
  ctx_error = none;
}

abbrev two_keys : Request
two_keys = record request { idempotency_keys = bytes "k-1" ∷ bytes "k-2" ∷ [] }

handled : (handle library counting request 0).response ≡ raw_json 201 (bytes "k-1") false
unfolding handle command read_idempotency_key is_json_content_type
    decode_create_reward_claim_request trim_space str_eq chunks
handled = refl

refused : handle library counting two_keys 0 ≡ record {
  response =
      error_response 400
        (bytes "invalid_idempotency_key")
        (bytes "Idempotency-Key header is invalid");
  state = 0;
  observed = [];
  logged = [];
}
unfolding handle command read_idempotency_key str_eq
refused = refl

handle-cases_example :
    ((cmd : CreateClaimCommand) × IsAccepted library request cmd
      × (handle library counting request 0 ≡ respond request (counting cmd 0)))
    ⊎ ((x : Response) × (is_rejection x ≡ true)
        × (handle library counting request 0
            ≡ record { response = x; state = 0; observed = []; logged = [] }))
handle-cases_example = handle-cases library counting request 0
