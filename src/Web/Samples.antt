-- ===== src/Web/Samples.antt =====
-- Requests to the API and the libraries behind it, which the tests share.
use game_rewards_service.Base.{ℕ, false, none, some, List, [], ◌∷◌, ok}
use game_rewards_service.Base.Text.{Bytes, bytes}
use game_rewards_service.Errors.{sentinel, claims_internal}
use game_rewards_service.Http.{HttpLibrary}
use game_rewards_service.Web.{write_header, write, WebRequest}
use game_rewards_service.Web.Responses.{WebLibrary}
use game_rewards_service.Web.Health.{Check}
use game_rewards_service.Web.Router.{ClaimParts}

abbrev pub web : WebLibrary
web = record {
  encode_error_body = λ code message. code;
  encode_status = λ status. status;
  encode_readiness = λ status results. status;
  split_host = λ address. none;
  http_error = λ message code. write_header code ∷ write message ∷ [];
  redirect = λ path. none;
}

abbrev pub get : Bytes → WebRequest
get path = record {
  method = bytes "GET";
  path = path;
  header_request_id = bytes " abc-1 ";
  remote_addr = bytes "10.0.0.1";
  user_agent = bytes "curl";
  request_id = [];
  ctx_error = none;
}

abbrev pub post : WebRequest
post = record (get (bytes "/v1/reward-claims")) { method = bytes "POST" }

abbrev pub random : List ℕ
random = 0 ∷ 1 ∷ 2 ∷ 3 ∷ 250 ∷ 5 ∷ 6 ∷ 7 ∷ 8 ∷ 9 ∷ 10 ∷ 11 ∷ 12 ∷ 13 ∷ 14 ∷ 255 ∷ []

abbrev pub two_checks : List Check
two_checks =
    record { name = bytes "database"; is_nil = false; answer = some (sentinel claims_internal) }
    ∷ record { name = bytes "worker"; is_nil = false; answer = none }
    ∷ []

abbrev pub json : HttpLibrary
json = record {
  parse_media_type = λ value. some value;
  unmarshal = λ body.
      ok (some (record { player_id = body; campaign_id = bytes "summer"; reward_id = bytes "r1" }));
}

abbrev pub parts : ClaimParts
parts = record {
  idempotency_keys = bytes "k-1" ∷ [];
  content_type = bytes "application/json";
  body = ok (bytes "p1");
}
