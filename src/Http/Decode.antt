-- ===== src/Http/Decode.antt =====
-- What the handler of internal/httpapi/reward_claims.go reads of a request.
use game_rewards_service.Base.{
  Bool, false, not, ◌||◌, Option, none, some, List, [], ◌∷◌, all, ltb, ◌==◌, if◌then◌else◌, length,
  Result, ok, err, bind,
}
use game_rewards_service.Base.Text.{Bytes, bytes, str_eq, is_empty}
use game_rewards_service.Base.Text.Utf8.{chunks}
use game_rewards_service.Base.Text.Space.{trim_space}
use game_rewards_service.Http.{
  max_idempotency_key_length, max_reward_claim_body_bytes, CreateRewardClaimRequest, DecodeError,
  max_bytes, unknown_name, other_error, Response, error_response, HttpLibrary,
}

pub data KeyError : Type 0 where
  missing_key : KeyError
  invalid_key : KeyError

unfoldable pub validate_idempotency_key : Bytes → Result KeyError (Unit {0})
validate_idempotency_key value =
    if is_empty value
    then err invalid_key
    else if ltb max_idempotency_key_length (length value)
    then err invalid_key
    else if not (all (λ c. not (ltb c.rune 0x20 || c.rune == 0x7F)) (chunks value))
    then err invalid_key
    else ok tt

unfoldable pub read_idempotency_key : List Bytes → Result KeyError Bytes
unfolding validate_idempotency_key
read_idempotency_key [] = err missing_key
read_idempotency_key (v ∷ []) =
    bind (validate_idempotency_key (trim_space v)) (λ _. ok (trim_space v))
read_idempotency_key (v ∷ w ∷ vs) = err invalid_key

unfoldable pub is_json_content_type : HttpLibrary → Bytes → Bool
is_json_content_type lib value = elim (lib.parse_media_type value) [
  | none ↦ false
  | some t ↦ str_eq t (bytes "application/json")
]

unfoldable pub is_json_whitespace_only : Bytes → Bool
is_json_whitespace_only body = all (λ b. b == 0x20 || (b == 0x09 || (b == 0x0A || b == 0x0D))) body

unfoldable pub decode_error_response : DecodeError → Response
decode_error_response max_bytes =
    error_response 413 (bytes "request_body_too_large") (bytes "Request body is too large")
decode_error_response unknown_name =
    error_response 400 (bytes "invalid_request") (bytes "Request body contains an unknown field")
decode_error_response other_error =
    error_response 400 (bytes "invalid_json") (bytes "Request body must be valid JSON")

-- io.ReadAll of the reader that http.MaxBytesReader limits.
unfoldable pub read_all : Result DecodeError Bytes → Result DecodeError Bytes
read_all (err e) = err e
read_all (ok body) =
    if ltb max_reward_claim_body_bytes (length body) then err max_bytes else ok body

unfoldable pub unmarshalled :
    Result DecodeError (Option CreateRewardClaimRequest) → Result Response CreateRewardClaimRequest
unfolding decode_error_response
unmarshalled (err e) = err (decode_error_response e)
unmarshalled (ok none) =
    err
      (error_response 400 (bytes "invalid_json") (bytes "Request body must contain a JSON object"))
unmarshalled (ok (some req)) = ok req

unfoldable pub decode_body :
    HttpLibrary → Result DecodeError Bytes → Result Response CreateRewardClaimRequest
unfolding decode_error_response unmarshalled is_json_whitespace_only
decode_body lib (err e) = err (decode_error_response e)
decode_body lib (ok body) =
    if is_json_whitespace_only body
    then err (error_response 400 (bytes "invalid_json") (bytes "Request body is required"))
    else unmarshalled (lib.unmarshal body)

unfoldable pub decode_create_reward_claim_request :
    HttpLibrary → Result DecodeError Bytes → Result Response CreateRewardClaimRequest
unfolding read_all decode_body
decode_create_reward_claim_request lib body = decode_body lib (read_all body)
