-- ===== src/Web/Responses.antt =====
-- internal/httpapi/response.go: what the handlers write, as calls on the response writer.
use game_rewards_service.Base.{ℕ, true, false, Option, List, [], ◌∷◌}
use game_rewards_service.Base.Text.{Bytes, bytes}
use game_rewards_service.Web.{Call, set_header, write_header, write}
use game_rewards_service.Http.{Response, silent, method_not_allowed, error_response, raw_json}

-- json.Encoder.Encode of an error body by its code and message, of a status, and of a readiness
-- report; the host of net.SplitHostPort; http.Error; and the redirect of http.ServeMux from a path that is not
-- clean.
pub record WebLibrary : Type 0 where
  pub encode_error_body : Bytes → Bytes → Bytes
  pub encode_status : Bytes → Bytes
  pub encode_readiness : Bytes → List (Bytes × Bytes) → Bytes
  pub split_host : Bytes → Option Bytes
  pub http_error : Bytes → ℕ → List Call
  pub redirect : Bytes → Option (List Call)

-- writeJSON with an encoded body, and writeRawJSON
abbrev pub write_json : ℕ → Bytes → List Call
write_json status body =
    set_header (bytes "Content-Type") (bytes "application/json")
    ∷ write_header status
    ∷ write body
    ∷ []

abbrev pub write_error : WebLibrary → ℕ → Bytes → Bytes → List Call
write_error lib status code message = write_json status (lib.encode_error_body code message)

abbrev pub write_method_not_allowed : WebLibrary → Bytes → List Call
write_method_not_allowed lib allowed =
    set_header (bytes "Allow") allowed
    ∷ write_error lib 405 (bytes "method_not_allowed") (bytes "Method not allowed")

-- The response of the reward claims handler.
unfoldable pub response_calls : WebLibrary → Response → List Call
response_calls lib silent = []
response_calls lib (method_not_allowed allowed) = write_method_not_allowed lib allowed
response_calls lib (error_response status code message) = write_error lib status code message
response_calls lib (raw_json status body true) =
    set_header (bytes "Idempotent-Replayed") (bytes "true") ∷ write_json status body
response_calls lib (raw_json status body false) = write_json status body
