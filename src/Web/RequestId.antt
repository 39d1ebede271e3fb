-- ===== src/Web/RequestId.antt =====
-- The request identifiers of internal/httpapi/middleware.go.
pub mod Tokens
use game_rewards_service.Base.{
  ℕ, zero, suc, ◌+◌, ◌-◌, ◌≤◌, ◌<◌, ◌≡◌, refl, Bool, true, false, not, ◌&&◌, ◌||◌, List, [], ◌∷◌,
  arith, ltb, leb, ◌==◌, if◌then◌else◌, Bool-cases, inl, inr, all, length, take, All, take_all,
}
use game_rewards_service.Base.Text.{Bytes, is_empty}
use game_rewards_service.Base.Text.Hex.{IsByte, hex_encode, length-hex_encode, is_hex, all-is_hex}
use game_rewards_service.Base.Text.Space.{trim_space, is_space, length-trim_space-le}
use game_rewards_service.Base.Text.Utf8.{Chunk, chunks, decode_rune}

abbrev pub max_request_id_len : ℕ
max_request_id_len = 128

abbrev pub is_allowed_request_id_rune : ℕ → Bool
is_allowed_request_id_rune r =
    (leb 97 r && leb r 122)
    || ((leb 65 r && leb r 90)
        || ((leb 48 r && leb r 57) || (r == 45 || (r == 95 || (r == 46 || r == 58)))))

unfoldable pub sanitize_request_id : Bytes → Bytes
sanitize_request_id header =
    let value = trim_space header in
    if is_empty value || ltb max_request_id_len (length value)
    then []
    else if all (λ c. is_allowed_request_id_rune c.rune) (chunks value)
    then value
    else []

-- newRequestID, over the sixteen bytes that crypto/rand gives
unfoldable pub new_request_id : List ℕ → Bytes
new_request_id random = hex_encode random

-- The identifier that requestID puts on the response and into the context.
unfoldable pub request_id_for : List ℕ → Bytes → Bytes
unfolding sanitize_request_id new_request_id
request_id_for random header =
    let requested = sanitize_request_id header in
    if is_empty requested then new_request_id random else requested
