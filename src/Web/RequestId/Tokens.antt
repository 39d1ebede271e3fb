-- ===== src/Web/RequestId/Tokens.antt =====
-- Texts of allowed bytes are left alone by trimming, and so by sanitizeRequestID.
use game_rewards_service.Base.{
  ℕ, zero, ◌≤◌, ◌<◌, ◌≡◌, refl, Bool, true, false, ◌||◌, List, [], ◌∷◌, arith, ltb, Bool-cases, inl,
  inr, all, subst, length, All, take_all,
}
use game_rewards_service.Base.Text.{Bytes, is_empty}
use game_rewards_service.Base.Text.Hex.{IsByte, hex_encode, length-hex_encode, is_hex, all-is_hex}
use game_rewards_service.Base.Text.Space.{trim_space, trim_left_from, content_width, is_space}
use game_rewards_service.Base.Text.Utf8.{
  Chunk, chunks, decode_rune, decode_rune_ascii, ascii_of_rune, chunks_ascii, all-chunks_first,
}
use game_rewards_service.Web.RequestId.{
  max_request_id_len, is_allowed_request_id_rune, sanitize_request_id, new_request_id,
  request_id_for,
}

allowed-ascii : (b : ℕ) → is_allowed_request_id_rune b ≡ true → b < 128
allowed-ascii b h = ground arith

allowed-not_space : (b : ℕ) → is_allowed_request_id_rune b ≡ true → is_space b ≡ false
unfolding is_space
allowed-not_space b h = ground arith

abbrev allowed_chunk : Chunk → Bool
allowed_chunk c = is_allowed_request_id_rune c.rune

-- Runes that are allowed are bytes that are allowed.
allowed_bytes :
    (s : Bytes) → all allowed_chunk (chunks s) ≡ true → all is_allowed_request_id_rune s ≡ true
allowed_bytes [] h = refl
allowed_bytes (b ∷ bs) h =
    let first = all-chunks_first allowed_chunk b bs h in
    let ascii = ascii_of_rune b bs (allowed-ascii (decode_rune b bs).rune first) in
    let split : all allowed_chunk (record { rune = b; width = 1 } ∷ chunks bs) ≡ true =
      subst (λ cs. all allowed_chunk cs ≡ true) (chunks_ascii b bs ascii) h in
    ground (arith, allowed_bytes bs)

allowed_runes :
    (s : Bytes) → all is_allowed_request_id_rune s ≡ true → all allowed_chunk (chunks s) ≡ true
unfolding chunks
allowed_runes [] h = refl
allowed_runes (b ∷ bs) h =
    let first : is_allowed_request_id_rune b ≡ true = ground arith in
    rw (decode_rune_ascii b bs (allowed-ascii b first), first) (allowed_runes bs (ground arith))

trim_left-allowed :
    (s : Bytes) → all is_allowed_request_id_rune s ≡ true → trim_left_from zero s ≡ s
unfolding trim_left_from
trim_left-allowed [] h = refl
trim_left-allowed (b ∷ bs) h =
    let first : is_allowed_request_id_rune b ≡ true = ground arith in
    rw (decode_rune_ascii b bs (allowed-ascii b first), allowed-not_space b first)

content_width-allowed :
    (s : Bytes) → all is_allowed_request_id_rune s ≡ true → content_width (chunks s) ≡ length s
unfolding content_width chunks
content_width-allowed [] h = refl
content_width-allowed (b ∷ bs) h =
    let first : is_allowed_request_id_rune b ≡ true = ground arith in
    let rest : content_width (chunks bs) ≡ length bs = content_width-allowed bs (ground arith) in
    rw (decode_rune_ascii b bs (allowed-ascii b first), rest, allowed-not_space b first)
      (ground arith)

trim_space-allowed : (s : Bytes) → all is_allowed_request_id_rune s ≡ true → trim_space s ≡ s
unfolding trim_space
trim_space-allowed s h =
    rw (trim_left-allowed s h, content_width-allowed s h) (take_all (length s) s (omega arith))

named : (s : Bytes) → 0 < length s → is_empty s ≡ false
named [] h = absurd (omega arith)
named (b ∷ s) h = refl

-- An identifier that a response may carry.
pub record IsRequestId (s : Bytes) : Type 0 where
  pub nonempty : is_empty s ≡ false
  pub short : length s ≤ 128
  pub allowed : all is_allowed_request_id_rune s ≡ true
  -- Another server behind the same rules takes it over as it is.
  pub stable : sanitize_request_id s ≡ s

sanitize-allowed :
    (s : Bytes)
    → is_empty s ≡ false
    → length s ≤ 128
    → all is_allowed_request_id_rune s ≡ true
    → IsRequestId s
unfolding sanitize_request_id
sanitize-allowed s nonempty short allowed = record {
  nonempty = nonempty;
  short = short;
  allowed = allowed;
  stable = rw (trim_space-allowed s allowed, allowed_runes s allowed, nonempty) (ground arith);
}

hex-allowed : (c : ℕ) → is_hex c ≡ true → is_allowed_request_id_rune c ≡ true
hex-allowed c h = ground arith

all-allowed : (s : Bytes) → all is_hex s ≡ true → all is_allowed_request_id_rune s ≡ true
all-allowed [] h = refl
all-allowed (c ∷ cs) h = ground (arith, hex-allowed c, all-allowed cs)

new_request_id-IsRequestId :
    (random : List ℕ) → length random ≡ 16 → All IsByte random → IsRequestId (new_request_id random)
unfolding new_request_id
new_request_id-IsRequestId random sixteen valid =
    let long = length-hex_encode random in
    sanitize-allowed (hex_encode random) (named (hex_encode random) (omega arith)) (omega arith)
      (all-allowed (hex_encode random) (all-is_hex random valid))

sanitized-IsRequestId :
    (header : Bytes)
    → is_empty (sanitize_request_id header) ≡ false
    → IsRequestId (sanitize_request_id header)
unfolding sanitize_request_id
sanitized-IsRequestId header h =
    let value = trim_space header in
    elim (Bool-cases (is_empty value || ltb max_request_id_len (length value))) [
      | inl bad ↦ absurd (ground arith)
      | inr fits ↦ elim (Bool-cases (all allowed_chunk (chunks value))) [
        | inl good ↦
            rw (fits, good)
              (sanitize-allowed value (ground arith) (ground arith) (allowed_bytes value good))
        | inr bad ↦ absurd (ground arith)
      ]
    ]

-- Whatever a client sends, the identifier of a request is not empty, has at most 128 bytes, all of
-- them letters, digits or one of "-_.:", and passes the same check unchanged.
pub request_id_for-IsRequestId :
    (random : List ℕ) (header : Bytes)
    → length random ≡ 16
    → All IsByte random
    → IsRequestId (request_id_for random header)
unfolding request_id_for
request_id_for-IsRequestId random header sixteen valid =
    elim (Bool-cases (is_empty (sanitize_request_id header))) [
      | inl none_given ↦ rw (none_given) (new_request_id-IsRequestId random sixteen valid)
      | inr given ↦ rw (given) (sanitized-IsRequestId header given)
    ]
