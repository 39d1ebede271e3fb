-- ===== src/Http/Outcomes.antt =====
-- Which requests reach the service, and what the others are answered.
use game_rewards_service.Base.{
  ◌≤◌, ◌≡◌, ◌⊎◌, inl, inr, refl, sym, Bool, true, false, ◌||◌, Option, none, some, List, [], ◌∷◌,
  arith, ◌==◌, length, Result, ok, err, bind, bind-eq-ok, ok-injective, Result-cases, Bool-cases,
}
use game_rewards_service.Base.Text.{Bytes, bytes, str_eq, str_eq_refl}
use game_rewards_service.Base.Text.Space.{trim_space}
use game_rewards_service.Rewards.Claim.{CreateClaimCommand}
use game_rewards_service.Rewards.Validate.{IsIdempotencyKey}
use game_rewards_service.Http.{
  CreateRewardClaimRequest, DecodeError, max_bytes, unknown_name, other_error, Request, Response,
  silent, method_not_allowed, error_response, raw_json, HttpLibrary, Creator,
  max_reward_claim_body_bytes,
}
use game_rewards_service.Http.Decode.{
  missing_key, invalid_key, validate_idempotency_key, read_idempotency_key, is_json_content_type,
  read_all, unmarshalled, decode_body, decode_create_reward_claim_request, decode_error_response,
  is_json_whitespace_only,
}
use game_rewards_service.Http.Handler.{
  command, check_method, check_key, check_media, handle, respond, key_error_response,
}

-- A response to a request that does not reach the service.
abbrev pub is_rejection : Response → Bool
is_rejection silent = false
is_rejection (method_not_allowed m) = str_eq m (bytes "POST")
is_rejection (error_response status code message) =
    status == 400 || (status == 413 || status == 415)
is_rejection (raw_json status body replayed) = false

pub record IsAccepted (lib : HttpLibrary) (r : Request) (cmd : CreateClaimCommand) : Type 0 where
  pub post : str_eq r.method (bytes "POST") ≡ true
  pub one_key : (v : Bytes) × (r.idempotency_keys ≡ v ∷ []) × (cmd.idempotency_key ≡ trim_space v)
  pub valid_key : IsIdempotencyKey cmd.idempotency_key
  pub json : is_json_content_type lib r.content_type ≡ true
  pub bounded : (body : Bytes) × (r.body ≡ ok body) × (length body ≤ max_reward_claim_body_bytes)

valid_key-lem : (v : Bytes) → validate_idempotency_key v ≡ ok tt → IsIdempotencyKey v
unfolding validate_idempotency_key
valid_key-lem v h = record {
  nonempty = ground arith;
  short = ground arith;
  printable = ground arith;
}

read_key-lem :
    (vs : List Bytes) (k : Bytes)
    → read_idempotency_key vs ≡ ok k
    → ((v : Bytes) × (vs ≡ v ∷ []) × (k ≡ trim_space v)) × IsIdempotencyKey k
unfolding read_idempotency_key
read_key-lem [] k h = cc
read_key-lem (v ∷ w ∷ vs) k h = cc
read_key-lem (v ∷ []) k h =
    let (u, valid, same) = bind-eq-ok (validate_idempotency_key (trim_space v)) h in
    (
      (v, refl, sym (ok-injective same)),
      rw (sym (ok-injective same)) (valid_key-lem (trim_space v) valid),
    )

err-injective : {A : Type 0} {x y : Response} → ◌≡◌ {A = Result Response A} (err x) (err y) → x ≡ y
err-injective h = cc

bind-eq-err :
    {A B : Type 0} (o : Result Response A) {rest : A → Result Response B} {x : Response}
    → bind o rest ≡ err x
    → (o ≡ err x) ⊎ ((a : A) × (o ≡ ok a) × (rest a ≡ err x))
bind-eq-err (err e) h = inl (rw (err-injective h))
bind-eq-err (ok a) h = inr (a, refl, h)

module _ (lib : HttpLibrary) where
  decode-bounded :
      (b : Result DecodeError Bytes) (req : CreateRewardClaimRequest)
      → decode_create_reward_claim_request lib b ≡ ok req
      → (body : Bytes) × (b ≡ ok body) × (length body ≤ max_reward_claim_body_bytes)
  unfolding decode_create_reward_claim_request read_all
  decode-bounded (err e) req h = cc
  decode-bounded (ok body) req h = (body, refl, ground arith)

  decode_error-rejects : (e : DecodeError) → is_rejection (decode_error_response e) ≡ true
  unfolding decode_error_response
  decode_error-rejects max_bytes = refl
  decode_error-rejects unknown_name = refl
  decode_error-rejects other_error = refl

  unmarshalled-rejects :
      (o : Result DecodeError (Option CreateRewardClaimRequest)) (x : Response)
      → unmarshalled o ≡ err x
      → is_rejection x ≡ true
  unfolding unmarshalled
  unmarshalled-rejects (err e) x h = rw (sym (err-injective h)) (decode_error-rejects e)
  unmarshalled-rejects (ok none) x h = rw (sym (err-injective h))
  unmarshalled-rejects (ok (some req)) x h = cc

  decode_body-rejects :
      (b : Result DecodeError Bytes) (x : Response)
      → decode_body lib b ≡ err x
      → is_rejection x ≡ true
  unfolding decode_body
  decode_body-rejects (err e) x h = rw (sym (err-injective h)) (decode_error-rejects e)
  decode_body-rejects (ok body) x h = elim (Bool-cases (is_json_whitespace_only body)) [
    | inl blank ↦ ground arith
    | inr full ↦ unmarshalled-rejects (lib.unmarshal body) x (ground arith)
  ]

  key-rejects : (r : Request) (x : Response) → check_key r ≡ err x → is_rejection x ≡ true
  unfolding check_key key_error_response
  key-rejects r x h = elim (Result-cases (read_idempotency_key r.idempotency_keys)) [
    | inl (k, e) ↦ ground arith
    | inr (missing_key, e) ↦ ground arith
    | inr (invalid_key, e) ↦ ground arith
  ]

  method-rejects : (r : Request) (x : Response) → check_method r ≡ err x → is_rejection x ≡ true
  unfolding check_method
  method-rejects r x h =
      let same = str_eq_refl (bytes "POST") in
      elim (Bool-cases (str_eq r.method (bytes "POST"))) [
        | inl post ↦ ground arith
        | inr other ↦ ground arith
      ]

  media-rejects : (r : Request) (x : Response) → check_media lib r ≡ err x → is_rejection x ≡ true
  unfolding check_media
  media-rejects r x h = ground arith

  body-rejects :
      (r : Request) (x : Response)
      → decode_create_reward_claim_request lib r.body ≡ err x
      → is_rejection x ≡ true
  unfolding decode_create_reward_claim_request
  body-rejects r x h = decode_body-rejects (read_all r.body) x h

  command-rejects : (r : Request) (x : Response) → command lib r ≡ err x → is_rejection x ≡ true
  unfolding command
  command-rejects r x h = elim (bind-eq-err (check_method r) h) [
    | inl e ↦ method-rejects r x e
    | inr (u, posted, h1) ↦ elim (bind-eq-err (check_key r) h1) [
      | inl e ↦ key-rejects r x e
      | inr (k, keyed, h2) ↦ elim (bind-eq-err (check_media lib r) h2) [
        | inl e ↦ media-rejects r x e
        | inr (w, typed, h3) ↦
            elim (bind-eq-err (decode_create_reward_claim_request lib r.body) h3) [
              | inl e ↦ body-rejects r x e
              | inr (req, decoded, h4) ↦ cc
            ]
      ]
    ]
  ]

  check_key-lem :
      (r : Request) (k : Bytes)
      → check_key r ≡ ok k
      → read_idempotency_key r.idempotency_keys ≡ ok k
  unfolding check_key
  check_key-lem r k h = ground arith

  command-IsAccepted :
      (r : Request) (cmd : CreateClaimCommand) → command lib r ≡ ok cmd → IsAccepted lib r cmd
  unfolding command check_method check_media
  command-IsAccepted r cmd h =
      let (u, posted, h1) = bind-eq-ok (check_method r) h in
      let (k, keyed, h2) = bind-eq-ok (check_key r) h1 in
      let (w, typed, h3) = bind-eq-ok (check_media lib r) h2 in
      let (req, decoded, h4) = bind-eq-ok (decode_create_reward_claim_request lib r.body) h3 in
      let (one, valid) = read_key-lem r.idempotency_keys k (check_key-lem r k keyed) in
      rw (sym (ok-injective h4)) (record {
        post = ground arith;
        one_key = one;
        valid_key = valid;
        json = ground arith;
        bounded = decode-bounded r.body req decoded;
      })

  -- Either the request is a POST with exactly one valid idempotency key, JSON content and a body of
  -- at most 64 KiB, and the handler answers what the service says; or the service is not called,
  -- nothing is observed or logged, and the answer is 405, 400, 413 or 415.
  pub handle-cases :
      {S : Type 0} (service : Creator S) (r : Request) (s : S)
      → ((cmd : CreateClaimCommand) × IsAccepted lib r cmd
          × (handle lib service r s ≡ respond r (service cmd s)))
        ⊎ ((x : Response) × (is_rejection x ≡ true)
            × (handle lib service r s
                ≡ record { response = x; state = s; observed = []; logged = [] }))
  unfolding handle
  handle-cases service r s = elim (Result-cases (command lib r)) [
    | inl (cmd, e) ↦ inl (cmd, command-IsAccepted r cmd e, rw (handle, e))
    | inr (x, e) ↦ inr (x, command-rejects r x e, rw (handle, e))
  ]
