-- ===== src/Rewards/Validate.antt =====
-- The validation of a claim command in internal/rewards/service.go.
use game_rewards_service.Base.{
  ℕ, ◌≤◌, ◌≡◌, sym, Bool, true, false, not, ◌||◌, ◌++◌, arith, ltb, ◌==◌, if◌then◌else◌, all,
  length, Result, ok, err, ◌>>◌, bind-eq-ok, ok-injective, ◌↔◌,
}
use game_rewards_service.Base.Text.{Bytes, bytes, is_empty}
use game_rewards_service.Base.Text.Utf8.{chunks, valid_string, rune_count}
use game_rewards_service.Base.Text.Space.{trim_space}
use game_rewards_service.Errors.{Err, invalid_input}
use game_rewards_service.Rewards.Claim.{
  CreateClaimCommand, CreateClaimParams, Library, max_id_length, max_idempotency_key_length,
}

-- strings.ContainsRune(value, '\x00')
abbrev pub has_nul : Bytes → Bool
has_nul s = not (all (λ c. not (c.rune == 0)) (chunks s))

-- A rune of an idempotency key that is refused.
abbrev pub is_control : ℕ → Bool
is_control r = ltb r 0x20 || r == 0x7F

unfoldable pub validate_claim_id : Bytes → Bytes → Result Err (Unit {0})
validate_claim_id field value =
    if is_empty value
    then err (invalid_input (field ++ bytes " is required"))
    else if not (valid_string value)
    then err (invalid_input (field ++ bytes " must be valid UTF-8"))
    else if has_nul value
    then err (invalid_input (field ++ bytes " must not contain NUL characters"))
    else if ltb max_id_length (rune_count value)
    then err (invalid_input (field ++ bytes " must be at most 128 characters"))
    else ok tt

unfoldable pub validate_idempotency_key : Bytes → Result Err (Unit {0})
validate_idempotency_key key =
    if is_empty key
    then err (invalid_input (bytes "idempotency key is required"))
    else if ltb max_idempotency_key_length (length key)
    then err (invalid_input (bytes "idempotency key is invalid"))
    else if not (all (λ c. not (is_control c.rune)) (chunks key))
    then err (invalid_input (bytes "idempotency key is invalid"))
    else ok tt

unfoldable pub validate_create_claim_command : CreateClaimCommand → Result Err (Unit {0})
validate_create_claim_command cmd = do
  validate_claim_id (bytes "player_id") cmd.player_id
  validate_claim_id (bytes "campaign_id") cmd.campaign_id
  validate_claim_id (bytes "reward_id") cmd.reward_id
  validate_idempotency_key cmd.idempotency_key

abbrev pub trimmed : CreateClaimCommand → CreateClaimCommand
trimmed cmd = record {
  player_id = trim_space cmd.player_id;
  campaign_id = trim_space cmd.campaign_id;
  reward_id = trim_space cmd.reward_id;
  idempotency_key = trim_space cmd.idempotency_key;
}

unfoldable pub prepare_create_claim : Library → CreateClaimCommand → Result Err CreateClaimParams
prepare_create_claim lib cmd = do
  validate_create_claim_command (trimmed cmd)
  ok (record {
    player_id = trim_space cmd.player_id;
    campaign_id = trim_space cmd.campaign_id;
    reward_id = trim_space cmd.reward_id;
    key_hash = lib.sha256 (trim_space cmd.idempotency_key);
  })

-- An identifier within the constraints of its columns.
pub record IsClaimId (s : Bytes) : Type 0 where
  pub utf8 : valid_string s ≡ true
  pub no_nul : has_nul s ≡ false
  pub nonempty : is_empty s ≡ false
  pub short : rune_count s ≤ 128

pub record IsIdempotencyKey (s : Bytes) : Type 0 where
  pub nonempty : is_empty s ≡ false
  pub short : length s ≤ 255
  pub printable : all (λ c. not (is_control c.rune)) (chunks s) ≡ true

validate_claim_id_iff : (field s : Bytes) → (validate_claim_id field s ≡ ok tt) ↔ IsClaimId s
unfolding validate_claim_id
validate_claim_id_iff field s = (
  λ h. record {
    utf8 = ground arith;
    no_nul = ground arith;
    nonempty = ground arith;
    short = ground arith;
  },
  λ v. ground arith,
)

validate_idempotency_key_iff :
    (s : Bytes) → (validate_idempotency_key s ≡ ok tt) ↔ IsIdempotencyKey s
unfolding validate_idempotency_key
validate_idempotency_key_iff s = (
  λ h. record { nonempty = ground arith; short = ground arith; printable = ground arith },
  λ v. ground arith,
)

pub record IsCommand (cmd : CreateClaimCommand) : Type 0 where
  pub player : IsClaimId cmd.player_id
  pub campaign : IsClaimId cmd.campaign_id
  pub reward : IsClaimId cmd.reward_id
  pub key : IsIdempotencyKey cmd.idempotency_key

validate-IsCommand :
    (cmd : CreateClaimCommand) → validate_create_claim_command cmd ≡ ok tt → IsCommand cmd
unfolding validate_create_claim_command
validate-IsCommand cmd h =
    let (u, player, h1) = bind-eq-ok (validate_claim_id (bytes "player_id") cmd.player_id) h in
    let (v, campaign, h2) =
      bind-eq-ok (validate_claim_id (bytes "campaign_id") cmd.campaign_id) h1 in
    let (w, reward, key) = bind-eq-ok (validate_claim_id (bytes "reward_id") cmd.reward_id) h2 in
    record {
      player = (validate_claim_id_iff _ _).0 player;
      campaign = (validate_claim_id_iff _ _).0 campaign;
      reward = (validate_claim_id_iff _ _).0 reward;
      key = (validate_idempotency_key_iff _).0 key;
    }

IsCommand-validate :
    (cmd : CreateClaimCommand) → IsCommand cmd → validate_create_claim_command cmd ≡ ok tt
unfolding validate_create_claim_command
IsCommand-validate cmd v = rw (
  (validate_claim_id_iff (bytes "player_id") cmd.player_id).1 v.player,
  (validate_claim_id_iff (bytes "campaign_id") cmd.campaign_id).1 v.campaign,
  (validate_claim_id_iff (bytes "reward_id") cmd.reward_id).1 v.reward,
  (validate_idempotency_key_iff cmd.idempotency_key).1 v.key,
)

abbrev pub params_of : Library → CreateClaimCommand → CreateClaimParams
params_of lib cmd = record {
  player_id = cmd.player_id;
  campaign_id = cmd.campaign_id;
  reward_id = cmd.reward_id;
  key_hash = lib.sha256 cmd.idempotency_key;
}

-- A command is accepted exactly when its trimmed identifiers are non-empty, valid UTF-8, free of NUL
-- and of at most 128 runes, and its trimmed key is non-empty, of at most 255 bytes and free of
-- control characters; the parameters are then those texts and the hash of the key.
pub prepare_create_claim_iff :
    (lib : Library) (cmd : CreateClaimCommand) (p : CreateClaimParams)
    → (prepare_create_claim lib cmd ≡ ok p)
      ↔ (IsCommand (trimmed cmd) × (p ≡ params_of lib (trimmed cmd)))
unfolding prepare_create_claim
prepare_create_claim_iff lib cmd p = (
  λ h.
      let (u, valid, same) = bind-eq-ok (validate_create_claim_command (trimmed cmd)) h in
      (validate-IsCommand (trimmed cmd) valid, sym (ok-injective same)),
  λ v. rw (IsCommand-validate (trimmed cmd) v.0, v.1),
)
