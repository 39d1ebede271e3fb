-- ===== src/Config/Values.antt =====
-- The values of single variables in internal/config/config.go.
use game_rewards_service.Base.{
  ◌≡◌, ◌||◌, Option, none, some, arith, if◌then◌else◌, Result, ok, err, bind, bind-eq-ok,
  ok-injective, sym,
}
use game_rewards_service.Base.Int.{ℤ, pos, leb_ℤ, ◌<ℤ◌, ◌≤ℤ◌, max_int64}
use game_rewards_service.Base.Text.{Bytes, bytes, str_eq, is_empty}
use game_rewards_service.Base.Text.Space.{trim_space}
use game_rewards_service.Errors.{Err}
use game_rewards_service.Config.{
  Lookup, Parsers, ConfigError, must_not_be_empty, malformed, must_be_positive, unsupported_level,
  Level, debug, info, warn, error,
}

-- The value of a variable that is set.
trimmed_value : Bytes → Bytes → Result ConfigError Bytes
trimmed_value key v =
    if is_empty (trim_space v) then err (must_not_be_empty key) else ok (trim_space v)

parsed : Bytes → Result Err ℤ → Result ConfigError ℤ
parsed key (err e) = err (malformed key e)
parsed key (ok n) = if leb_ℤ n (pos 0) then err (must_be_positive key) else ok n

unfoldable pub get_string : Lookup → Bytes → Bytes → Result ConfigError Bytes
unfolding trimmed_value
get_string lookup key default_value = elim (lookup key) [
  | none ↦ ok default_value
  | some v ↦ trimmed_value key v
]

unfoldable pub get_duration : Parsers → Lookup → Bytes → ℤ → Result ConfigError ℤ
unfolding trimmed_value parsed
get_duration lib lookup key default_value = elim (lookup key) [
  | none ↦ ok default_value
  | some v ↦ bind (trimmed_value key v) (λ s. parsed key (lib.parse_duration s))
]

unfoldable pub get_int : Parsers → Lookup → Bytes → ℤ → Result ConfigError ℤ
unfolding trimmed_value parsed
get_int lib lookup key default_value = elim (lookup key) [
  | none ↦ ok default_value
  | some v ↦ bind (trimmed_value key v) (λ s. parsed key (lib.atoi s))
]

level_of : Bytes → Bytes → Result ConfigError Level
level_of key s =
    if str_eq s (bytes "debug")
    then ok debug
    else if str_eq s (bytes "info")
    then ok info
    else if str_eq s (bytes "warn") || str_eq s (bytes "warning")
    then ok warn
    else if str_eq s (bytes "error")
    then ok error
    else err (unsupported_level key)

unfoldable pub get_log_level : Parsers → Lookup → Bytes → Level → Result ConfigError Level
unfolding trimmed_value level_of
get_log_level lib lookup key default_value = elim (lookup key) [
  | none ↦ ok default_value
  | some v ↦ bind (trimmed_value key v) (λ s. level_of key (lib.to_lower s))
]

parsed-answer : (key : Bytes) (r : Result Err ℤ) (n : ℤ) → parsed key r ≡ ok n → r ≡ ok n
unfolding parsed
parsed-answer key (err e) n h = cc
parsed-answer key (ok m) n h = ground arith

parsed-pos : (key : Bytes) (r : Result Err ℤ) (n : ℤ) → parsed key r ≡ ok n → pos 0 <ℤ n
unfolding parsed
parsed-pos key (err e) n h = cc
parsed-pos key (ok m) n h = ground arith

module _ (lib : Parsers) (lookup : Lookup) (key : Bytes) (default_value n : ℤ)
    (default-pos : pos 0 <ℤ default_value) where
  set_or_default :
      (f : Bytes → Result Err ℤ) (o : Option Bytes)
      → ◌≡◌ {A = Result ConfigError ℤ}
          (elim o [
            | none ↦ ok default_value
            | some v ↦ bind (trimmed_value key v) (λ s. parsed key (f s))
          ])
          (ok n)
      → pos 0 <ℤ n
  set_or_default f none h = rw (sym (ok-injective h)) default-pos
  set_or_default f (some v) h =
      let (s, t, e) = bind-eq-ok (trimmed_value key v) h in parsed-pos key (f s) n e

  fits_or_default :
      ((s : Bytes) (m : ℤ) → lib.parse_duration s ≡ ok m → m ≤ℤ pos max_int64)
      → default_value ≤ℤ pos max_int64
      → (o : Option Bytes)
      → ◌≡◌ {A = Result ConfigError ℤ}
          (elim o [
            | none ↦ ok default_value
            | some v ↦ bind (trimmed_value key v) (λ s. parsed key (lib.parse_duration s))
          ])
          (ok n)
      → n ≤ℤ pos max_int64
  fits_or_default fits default-fits none h = rw (sym (ok-injective h)) default-fits
  fits_or_default fits default-fits (some v) h =
      let (s, t, e) = bind-eq-ok (trimmed_value key v) h in
      fits s n (parsed-answer key (lib.parse_duration s) n e)

  pub get_duration-pos : get_duration lib lookup key default_value ≡ ok n → pos 0 <ℤ n
  unfolding get_duration
  get_duration-pos h = set_or_default lib.parse_duration (lookup key) h

  pub get_int-pos : get_int lib lookup key default_value ≡ ok n → pos 0 <ℤ n
  unfolding get_int
  get_int-pos h = set_or_default lib.atoi (lookup key) h

  -- A duration is within int64 when the parser and the default are.
  pub get_duration-fits :
      ((s : Bytes) (m : ℤ) → lib.parse_duration s ≡ ok m → m ≤ℤ pos max_int64)
      → default_value ≤ℤ pos max_int64
      → get_duration lib lookup key default_value ≡ ok n
      → n ≤ℤ pos max_int64
  unfolding get_duration
  get_duration-fits fits default-fits h = fits_or_default fits default-fits (lookup key) h
