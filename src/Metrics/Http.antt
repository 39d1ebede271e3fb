-- ===== src/Metrics/Http.antt =====
-- internal/observability/http.go.
pub mod Served
use game_rewards_service.Base.{
  ℕ, Bool, true, false, not, ◌&&◌, ◌||◌, Option, none, some, List, [], ◌∷◌, ◌++◌, leb,
  if◌then◌else◌, Result, ok, err, all, ◌==◌,
}
use game_rewards_service.Base.Text.{Bytes, bytes, str_eq}
use game_rewards_service.Errors.{Err}
use game_rewards_service.Metrics.{Collector, Registry, Sample, is_one_of, register, vector, sample}

abbrev pub http_collectors : List Collector
http_collectors =
    vector (bytes "http") (bytes "requests_total")
      (bytes "route" ∷ bytes "method" ∷ bytes "status_code" ∷ [])
    ∷ vector (bytes "http") (bytes "request_duration_seconds") (bytes "route" ∷ bytes "method" ∷ [])
    ∷ []

unfoldable pub new_http_metrics : {S : Type 0} → Option (Registry S) → S → Option Err × S
unfolding register
new_http_metrics registerer s = register registerer http_collectors s

unfoldable pub normalize_route : Bytes → Bytes
unfolding is_one_of
normalize_route route =
    if is_one_of route (
      bytes "/livez"
      ∷ bytes "/readyz"
      ∷ bytes "/metrics"
      ∷ bytes "/v1/reward-claims"
      ∷ bytes "unknown"
      ∷ [])
    then route
    else bytes "unknown"

unfoldable pub normalize_method : Bytes → Bytes
unfolding is_one_of
normalize_method method =
    if is_one_of method (bytes "GET" ∷ bytes "POST" ∷ []) then method else bytes "other"

unfoldable pub status_label : (ℕ → Bytes) → ℕ → Bytes
status_label itoa status = if leb 100 status && leb status 599 then itoa status else bytes "unknown"

-- ObserveRequest; `itoa` is strconv.Itoa, and the Boolean says whether the receiver is given.
unfoldable pub observe_request : (ℕ → Bytes) → Bool → Bytes → Bytes → ℕ → List Sample
observe_request itoa false route method status = []
observe_request itoa true route method status =
    let r = normalize_route route in
    let m = normalize_method method in
    sample (bytes "http") (bytes "requests_total") (r ∷ m ∷ status_label itoa status ∷ [])
    ∷ sample (bytes "http") (bytes "request_duration_seconds") (r ∷ m ∷ [])
    ∷ []
