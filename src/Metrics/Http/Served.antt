-- ===== src/Metrics/Http/Served.antt =====
-- The metrics of a request that the API serves.
use game_rewards_service.Base.{ℕ, ◌≡◌, ◌≤◌, ◌<◌, ◌⊎◌, true, false, List, [], ◌∷◌, ◌++◌}
use game_rewards_service.Base.Text.{Bytes, bytes, str_eq}
use game_rewards_service.Web.Middleware.{Observed}
use game_rewards_service.Metrics.{Sample, full_name}
use game_rewards_service.Metrics.Http.{observe_request}

-- What the metrics record of the calls of ObserveRequest.
unfoldable pub recorded : (ℕ → Bytes) → List Observed → List Sample
unfolding observe_request
recorded itoa [] = []
recorded itoa (o ∷ os) = observe_request itoa true o.route o.method o.status ++ recorded itoa os

-- The two samples of a request under these labels.
abbrev pub one_request : Bytes → Bytes → Bytes → List Sample
one_request route method status =
    record {
      name = full_name (bytes "http") (bytes "requests_total");
      values = route ∷ method ∷ status ∷ [];
    }
    ∷ record {
      name = full_name (bytes "http") (bytes "request_duration_seconds");
      values = route ∷ method ∷ [];
    }
    ∷ []

-- The label of a path.
pub data IsRouteLabel : Bytes → Bytes → Type 0 where
  livez : IsRouteLabel (bytes "/livez") (bytes "/livez")
  readyz : IsRouteLabel (bytes "/readyz") (bytes "/readyz")
  metrics : IsRouteLabel (bytes "/metrics") (bytes "/metrics")
  claims : IsRouteLabel (bytes "/v1/reward-claims") (bytes "/v1/reward-claims")
  other_path :
      (path : Bytes)
      → str_eq path (bytes "/livez") ≡ false
      → str_eq path (bytes "/readyz") ≡ false
      → str_eq path (bytes "/metrics") ≡ false
      → str_eq path (bytes "/v1/reward-claims") ≡ false
      → IsRouteLabel path (bytes "unknown")

-- The label of a method.
pub data IsMethodLabel : Bytes → Bytes → Type 0 where
  get : IsMethodLabel (bytes "GET") (bytes "GET")
  post : IsMethodLabel (bytes "POST") (bytes "POST")
  other_method :
      (method : Bytes)
      → str_eq method (bytes "GET") ≡ false
      → str_eq method (bytes "POST") ≡ false
      → IsMethodLabel method (bytes "other")

-- The label of a status; `itoa` is strconv.Itoa.
pub data IsStatusLabel (itoa : ℕ → Bytes) : ℕ → Bytes → Type 0 where
  coded : (status : ℕ) → 100 ≤ status → status ≤ 599 → IsStatusLabel itoa status (itoa status)
  no_code :
      (status : ℕ) → (status < 100) ⊎ (599 < status) → IsStatusLabel itoa status (bytes "unknown")

-- The samples of one request with this path, method and status.
abbrev pub IsCountedOnce : (ℕ → Bytes) → Bytes → Bytes → ℕ → List Sample → Type 0
IsCountedOnce itoa path method status samples =
    (r : Bytes) × (m : Bytes) × (l : Bytes) × IsRouteLabel path r
    × IsMethodLabel method m
    × IsStatusLabel itoa status l
    × (samples ≡ one_request r m l)
