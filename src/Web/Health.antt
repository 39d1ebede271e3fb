-- ===== src/Web/Health.antt =====
-- internal/health/health.go: liveness and readiness.
pub mod Ready
use game_rewards_service.Base.{
  ℕ, ◌≡◌, ◌↔◌, refl, Bool, true, false, not, Option, none, some, List, [], ◌∷◌, arith,
  if◌then◌else◌, Bool-cases, inl, inr,
}
use game_rewards_service.Base.Text.{Bytes, bytes, str_eq}
use game_rewards_service.Errors.{Err}
use game_rewards_service.Web.{Call, Reply, WebRequest}
use game_rewards_service.Web.Responses.{WebLibrary, write_json, write_method_not_allowed}

-- A check: its name, whether its function is nil, and what the function answers now.
pub record Check : Type 0 where
  pub name : Bytes
  pub is_nil : Bool
  pub answer : Option Err

abbrev pub is_get : WebRequest → Bool
is_get r = str_eq r.method (bytes "GET")

abbrev pub replied : List Call → Reply
replied calls = record { calls = calls; panic = none }

unfoldable pub live_handler : WebLibrary → WebRequest → Reply
live_handler lib r =
    if not (is_get r)
    then replied (write_method_not_allowed lib (bytes "GET"))
    else replied (write_json 200 (lib.encode_status (bytes "ok")))

is_failed : Option Err → Bool
is_failed none = false
is_failed (some e) = true

unfoldable pub fails : Check → Bool
unfolding is_failed
fails c = if c.is_nil then true else is_failed c.answer

-- `results[name] = status`
unfoldable pub set_result : Bytes → Bytes → List (Bytes × Bytes) → List (Bytes × Bytes)
set_result name status [] = (name, status) ∷ []
set_result name status ((n, s) ∷ rest) =
    if str_eq n name then (n, status) ∷ rest else (n, s) ∷ set_result name status rest

pub record Readiness : Type 0 where
  pub status_code : ℕ
  pub status : Bytes
  pub results : List (Bytes × Bytes)

-- One round of the loop over the checks.
unfoldable pub after_check : Check → Readiness → Readiness
unfolding fails set_result
after_check c acc =
    if fails c
    then record {
      status_code = 503;
      status = bytes "not_ready";
      results = set_result c.name (bytes "error") acc.results;
    }
    else record acc { results = set_result c.name (bytes "ok") acc.results }

unfoldable pub run_checks : List Check → Readiness → Readiness
unfolding after_check
run_checks [] acc = acc
run_checks (c ∷ cs) acc = run_checks cs (after_check c acc)

abbrev pub all_ready : Readiness
all_ready = record { status_code = 200; status = bytes "ready"; results = [] }

unfoldable pub ready_handler : WebLibrary → List Check → WebRequest → Reply
unfolding run_checks
ready_handler lib checks r =
    let report = run_checks checks all_ready in
    if not (is_get r)
    then replied (write_method_not_allowed lib (bytes "GET"))
    else replied (write_json report.status_code (lib.encode_readiness report.status report.results))
