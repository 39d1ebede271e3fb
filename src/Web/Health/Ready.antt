-- ===== src/Web/Health/Ready.antt =====
-- What the readiness handler reports of its checks.
use game_rewards_service.Base.{
  ◌≡◌, refl, Bool, true, false, not, Option, none, some, List, [], ◌∷◌, arith, if◌then◌else◌, all,
  ◌∙◌,
}
use game_rewards_service.Base.Text.{Bytes, bytes, str_eq, str_eq_iff}
use game_rewards_service.Web.{WebRequest}
use game_rewards_service.Web.Responses.{WebLibrary, write_json}
use game_rewards_service.Web.Health.{
  Check, Readiness, is_get, replied, fails, set_result, after_check, run_checks, all_ready,
  ready_handler,
}

-- The entry of a name in the report.
unfoldable pub find_result : Bytes → List (Bytes × Bytes) → Option Bytes
find_result name [] = none
find_result name ((n, s) ∷ rest) = if str_eq n name then some s else find_result name rest

abbrev pub or_else : Option Bytes → Option Bytes → Option Bytes
or_else none o = o
or_else (some s) o = some s

-- A check that is there and answers no error.
abbrev pub passes : Check → Bool
passes c = elim c.answer [ none ↦ not c.is_nil | some e ↦ false ]

fails-passes : (c : Check) → fails c ≡ not (passes c)
unfolding fails
fails-passes c = ground arith

abbrev pub outcome : Check → Bytes
outcome c = if passes c then bytes "ok" else bytes "error"

or_else-none : (o : Option Bytes) → or_else o none ≡ o
or_else-none none = refl
or_else-none (some s) = refl

-- The outcome of the last check of that name.
unfoldable pub last_outcome : Bytes → List Check → Option Bytes
last_outcome name [] = none
last_outcome name (c ∷ cs) =
    or_else (last_outcome name cs) (if str_eq c.name name then some (outcome c) else none)

find_result-set_result :
    (name n s : Bytes) (results : List (Bytes × Bytes))
    → find_result name (set_result n s results)
      ≡ (if str_eq n name then some s else find_result name results)
unfolding find_result set_result
find_result-set_result name n s [] = refl
find_result-set_result name n s ((m, t) ∷ rest) = ground (
  arith,
  str_eq_iff m n,
  str_eq_iff m name,
  str_eq_iff n name,
  find_result-set_result name n s rest,
)

abbrev all_ok : List Check → Bool
all_ok cs = all passes cs

after_check-results :
    (name : Bytes) (c : Check) (acc : Readiness)
    → find_result name (after_check c acc).results
      ≡ (if str_eq c.name name then some (outcome c) else find_result name acc.results)
unfolding after_check
after_check-results name c acc = ground (
  arith,
  find_result-set_result name c.name (bytes "error") acc.results,
  find_result-set_result name c.name (bytes "ok") acc.results,
  fails-passes c,
)

run_checks-results :
    (name : Bytes) (cs : List Check) (acc : Readiness)
    → find_result name (run_checks cs acc).results
      ≡ or_else (last_outcome name cs) (find_result name acc.results)
unfolding run_checks last_outcome
run_checks-results name [] acc = refl
run_checks-results name (c ∷ cs) acc =
    ground (arith, run_checks-results name cs (after_check c acc), after_check-results name c acc)

run_checks-code :
    (cs : List Check) (acc : Readiness)
    → (run_checks cs acc).status_code ≡ (if all_ok cs then acc.status_code else 503)
unfolding run_checks after_check
run_checks-code [] acc = refl
run_checks-code (c ∷ cs) acc =
    ground (arith, run_checks-code cs (after_check c acc), fails-passes c)

run_checks-status :
    (cs : List Check) (acc : Readiness)
    → (run_checks cs acc).status ≡ (if all_ok cs then acc.status else bytes "not_ready")
unfolding run_checks after_check
run_checks-status [] acc = refl
run_checks-status (c ∷ cs) acc =
    ground (arith, run_checks-status cs (after_check c acc), fails-passes c)

-- The report of some checks: 200 and "ready" exactly when none fails, else 503 and "not_ready", with
-- the outcome of the last check of each name and nothing else of an error.
pub record IsReport (checks : List Check) (report : Readiness) : Type 0 where
  pub code : report.status_code ≡ (if all passes checks then 200 else 503)
  pub status : report.status ≡ (if all passes checks then bytes "ready" else bytes "not_ready")
  pub results : (name : Bytes) → find_result name report.results ≡ last_outcome name checks

-- A GET of the readiness route answers 200 exactly when every check is there and passes, and 503
-- otherwise; the report holds "ok" or "error" for the last check of each name.
pub ready_handler-IsReport :
    (lib : WebLibrary) (checks : List Check) (r : WebRequest)
    → is_get r ≡ true
    → (report : Readiness) × IsReport checks report
      × (ready_handler lib checks r
          ≡ replied
              (write_json report.status_code (lib.encode_readiness report.status report.results)))
unfolding ready_handler find_result
ready_handler-IsReport lib checks r h = (
  run_checks checks all_ready,
  record {
    code = run_checks-code checks all_ready;
    status = run_checks-status checks all_ready;
    results =
        λ name. run_checks-results name checks all_ready ∙ or_else-none (last_outcome name checks);
  },
  rw (h),
)
