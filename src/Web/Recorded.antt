-- ===== src/Web/Recorded.antt =====
-- What statusRecorder says of the response, against the calls that reach the writer below it.
use game_rewards_service.Base.{
  ℕ, suc, ◌+◌, ◌≡◌, refl, Option, none, some, List, [], ◌∷◌, ◌++◌, arith, if◌then◌else◌,
}
use game_rewards_service.Web.{
  Call, set_header, del_header, write_header, write, StatusRecorder, new_recorder, record_header,
  record_write, record_call, record_calls,
}

-- The status that net/http sends: that of the first WriteHeader, or 200 before the first Write.
unfoldable pub wire_status : List Call → Option ℕ
wire_status [] = none
wire_status (set_header name value ∷ cs) = wire_status cs
wire_status (del_header name ∷ cs) = wire_status cs
wire_status (write_header status ∷ cs) = some status
wire_status (write body ∷ cs) = some 200

unfoldable pub count_headers : List Call → ℕ
count_headers [] = 0
count_headers (set_header name value ∷ cs) = count_headers cs
count_headers (del_header name ∷ cs) = count_headers cs
count_headers (write_header status ∷ cs) = suc (count_headers cs)
count_headers (write body ∷ cs) = count_headers cs

abbrev or_else : Option ℕ → Option ℕ → Option ℕ
or_else none o = o
or_else (some s) o = some s

wire_status-append :
    (xs ys : List Call) → wire_status (xs ++ ys) ≡ or_else (wire_status xs) (wire_status ys)
unfolding wire_status
wire_status-append [] ys = refl
wire_status-append (set_header name value ∷ xs) ys = wire_status-append xs ys
wire_status-append (del_header name ∷ xs) ys = wire_status-append xs ys
wire_status-append (write_header status ∷ xs) ys = refl
wire_status-append (write body ∷ xs) ys = refl

count_headers-append :
    (xs ys : List Call) → count_headers (xs ++ ys) ≡ count_headers xs + count_headers ys
unfolding count_headers
count_headers-append [] ys = omega arith
count_headers-append (set_header name value ∷ xs) ys = count_headers-append xs ys
count_headers-append (del_header name ∷ xs) ys = count_headers-append xs ys
count_headers-append (write_header status ∷ xs) ys = omega (arith, count_headers-append xs ys)
count_headers-append (write body ∷ xs) ys = count_headers-append xs ys

-- The recorder has sent at most one status, and it is the one that it reports.
pub record IsRecorded (r : StatusRecorder) : Type 0 where
  pub wire : wire_status r.made ≡ (if r.wrote_header then some r.status else none)
  pub once : count_headers r.made ≡ (if r.wrote_header then 1 else 0)
  pub implicit : (if r.wrote_header then 200 else r.status) ≡ 200

pub new_recorder-IsRecorded : IsRecorded new_recorder
unfolding wire_status count_headers
new_recorder-IsRecorded = record { wire = refl; once = refl; implicit = refl }

record_call-IsRecorded :
    (c : Call) (r : StatusRecorder) → IsRecorded r → IsRecorded (record_call c r)
unfolding record_call record_write record_header wire_status count_headers
record_call-IsRecorded (set_header name value) r v = ground (
  arith,
  wire_status-append r.made (set_header name value ∷ []),
  count_headers-append r.made (set_header name value ∷ []),
)
record_call-IsRecorded (del_header name) r v = ground (
  arith,
  wire_status-append r.made (del_header name ∷ []),
  count_headers-append r.made (del_header name ∷ []),
)
record_call-IsRecorded (write_header status) r v = ground (
  arith,
  wire_status-append r.made (write_header status ∷ []),
  count_headers-append r.made (write_header status ∷ []),
)
record_call-IsRecorded (write body) r v =
    let headed = r.made ++ write_header 200 ∷ [] in
    ground (
      arith,
      wire_status-append r.made (write body ∷ []),
      count_headers-append r.made (write body ∷ []),
      wire_status-append r.made (write_header 200 ∷ []),
      count_headers-append r.made (write_header 200 ∷ []),
      wire_status-append headed (write body ∷ []),
      count_headers-append headed (write body ∷ []),
    )

pub record_calls-IsRecorded :
    (cs : List Call) (r : StatusRecorder) → IsRecorded r → IsRecorded (record_calls cs r)
unfolding record_calls
record_calls-IsRecorded [] r v = v
record_calls-IsRecorded (c ∷ cs) r v =
    record_calls-IsRecorded cs (record_call c r) (record_call-IsRecorded c r v)
