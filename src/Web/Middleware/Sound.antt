-- ===== src/Web/Middleware/Sound.antt =====
-- What the middleware reports of a request, against what reaches the client.
use game_rewards_service.Base.{
  ℕ, ◌≤◌, ◌≡◌, refl, Bool, true, false, not, ◌||◌, Option, none, some, List, ◌∷◌, arith, ◌==◌,
  if_intro,
}
use game_rewards_service.Base.Text.{bytes}
use game_rewards_service.Errors.{Sentinel}
use game_rewards_service.Web.{
  Call, del_header, Panic, abort_handler, other_value, WebRequest, Handler, StatusRecorder,
  record_calls, new_recorder,
}
use game_rewards_service.Web.Responses.{WebLibrary, write_error}
use game_rewards_service.Web.RequestId.{request_id_for}
use game_rewards_service.Web.Recorded.{
  wire_status, count_headers, IsRecorded, new_recorder-IsRecorded, record_calls-IsRecorded,
}
use game_rewards_service.Web.Middleware.{
  Served, handle_recovered_panic, is_given, observe_all, is_other, finish, request_logger,
  secure_headers, with_middleware,
}

-- The status to report of a request: 0 for an aborted one, else what the client sees, where a
-- response that nothing was written of is 200, or nothing if the request's context has ended.
abbrev pub reported : Option Panic → Option Sentinel → Option ℕ → ℕ
reported (some p) ctx_error seen = 0
reported none ctx_error (some status) = status
reported none (some e) none = 0
reported none none none = 200

abbrev pub is_500 : Option ℕ → Bool
is_500 none = false
is_500 (some status) = status == 500

abbrev pub is_contained : Option Panic → Bool
is_contained none = true
is_contained (some abort_handler) = true
is_contained (some other_value) = false

pub record IsSound {S : Type 0} (r : WebRequest) (observers : List Bool) (served : Served S)
    : Type 0 where
  pub once : count_headers served.calls ≤ 1
  pub contained : is_contained served.panic ≡ true
  pub honest : served.entry.status ≡ reported served.panic r.ctx_error (wire_status served.calls)
  pub told :
      served.observed
      ≡ observe_all observers
          (record { route = served.entry.route; method = r.method; status = served.entry.status })
  pub handled :
      not served.recovered || (is_given served.panic || is_500 (wire_status served.calls)) ≡ true

module _ {S : Type 0} (lib : WebLibrary) (observers : List Bool) (r : WebRequest) (s : S) where
  finish_normal :
      (recovered : Bool) (rec : StatusRecorder)
      → IsRecorded rec
      → not recovered || is_500 (wire_status rec.made) ≡ true
      → IsSound r observers (finish lib observers r s recovered (rec, false))
  unfolding finish is_given
  finish_normal recovered rec v h = record {
    once = ground arith;
    contained = refl;
    honest = ground arith;
    told = refl;
    handled = ground arith;
  }

  finish_aborted :
      (recovered : Bool) (rec : StatusRecorder)
      → IsRecorded rec
      → IsSound r observers (finish lib observers r s recovered (record rec { status = 0 }, true))
  unfolding finish is_given
  finish_aborted recovered rec v = record {
    once = ground arith;
    contained = refl;
    honest = ground arith;
    told = refl;
    handled = ground arith;
  }

  internal_error : List Call
  internal_error =
      del_header (bytes "Content-Length")
      ∷ write_error lib 500 (bytes "internal_error") (bytes "Internal server error")

  internal_error-recorded :
      (rec : StatusRecorder)
      → rec.wrote_header ≡ false
      → ((record_calls internal_error rec).wrote_header ≡ true)
        × ((record_calls internal_error rec).status ≡ 500)
  unfolding internal_error record_calls
  internal_error-recorded rec h = ground arith

  -- An error response that nothing stands before is a 500.
  internal_error-wire :
      (rec : StatusRecorder)
      → IsRecorded rec
      → rec.wrote_header ≡ false
      → is_500 (wire_status (record_calls internal_error rec).made) ≡ true
  internal_error-wire rec v h =
      let whole = record_calls-IsRecorded internal_error rec v in
      let (sent, code) = internal_error-recorded rec h in rw (whole.wire, sent, code)

  finish-IsSound :
      (p : Option Panic) (rec : StatusRecorder)
      → IsRecorded rec
      → IsSound r observers
          (finish lib observers r s (is_other p) (handle_recovered_panic lib p rec))
  unfolding handle_recovered_panic is_other internal_error
  finish-IsSound none rec v = finish_normal false rec v refl
  finish-IsSound (some abort_handler) rec v = finish_aborted false rec v
  finish-IsSound (some other_value) rec v =
      if_intro (λ q. IsSound r observers (finish lib observers r s true q)) rec.wrote_header
        (λ sent. finish_aborted true rec v)
        (λ fresh.
          finish_normal true (record_calls internal_error rec)
            (record_calls-IsRecorded internal_error rec v) (internal_error-wire rec v fresh))

-- The request that requestID hands on.
abbrev pub identified : List ℕ → WebRequest → WebRequest
identified random r = record r { request_id = request_id_for random r.header_request_id }

-- Around every handler, on every request: at most one status is sent; no panic but ErrAbortHandler
-- goes on; each observer that is given is told once of the status that the log holds; that status is
-- what the client sees, or 0 for an aborted request or one that nothing was written for before its
-- context ended; and a panic that is recovered ends in an abort or in a 500.
pub with_middleware-IsSound :
    {S : Type 0} (lib : WebLibrary) (random : List ℕ) (observers : List Bool) (handler : Handler S)
    (r : WebRequest) (s : S)
    → IsSound (identified random r) observers (with_middleware lib random observers handler r s)
unfolding with_middleware request_logger wire_status count_headers
with_middleware-IsSound lib random observers handler r s =
    let reply = (secure_headers handler (identified random r) s).0 in
    let sound =
      finish-IsSound lib observers (identified random r)
        (secure_headers handler (identified random r) s).1 reply.panic
        (record_calls reply.calls new_recorder)
        (record_calls-IsRecorded reply.calls new_recorder new_recorder-IsRecorded) in
    record {
      once = sound.once;
      contained = sound.contained;
      honest = sound.honest;
      told = sound.told;
      handled = sound.handled;
    }
