-- ===== src/Web.antt =====
-- HTTP as the handlers of internal/httpapi, internal/adminhttp and internal/health see it: the calls
-- that they make on a response writer, and statusRecorder, which both servers put before it.
pub mod Recorded
pub mod Responses
pub mod Health
pub mod RequestId
pub mod Middleware
pub mod Router
pub mod Admin
mod Samples
mod Tests
mod AgainTests
use game_rewards_service.Base.{ℕ, Bool, true, false, Option, none, some, List, [], ◌∷◌, ◌++◌}
use game_rewards_service.Base.Text.{Bytes}
use game_rewards_service.Errors.{Sentinel}

-- A call on an http.ResponseWriter or on its header map.
pub data Call : Type 0 where
  set_header : Bytes → Bytes → Call
  del_header : Bytes → Call
  write_header : ℕ → Call
  write : Bytes → Call

-- A panic with http.ErrAbortHandler, or with any other value.
pub data Panic : Type 0 where
  abort_handler : Panic
  other_value : Panic

-- What a handler does: its calls, in order, and whether it panics after them.
pub record Reply : Type 0 where
  pub calls : List Call
  pub panic : Option Panic

-- A request; `request_id` is the identifier in its context, and `ctx_error` the error of its context
-- when the handler is done with it.
pub record WebRequest : Type 0 where
  pub method : Bytes
  pub path : Bytes
  pub header_request_id : Bytes
  pub remote_addr : Bytes
  pub user_agent : Bytes
  pub request_id : Bytes
  pub ctx_error : Option Sentinel

-- A handler over the state S behind it.
abbrev pub Handler : Type 0 → Type 0
Handler S = WebRequest → S → Reply × S

-- statusRecorder, and the calls that it has made on the writer below it.
pub record StatusRecorder : Type 0 where
  pub status : ℕ
  pub wrote_header : Bool
  pub made : List Call

abbrev pub make : Call → StatusRecorder → StatusRecorder
make c r = record r { made = r.made ++ c ∷ [] }

-- WriteHeader
unfoldable pub record_header : ℕ → StatusRecorder → StatusRecorder
record_header status r = elim r.wrote_header [
  | true ↦ r
  | false ↦ record {
    status = status;
    wrote_header = true;
    made = r.made ++ write_header status ∷ [];
  }
]

-- Write
unfoldable pub record_write : Bytes → StatusRecorder → StatusRecorder
unfolding record_header
record_write body r = elim r.wrote_header [
  | true ↦ make (write body) r
  | false ↦ make (write body) (record_header 200 r)
]

unfoldable pub record_call : Call → StatusRecorder → StatusRecorder
unfolding record_header record_write
record_call (set_header name value) r = make (set_header name value) r
record_call (del_header name) r = make (del_header name) r
record_call (write_header status) r = record_header status r
record_call (write body) r = record_write body r

unfoldable pub record_calls : List Call → StatusRecorder → StatusRecorder
unfolding record_call
record_calls [] r = r
record_calls (c ∷ cs) r = record_calls cs (record_call c r)

-- `&statusRecorder{ResponseWriter: w, status: http.StatusOK}`
abbrev pub new_recorder : StatusRecorder
new_recorder = record { status = 200; wrote_header = false; made = [] }
