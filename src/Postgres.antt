-- ===== src/Postgres.antt =====
-- internal/postgres/availability.go, and what the program relies on of pgx and PostgreSQL.
pub mod Pool
use game_rewards_service.Base.{
  ℕ, Bool, true, false, ◌||◌, Option, none, some, List, [], ◌∷◌, if◌then◌else◌,
}
use game_rewards_service.Base.Int.{ℤ}
use game_rewards_service.Base.Text.{Bytes, bytes, str_eq}
use game_rewards_service.Errors.{
  Err, is, as_pg_error, as_net_error, has_dns_error, has_op_error, canceled, deadline_exceeded,
  conn_closed, net_closed, eof, unexpected_eof,
}

-- pgconn.Timeout, and the length that `make_interval(secs => d.Seconds())` has for a duration in
-- nanoseconds, in the unit of the database's timestamps.
pub record Driver : Type 0 where
  pub is_timeout : Err → Bool
  pub interval : ℤ → ℕ

abbrev pub one_of : List Bytes → Bytes → Bool
one_of [] c = false
one_of (s ∷ ss) c = str_eq c s || one_of ss c

abbrev pub unavailable_states : List Bytes
unavailable_states =
    bytes "08000"
    ∷ bytes "08003"
    ∷ bytes "08006"
    ∷ bytes "08001"
    ∷ bytes "08004"
    ∷ bytes "08007"
    ∷ bytes "53300"
    ∷ bytes "57P01"
    ∷ bytes "57P02"
    ∷ bytes "57P03"
    ∷ bytes "57P05"
    ∷ []

pub is_unavailable_sql_state : Bytes → Bool
is_unavailable_sql_state code = one_of unavailable_states code

is_true : Option Bool → Bool
is_true (some b) = b
is_true none = false

pub is_network_unavailable_error : Err → Bool
unfolding is_true
is_network_unavailable_error e =
    if is e net_closed || (is e eof || is e unexpected_eof)
    then true
    else if is_true (as_net_error e)
    then true
    else if has_dns_error e
    then true
    else has_op_error e

unfoldable pub is_unavailable : Driver → Err → Bool
unfolding is_unavailable_sql_state is_network_unavailable_error
is_unavailable d e = elim (as_pg_error e) [
  | some code ↦ is_unavailable_sql_state code
  | none ↦
      if is e conn_closed || d.is_timeout e
      then true
      else if is e canceled || is e deadline_exceeded
      then false
      else is_network_unavailable_error e
]
