-- ===== src/Outbox/Samples.antt =====
-- Events, a worker and a database of internal/outbox that the tests share.
use game_rewards_service.Base.{ℕ, ◌+◌, ◌/◌, refl, false, none, some, List, [], ◌∷◌, arith}
use game_rewards_service.Base.Int.{ℤ, pos, negsuc}
use game_rewards_service.Base.Text.{bytes, str_eq}
use game_rewards_service.Base.Text.Utf8.{rune_count}
use game_rewards_service.Errors.{message}
use game_rewards_service.Postgres.{Driver}
use game_rewards_service.Outbox.Observer.{timeout}
use game_rewards_service.Outbox.Row.{Row, pending, processing, published, satisfies}
use game_rewards_service.Outbox.Backoff.{new_backoff_policy}
use game_rewards_service.Outbox.Store.{Call, answered}
use game_rewards_service.Outbox.Store.Transition.{IsValid}
use game_rewards_service.Outbox.Worker.{Worker, World, Iteration}
use game_rewards_service.Outbox.Worker.Config.{IsWorker}
use game_rewards_service.Outbox.Delivery.{Database}

abbrev microseconds : ℤ → ℕ
microseconds (pos n) = n / 1000
microseconds (negsuc n) = 0

abbrev pub driver : Driver
driver = record { is_timeout = λ e. false; interval = microseconds }

abbrev pub waiting : Row
waiting = record {
  id = bytes "b";
  aggregate_type = bytes "reward_claim";
  aggregate_id = bytes "c1";
  event_type = bytes "RewardClaimed";
  payload = bytes "{}";
  status = pending;
  failed_attempts = 1;
  available_at = 5;
  last_failure_reason = some timeout;
  locked_by = none;
  locked_until = none;
  created_at = 1;
  updated_at = 2;
  published_at = none;
  dead_lettered_at = none;
}

abbrev pub leased : Row
leased = record waiting {
  id = bytes "a";
  status = processing;
  locked_by = some (bytes "w1");
  locked_until = some 90;
}

abbrev pub finished : Row
finished = record waiting { id = bytes "d"; status = published; published_at = some 9 }

abbrev pub table : List Row
table = leased ∷ waiting ∷ finished ∷ []

abbrev pub call : ℕ → Call
call now = record {
  now = now;
  skip_locked = λ i. false;
  reply = answered;
  ctx = record { error = none; cause = message "none" };
}

abbrev pub script : ℕ → Call
script n = call (10 + n)

pub table-IsValid : IsValid table
unfolding satisfies str_eq rune_count
table-IsValid = record {
  distinct = ((refl, (refl, tt)), ((refl, tt), (tt, tt)));
  rows = (refl, (refl, (refl, tt)));
}

abbrev pub worker : Worker
worker = record {
  worker_id = bytes "w2";
  poll_interval = pos 1_000_000;
  lock_ttl = pos 30_000_000;
  publish_timeout = pos 5_000_000;
  max_failures = pos 2;
  backoff = record { base = pos 1_000_000; max = pos 60_000_000 };
}

pub worker-IsWorker : IsWorker worker
unfolding new_backoff_policy rune_count
worker-IsWorker = record {
  named = refl;
  bounded = refl;
  ttl = refl;
  polls = omega arith;
  longer = omega arith;
  budget = omega arith;
  policy = refl;
}

abbrev pub failing : Iteration
failing = record {
  publish = λ e. some (message "broken pipe");
  after_claim = none;
  at_classify = none;
  after_publish = none;
  after_transition = none;
  after_iteration = none;
}

abbrev pub start : World Database
start = record { store = record { table = table; sent = 90 }; observed = [] }
