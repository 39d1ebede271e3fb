-- ===== src/Metrics/Samples.antt =====
-- A concrete registry for the tests.
use game_rewards_service.Base.{refl, none, some, List, [], ◌∷◌, ◌++◌, if◌then◌else◌}
use game_rewards_service.Base.Text.{Bytes, bytes}
use game_rewards_service.Errors.{message}
use game_rewards_service.Metrics.{Collector, Registry}
use game_rewards_service.Metrics.Startup.{IsRegistry, are_new}

-- A registry that is the list of its names.
abbrev pub plain : Registry (List Bytes)
plain = record {
  register_one = λ c held.
      if are_new c.describes held
      then (none, c.describes ++ held)
      else (some (message "duplicate"), held);
  names = λ held. held;
}

pub plain-IsRegistry : IsRegistry plain
plain-IsRegistry = record { accepts = λ c s h. rw h (refl, refl) }

abbrev pub go : Collector
go = record { describes = bytes "go_goroutines" ∷ []; labels = [] }

abbrev pub process : Collector
process = record { describes = bytes "process_start_time_seconds" ∷ []; labels = [] }
