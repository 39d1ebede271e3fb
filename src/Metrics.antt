-- ===== src/Metrics.antt =====
-- internal/observability/registry.go and what its collectors keep. The registry of Prometheus is a
-- parameter; a recorded sample is the name of a collector with label values, and measured durations
-- are left out.
pub mod Http
pub mod Rewards
pub mod Worker
pub mod Startup
pub mod Samples
mod Tests
use Prim.Native.String.{String}
use game_rewards_service.Base.{Bool, true, false, ◌||◌, Option, none, some, List, [], ◌∷◌, ◌++◌}
use game_rewards_service.Base.Text.{Bytes, bytes, str_eq}
use game_rewards_service.Errors.{Err, message, wrap}

-- A collector: the full names that it describes, and its labels.
pub record Collector : Type 0 where
  pub describes : List Bytes
  pub labels : List Bytes

-- A registry: Register, which answers an error or nil, and the names that it holds.
pub record Registry (S : Type 0) : Type 0 where
  pub register_one : Collector → S → Option Err × S
  pub names : S → List Bytes

-- One Inc or Observe of the series of a vector with these label values.
pub record Sample : Type 0 where
  pub name : Bytes
  pub values : List Bytes

abbrev pub namespace : Bytes
namespace = bytes "game_rewards"

-- BuildFQName
abbrev pub full_name : Bytes → Bytes → Bytes
full_name subsystem name = namespace ++ 95 ∷ (subsystem ++ 95 ∷ name)

unfoldable pub is_one_of : Bytes → List Bytes → Bool
is_one_of s [] = false
is_one_of s (t ∷ ts) = str_eq s t || is_one_of s ts

-- The loop of register.
unfoldable pub register_all : {S : Type 0} → Registry S → List Collector → S → Option Err × S
register_all registry [] s = (none, s)
register_all registry (c ∷ cs) s =
    let (answer, s') = registry.register_one c s in
    let rest = register_all registry cs s' in elim answer [ none ↦ rest | some e ↦ (some e, s') ]

unfoldable pub register : {S : Type 0} → Option (Registry S) → List Collector → S → Option Err × S
unfolding register_all
register none collectors s = (some (message "metrics registerer must not be nil"), s)
register (some registry) collectors s = register_all registry collectors s

abbrev wrapped : {S : Type 0} → String → Option Err × S → Option Err × S
wrapped label (none, s) = (none, s)
wrapped label (some e, s) = (some (wrap label e), s)

-- NewRegistry, over the collectors that Prometheus brings for Go and for the process.
unfoldable pub new_registry : {S : Type 0} → Registry S → Collector → Collector → S → Option Err × S
new_registry registry go process s =
    let (answer, s') = registry.register_one go s in
    let rest = wrapped "register process collector" (registry.register_one process s') in
    elim answer [ none ↦ rest | some e ↦ (some (wrap "register Go collector" e), s') ]

abbrev pub vector : Bytes → Bytes → List Bytes → Collector
vector subsystem name labels = record { describes = full_name subsystem name ∷ []; labels = labels }

abbrev pub sample : Bytes → Bytes → List Bytes → Sample
sample subsystem name values = record { name = full_name subsystem name; values = values }
