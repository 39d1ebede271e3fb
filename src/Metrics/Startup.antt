-- ===== src/Metrics/Startup.antt =====
-- The registrations of both processes on a new registry.
use game_rewards_service.Base.{
  ◌≡◌, refl, sym, ap, ◌∙◌, Bool, true, false, not, ◌&&◌, none, some, List, [], ◌∷◌, ◌++◌, arith,
  all, ◌==◌, append_nil, append_assoc,
}
use game_rewards_service.Base.Text.{Bytes, str_eq, eq_of_str_eq}
use game_rewards_service.Metrics.{
  Collector, Registry, namespace, is_one_of, register, register_all, new_registry,
}
use game_rewards_service.Metrics.Http.{http_collectors, new_http_metrics}
use game_rewards_service.Metrics.Rewards.{reward_collectors, new_reward_metrics}
use game_rewards_service.Metrics.Worker.{worker_collectors, new_worker_metrics}

abbrev pub are_new : List Bytes → List Bytes → Bool
are_new names held = all (λ n. not (is_one_of n held)) names

-- What Prometheus documents of Register: a collector that describes no name the registry holds is
-- registered.
pub record IsRegistry {S : Type 0} (registry : Registry S) : Type 0 where
  pub accepts :
      (c : Collector) (s : S)
      → are_new c.describes (registry.names s) ≡ true
      → ((registry.register_one c s).0 ≡ none)
        × (registry.names (registry.register_one c s).1 ≡ c.describes ++ registry.names s)

unfoldable pub starts_with : Bytes → Bytes → Bool
starts_with [] s = true
starts_with (p ∷ ps) [] = false
starts_with (p ∷ ps) (x ∷ xs) = p == x && starts_with ps xs

abbrev pub outside : List Bytes → Bool
outside names = all (λ n. not (starts_with namespace n)) names

-- A name of this program is in a list with foreign names behind it only if it stands before them.
is_one_of-foreign :
    (n : Bytes) (mine held : List Bytes)
    → starts_with namespace n ≡ true
    → outside held ≡ true
    → is_one_of n (mine ++ held) ≡ is_one_of n mine
unfolding is_one_of
is_one_of-foreign n [] [] h k = refl
is_one_of-foreign n [] (m ∷ held) h k =
    ground (arith, is_one_of-foreign n [] held, eq_of_str_eq n m)
is_one_of-foreign n (m ∷ mine) held h k = rw (is_one_of-foreign n mine held h k)

abbrev named : List Bytes → Bool
named names = all (starts_with namespace) names

are_new-foreign :
    (names mine held : List Bytes)
    → named names ≡ true
    → outside held ≡ true
    → are_new names (mine ++ held) ≡ are_new names mine
are_new-foreign [] mine held h k = refl
are_new-foreign (n ∷ names) mine held h k =
    ground (arith, is_one_of-foreign n mine held, are_new-foreign names mine held)

are_new_nil : (names : List Bytes) → are_new names [] ≡ true
unfolding is_one_of
are_new_nil [] = refl
are_new_nil (n ∷ names) = are_new_nil names

unfoldable all_new : List Collector → List Bytes → Bool
all_new [] held = true
all_new (c ∷ cs) held = are_new c.describes held && all_new cs (c.describes ++ held)

unfoldable held_after : List Collector → List Bytes → List Bytes
held_after [] held = held
held_after (c ∷ cs) held = held_after cs (c.describes ++ held)

all_new-foreign :
    (cs : List Collector) (mine held : List Bytes)
    → all (λ c. named c.describes) cs ≡ true
    → outside held ≡ true
    → all_new cs (mine ++ held) ≡ all_new cs mine
unfolding all_new
all_new-foreign [] mine held h k = refl
all_new-foreign (c ∷ cs) mine held h k =
    let later =
      ap (all_new cs) (sym (append_assoc c.describes mine held))
      ∙ all_new-foreign cs (c.describes ++ mine) held (ground arith) k in
    rw (are_new-foreign c.describes mine held (ground arith) k, later)

held_after-append :
    (cs : List Collector) (mine held : List Bytes)
    → held_after cs (mine ++ held) ≡ held_after cs mine ++ held
unfolding held_after
held_after-append [] mine held = refl
held_after-append (c ∷ cs) mine held =
    ap (held_after cs) (sym (append_assoc c.describes mine held))
    ∙ held_after-append cs (c.describes ++ mine) held

module _ {S : Type 0} (registry : Registry S) (documented : IsRegistry registry) where
  register_all-accepts :
      (cs : List Collector) (s : S) (held : List Bytes)
      → registry.names s ≡ held
      → all_new cs held ≡ true
      → ((register_all registry cs s).0 ≡ none)
        × (registry.names (register_all registry cs s).1 ≡ held_after cs held)
  unfolding register_all all_new held_after
  register_all-accepts [] s held e h = (refl, e)
  register_all-accepts (c ∷ cs) s held e h =
      let (taken, now) = documented.accepts c s (rw e (ground arith)) in
      rw (taken, register_all)
        (register_all-accepts cs (registry.register_one c s).1 (c.describes ++ held)
          (now ∙ ap (λ ns. c.describes ++ ns) e) (ground arith))

  new_registry-accepts :
      (go process : Collector) (s : S)
      → ◌≡◌ {A = List Bytes} (registry.names s) []
      → are_new process.describes go.describes ≡ true
      → ((new_registry registry go process s).0 ≡ none)
        × (registry.names (new_registry registry go process s).1
            ≡ process.describes ++ go.describes)
  unfolding new_registry
  new_registry-accepts go process s empty distinct =
      let (taken, now) = documented.accepts go s (rw empty (are_new_nil go.describes)) in
      let held = now ∙ ap (λ ns. go.describes ++ ns) empty ∙ append_nil go.describes in
      let (taken_too, now_too) =
        documented.accepts process (registry.register_one go s).1 (rw held distinct) in
      rw (taken, taken_too, new_registry) (refl, now_too ∙ ap (λ ns. process.describes ++ ns) held)

  module _ (go process : Collector) (s : S) (empty : ◌≡◌ {A = List Bytes} (registry.names s) [])
      (distinct : are_new process.describes go.describes ≡ true)
      (foreign : outside (process.describes ++ go.describes) ≡ true) where
    abbrev started : S
    started = (new_registry registry go process s).1

    abbrev with_http : S
    with_http = (new_http_metrics (some registry) started).1

    -- Collectors of this program, after others of it.
    after_foreign :
        (cs : List Collector) (mine : List Bytes) (s' : S)
        → registry.names s' ≡ mine ++ (process.describes ++ go.describes)
        → all (λ c. named c.describes) cs ≡ true
        → all_new cs mine ≡ true
        → ((register_all registry cs s').0 ≡ none)
          × (registry.names (register_all registry cs s').1
              ≡ held_after cs mine ++ (process.describes ++ go.describes))
    after_foreign cs mine s' e h k =
        let held = process.describes ++ go.describes in
        let (taken, now) =
          register_all-accepts cs s' (mine ++ held) e
            (all_new-foreign cs mine held h foreign ∙ k) in
        (taken, now ∙ held_after-append cs mine held)

    -- On an empty registry that behaves as Prometheus documents, none of the registrations of the two
    -- processes fails: those of a new registry, of the HTTP metrics, and after these of the reward
    -- metrics or of the worker metrics. The collectors for Go and for the process may describe any
    -- names but those of this program, and not the same ones.
    pub registrations-accepted :
        ((new_registry registry go process s).0 ≡ none)
        × ((new_http_metrics (some registry) started).0 ≡ none)
        × ((new_reward_metrics (some registry) with_http).0 ≡ none)
        × ((new_worker_metrics (some registry) with_http).0 ≡ none)
    unfolding new_http_metrics new_reward_metrics new_worker_metrics register all_new is_one_of
        starts_with str_eq held_after
    registrations-accepted =
        let (first, held) = new_registry-accepts go process s empty distinct in
        let (http, then) = after_foreign http_collectors [] started held refl refl in
        (
          first,
          http,
          (after_foreign reward_collectors (held_after http_collectors []) with_http then refl
              refl).0,
          (after_foreign worker_collectors (held_after http_collectors []) with_http then refl
              refl).0,
        )
