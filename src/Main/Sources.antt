-- ===== src/Main/Sources.antt =====
-- Which services get a collector.
use time_agent.Base.{
  Bool, true, false, ◌&&◌, ◌||◌, List, [], ◌∷◌, ◌≡◌, ◌≢◌, ◌↔◌, refl, ap, ◌∙◌, Option, none, some,
  Bytes, codes, equal, equal_iff, inl, inr, ◌⊎◌, arith, if◌then◌else◌, Bool-cases, Option-cases,
}
use time_agent.Config.{ServiceConfig}
use time_agent.Main.{CollectorSpec, make_collector, put, add_collector, build_collectors}

-- Names and sources as the program spells them.
abbrev pub IsKnown : ServiceConfig → Type 0
IsKnown cfg =
    ((cfg.source ≡ codes "subproccess")
      × ((cfg.name ≡ codes "ptp4l")
          ⊎ ((cfg.name ≡ codes "phc2sys") ⊎ (cfg.name ≡ codes "ppswatch"))))
    ⊎ ((cfg.source ≡ codes "journal") × ((cfg.name ≡ codes "ptp4l") ⊎ (cfg.name ≡ codes "phc2sys")))

unfoldable is_known : ServiceConfig → Bool
is_known cfg =
    (equal cfg.source (codes "subproccess")
      && (equal cfg.name (codes "ptp4l")
          || equal cfg.name (codes "phc2sys")
          || equal cfg.name (codes "ppswatch")))
    || (equal cfg.source (codes "journal")
        && (equal cfg.name (codes "ptp4l") || equal cfg.name (codes "phc2sys")))

make_collector-known : (cfg : ServiceConfig) → (make_collector cfg ≡ none) ↔ (is_known cfg ≡ false)
unfolding make_collector is_known
make_collector-known cfg = (λ h. ground arith, λ h. ground arith)

is_known_iff : (cfg : ServiceConfig) → (is_known cfg ≡ true) ↔ IsKnown cfg
unfolding is_known
is_known_iff cfg = (
  λ h. ground (
    arith,
    equal_iff cfg.source (codes "subproccess"),
    equal_iff cfg.source (codes "journal"),
    equal_iff cfg.name (codes "ptp4l"),
    equal_iff cfg.name (codes "phc2sys"),
    equal_iff cfg.name (codes "ppswatch"),
  ),
  λ h. ground (
    arith,
    equal_iff cfg.source (codes "subproccess"),
    equal_iff cfg.source (codes "journal"),
    equal_iff cfg.name (codes "ptp4l"),
    equal_iff cfg.name (codes "phc2sys"),
    equal_iff cfg.name (codes "ppswatch"),
  ),
)

-- `makeCollector` goes on to the constructor of a collector for exactly five services, whatever that
-- then does: ptp4l, phc2sys and ppswatch with the source spelled "subproccess", ptp4l and phc2sys with
-- the source "journal". For all others it throws "Unknown service".
pub make_collector-IsKnown : (cfg : ServiceConfig) → (make_collector cfg ≢ none) ↔ IsKnown cfg
make_collector-IsKnown cfg = elim (Bool-cases (is_known cfg)) [
  | inl t ↦ (λ h. (is_known_iff cfg).0 t, λ k e. ground (arith, (make_collector-known cfg).0 e))
  | inr f ↦ (
    λ h. absurd (h ((make_collector-known cfg).1 f)),
    λ k e. ground (arith, (is_known_iff cfg).1 k),
  )
]

-- The spelling of the documentation, "subprocess", is refused for every service.
pub documented_source_refused :
    (cfg : ServiceConfig) → cfg.source ≡ codes "subprocess" → make_collector cfg ≡ none
documented_source_refused cfg h =
    (make_collector-known cfg).1 (unfold is_known in rw h (unfold equal in ground arith))

-- `collectors.find(k)`
unfoldable pub find_collector : Bytes → List (Bytes × CollectorSpec) → Option CollectorSpec
find_collector k [] = none
find_collector k ((j, v) ∷ m) = if equal j k then some v else find_collector k m

find_collector-put :
    (k j : Bytes) (v : CollectorSpec) (m : List (Bytes × CollectorSpec))
    → find_collector k (put j v m) ≡ (if equal j k then some v else find_collector k m)
unfolding find_collector put
find_collector-put k j v [] = refl
find_collector-put k j v ((i, w) ∷ m) =
    ground (arith, equal_iff j k, equal_iff i j, equal_iff i k, find_collector-put k j v m)

module _ (starts : CollectorSpec → Bool) where
  -- The collector that a service gets: none if it is off, unknown, or its constructor throws.
  abbrev pub startable : Option CollectorSpec → Option CollectorSpec
  startable none = none
  startable (some c) = if starts c then some c else none

  abbrev pub collector_for : ServiceConfig → Option CollectorSpec
  collector_for cfg = if cfg.on then startable (make_collector cfg) else none

  abbrev pub or_keep : Option CollectorSpec → Option CollectorSpec → Option CollectorSpec
  or_keep none old = old
  or_keep (some c) old = some c

  -- The last of the collectors that services of this name get.
  abbrev pub last_for : Bytes → List ServiceConfig → Option CollectorSpec → Option CollectorSpec
  last_for k [] old = old
  last_for k (cfg ∷ cfgs) old =
      last_for k cfgs (if equal cfg.name k then or_keep (collector_for cfg) old else old)

  find-add :
      (k : Bytes) (cfg : ServiceConfig) (m : List (Bytes × CollectorSpec))
      → find_collector k (add_collector starts cfg m) ≡ (
          if equal cfg.name k
          then or_keep (collector_for cfg) (find_collector k m)
          else find_collector k m)
  unfolding add_collector
  find-add k cfg m = elim (Option-cases (make_collector cfg)) [
    | inl e ↦ ground arith
    | inr (c, e) ↦ ground (arith, find_collector-put k cfg.name c m)
  ]

  find-build :
      (k : Bytes) (cfgs : List ServiceConfig) (m : List (Bytes × CollectorSpec))
      → find_collector k (build_collectors starts m cfgs) ≡ last_for k cfgs (find_collector k m)
  unfolding build_collectors
  find-build k [] m = refl
  find-build k (cfg ∷ cfgs) m =
      find-build k cfgs (add_collector starts cfg m) ∙ ap (last_for k cfgs) (find-add k cfg m)

  -- `main` starts under each name the collector of the last service with that name that is on, that
  -- `makeCollector` knows and whose constructor does not throw; services before it that fail are
  -- passed over, and a name with no such service has no collector.
  pub build_collectors-last :
      (k : Bytes) (cfgs : List ServiceConfig)
      → find_collector k (build_collectors starts [] cfgs) ≡ last_for k cfgs none
  unfolding find_collector
  build_collectors-last k cfgs = find-build k cfgs []
