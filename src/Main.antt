-- ===== src/Main.antt =====
-- src/main.cpp: which collector each service gets, and the collectors that `main` starts.
pub mod Sources
pub mod Device
pub mod Program
pub mod Readers
pub mod Endpoint
pub mod System
pub mod Meanings
pub mod Child
pub mod LinesToWire
pub mod LabelFile
use time_agent.Base.{Bool, List, [], ◌∷◌, Option, none, some, Bytes, codes, equal, if◌then◌else◌}
use time_agent.Config.{ServiceConfig}

-- The collector that `makeCollector` constructs, with the arguments of its constructor.
pub data CollectorSpec : Type 0 where
  journal : Bytes → CollectorSpec
  subprocess : Bytes → List Bytes → CollectorSpec

ptp4l_collector : ServiceConfig → Option CollectorSpec
ptp4l_collector cfg =
    if equal cfg.source (codes "subproccess")
    then some (
        subprocess (codes "ptp4l") (
          codes "/usr/bin/stdbuf"
          ∷ codes "-oL"
          ∷ codes "ptp4l"
          ∷ codes "-i"
          ∷ cfg.dev
          ∷ codes "-s"
          ∷ codes "-m"
          ∷ []))
    else if equal cfg.source (codes "journal")
    then some (journal (codes "ptp4l"))
    else none

phc2sys_collector : ServiceConfig → Option CollectorSpec
phc2sys_collector cfg =
    if equal cfg.source (codes "subproccess")
    then some (
        subprocess (codes "phc2sys") (
          codes "/usr/bin/stdbuf"
          ∷ codes "-oL"
          ∷ codes "/usr/local/sbin/phc2sys"
          ∷ codes "-a"
          ∷ codes "-r"
          ∷ codes "-r"
          ∷ codes "-m"
          ∷ codes "--free_running"
          ∷ codes "1"
          ∷ codes "-l 6"
          ∷ []))
    else if equal cfg.source (codes "journal")
    then some (journal (codes "phc2sys"))
    else none

ppswatch_collector : ServiceConfig → Option CollectorSpec
ppswatch_collector cfg =
    if equal cfg.source (codes "subproccess")
    then some (
        subprocess (codes "ppswatch")
          (codes "/usr/bin/stdbuf" ∷ codes "-oL" ∷ codes "/usr/bin/ppswatch" ∷ cfg.dev ∷ []))
    else none

-- `none` where the source throws "Unknown service".
unfoldable pub make_collector : ServiceConfig → Option CollectorSpec
unfolding ptp4l_collector phc2sys_collector ppswatch_collector
make_collector cfg =
    if equal cfg.name (codes "ptp4l")
    then ptp4l_collector cfg
    else if equal cfg.name (codes "phc2sys")
    then phc2sys_collector cfg
    else if equal cfg.name (codes "ppswatch")
    then ppswatch_collector cfg
    else none

-- `collectors[name] = …` on the map from names to collectors.
unfoldable pub put {ℓ} : {A : Type ℓ} → Bytes → A → List (Bytes × A) → List (Bytes × A)
put k v [] = (k, v) ∷ []
put k v ((j, w) ∷ m) = if equal j k then (k, v) ∷ m else (j, w) ∷ put k v m

-- A constructor may throw too: `starts` says whether it does not.
module _ (starts : CollectorSpec → Bool) where
  abbrev started : Option CollectorSpec → Option CollectorSpec
  started none = none
  started (some c) = if starts c then some c else none

  abbrev add_started :
      Bytes → Option CollectorSpec → List (Bytes × CollectorSpec) → List (Bytes × CollectorSpec)
  add_started name none m = m
  add_started name (some c) m = put name c m

  unfoldable pub add_collector :
      ServiceConfig → List (Bytes × CollectorSpec) → List (Bytes × CollectorSpec)
  add_collector cfg m = if cfg.on then add_started cfg.name (started (make_collector cfg)) m else m

  -- The loop of `main` over the services.
  unfoldable pub build_collectors :
      List (Bytes × CollectorSpec) → List ServiceConfig → List (Bytes × CollectorSpec)
  build_collectors m [] = m
  build_collectors m (cfg ∷ cfgs) = build_collectors (add_collector cfg m) cfgs
