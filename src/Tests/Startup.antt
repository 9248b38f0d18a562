-- ===== src/Tests/Startup.antt =====
-- Runs of `main` and of the destructor of the adapter.
use time_agent.Base.{
  ℕ, ◌++◌, All, arith, List, [], ◌∷◌, ◌≡◌, true, false, refl, none, some, Bytes, String, codes,
  equal, if◌then◌else◌,
}
use time_agent.Base.Int.{pos}
use time_agent.Config.{fresh_config}
use time_agent.Config.Loader.{
  Yaml, Access, undefined, found, load, load_or_default, load_root, section, read_services,
  add_service, read_service,
}
use time_agent.Logging
use time_agent.Adapter.Socket
use time_agent.Adapter.Socket.{
  Zmq, other_exception, returns, Members, release_sender, release_context, destroy,
}
use time_agent.Adapter.Socket.Closing.{releases, destroy-releases}
use time_agent.Agent.{Context, handle_ptp4l, handler}
use time_agent.Agent.Setup
use time_agent.Agent.Setup.{AgentParts, start_readers}
use time_agent.Main.{CollectorSpec, journal, make_collector, build_collectors, add_collector, put}
use time_agent.Agent.Handlers.{IsProper}
use time_agent.Agent.Threads.{
  State, initial, joining_readers, set_reader, reading, handling, here, next, start, check, read,
}
use time_agent.Agent.Threads.Order.{effects_for}
use time_agent.Collector.{CollectorEvent}
use time_agent.Main.System.{handle_in, seen, start_up-IsProper}
use time_agent.Main.Endpoint.{default_endpoint_refused}
use time_agent.Main.Program.{Started, start_up}
use time_agent.Main.Readers.{AllStarted, start_up-AllStarted}
use time_agent.Procfs.Cpu
use time_agent.Procfs.Memory
use time_agent.Network
use time_agent.SysMetrics
use time_agent.Temperature
use time_agent.Tests.Files.{small_os}

abbrev both_set : Members
both_set = record { sender = true; context = true }

destroy-releases_example :
    releases (destroy other_exception returns both_set) ≡ release_sender ∷ release_context ∷ []
destroy-releases_example = destroy-releases other_exception returns both_set

pub data Place : Type 0 where
  root services ptp4l source enabled : Place

-- A file with ptp4l on and read from the journal, and with no other section.
abbrev pub child_node : Place → String → Access Place
child_node root k = if equal (codes k) (codes "services") then found services else undefined
child_node services k = if equal (codes k) (codes "ptp4l") then found ptp4l else undefined
child_node ptp4l k = if equal (codes k) (codes "source") then found source else found enabled
child_node source k = undefined
child_node enabled k = undefined

abbrev pub yaml : Yaml
yaml = record {
  Node = Place;
  load_file = λ path. if equal path (codes "a.yaml") then some root else none;
  get = child_node;
  as_string = λ n. some (codes "journal");
  as_int = λ n. none;
  as_bool = λ n. some true;
  elements = λ n. [];
}

-- A library that connects to every endpoint, and one that refuses the empty one.
abbrev pub zmq : Zmq
zmq = record {
  Socket = Bytes;
  create = some [];
  set_sndhwm = λ s n. some s;
  set_linger = λ s n. some s;
  connect = λ s endpoint. some endpoint;
}

abbrev strict_zmq : Zmq
strict_zmq = record zmq {
  connect = λ s endpoint. if equal endpoint [] then none else some endpoint;
}

default_endpoint_refused_example :
    start_up yaml
      (λ c. true)
      strict_zmq
      (pos 0)
      small_os
      (λ p. true)
      (λ p. none)
      {Double = Unit}
      (codes "time-agent" ∷ codes "b.yaml" ∷ [])
      0
      []
    ≡ none
unfolding equal load
default_endpoint_refused_example =
    default_endpoint_refused yaml (λ c. true) strict_zmq (pos 0) small_os (λ p. true) (λ p. none)
      Unit (codes "time-agent" ∷ codes "b.yaml" ∷ []) 0 [] refl (λ s. refl)

abbrev ptp4l_journal : List (Bytes × CollectorSpec)
ptp4l_journal = (codes "ptp4l", journal (codes "ptp4l")) ∷ []

abbrev agent : AgentParts CollectorSpec
agent = record {
  node = [];
  collectors = ptp4l_journal;
  sys_metrics_collector = record {
    temperature_zones = [];
    network_collector = Network.new_collector (codes "/sys/class/net");
    cpu_collector = record { fd = some 1; prev_idle = 0; prev_total = 0 };
    memory_collector = record { fd = some 3 };
  };
  ptp_topology_collector = fresh_config.config_ptp_topology;
  poll_timeout_ms = none;
}

abbrev pub up : Started Unit Bytes (List ℕ)
up = record {
  warned = false;
  logger = Logging.init [];
  socket = [];
  agent = agent;
  world = 3 ∷ 1 ∷ [];
  readers = (journal (codes "ptp4l"), handle_ptp4l) ∷ [];
}

pub starts_up :
    start_up yaml
      (λ c. true)
      zmq
      (pos 0)
      small_os
      (λ p. true)
      (λ p. none)
      {Double = Unit}
      (codes "time-agent" ∷ codes "a.yaml" ∷ [])
      0
      []
    ≡ some up
unfolding equal start_up load_or_default load load_root section read_services add_service
    read_service Socket.construct Setup.construct SysMetrics.construct Temperature.construct
    Cpu.construct Memory.construct start_readers handler make_collector build_collectors
    add_collector put
starts_up = refl

start_up-AllStarted_example :
    (ptp4l_journal
      ≡ build_collectors (λ c. true) [] (load_or_default yaml (codes "a.yaml")).service)
    × AllStarted ptp4l_journal up.readers
start_up-AllStarted_example =
    start_up-AllStarted Unit yaml (λ c. true) zmq (pos 0) small_os (λ p. true) (λ p. none)
      (codes "time-agent" ∷ codes "a.yaml" ∷ []) 0 [] {s = up} starts_up

-- The reader of the journal has taken one line from it.
abbrev line : CollectorEvent
line = record { ts_usec = 3; unit = codes "ptp4l"; msg = codes "rms 5 max 7 freq -3 +/- 2 delay 9" }

abbrev pub surroundings : ℕ → CollectorEvent → Context
surroundings i e = record {
  node = [];
  resolve = λ name. [];
  topology_enabled = false;
  collect_topology = none;
  unset = 0;
}

abbrev running : State Unit
running = record (initial (λ i. line ∷ [])) { running = true; main = joining_readers }

abbrev at_read : State Unit
at_read = set_reader running 0 (record (running.readers 0) { phase = reading })

abbrev after_read : State Unit
after_read = set_reader at_read 0 (record {
  phase = handling (handle_in up surroundings 0 line);
  consumed = line ∷ [];
  pending = [];
})

start_up-IsProper_example :
    ([] ++ handle_in up surroundings 0 line ≡ effects_for (handle_in up surroundings 0) (line ∷ []))
    × (line ∷ [] ≡ line ∷ [])
    × All
        (λ e. IsProper Unit (seen up surroundings 0 e) e (handle_in up surroundings 0 e))
        (line ∷ [])
start_up-IsProper_example =
    start_up-IsProper Unit yaml (λ c. true) zmq (pos 0) small_os (λ p. true) (λ p. none)
      (codes "time-agent" ∷ codes "a.yaml" ∷ []) 0 [] {s = up} surroundings (λ i. line ∷ [])
      {t = after_read} starts_up
      (next (next (next here (start refl)) (check 0 (omega arith) refl refl))
        (read 0 line [] (omega arith) refl refl))
      0 (omega arith)
