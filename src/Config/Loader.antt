-- ===== src/Config/Loader.antt =====
-- `ConfigLoader`, src/config.cpp. The YAML library is a parameter; an exception of it makes `load`
-- return `none`.
pub mod Services
use time_agent.Base.{
  Bool, false, ◌||◌, List, [], ◌∷◌, ◌++◌, Option, none, some, Bytes, String, codes, equal,
  if◌then◌else◌, ◌>>=◌,
}
use time_agent.Base.Int.{ℤ}
use time_agent.Config.{
  GlobalConfig, ServiceConfig, MonitoringConfig, TemperatureCollectorConfig, ZmqConfig,
  PtpTopologyConfig, AgentConfig, fresh_config, default_config,
}

-- What `node[key]` yields: an exception, an undefined node, or a node.
pub data Access {ℓ} (A : Type ℓ) : Type ℓ where
  throws undefined : Access A
  found : A → Access A

-- The conversions are `none` where `as<…>()` throws.
pub record Yaml : Type 1 where
  pub Node : Type 0
  pub load_file : Bytes → Option Node
  pub get : Node → String → Access Node
  pub as_string : Node → Option Bytes
  pub as_int : Node → Option ℤ
  pub as_bool : Node → Option Bool
  pub elements : Node → List Node

abbrev contains_name : Bytes → List Bytes → Bool
contains_name n [] = false
contains_name n (x ∷ xs) = equal n x || contains_name n xs

-- `std::unordered_set::emplace`
abbrev pub emplace : Bytes → List Bytes → List Bytes
emplace n xs = if contains_name n xs then xs else n ∷ xs

module _ (y : Yaml) where
  open y use {Node, load_file, get, as_string, as_int, as_bool, elements}

  -- `if (node[key]) { … node[key] … }`
  abbrev when_found {ℓ} : {C : Type ℓ} → Access Node → (Node → Option C) → C → Option C
  when_found throws f c = none
  when_found undefined f c = some c
  when_found (found n) f c = f n

  -- `if (node[key]) { field = node[key].as<…>(); }`
  abbrev field {ℓ κ} :
      {A : Type κ} {C : Type ℓ} → Node → String → (Node → Option A) → (A → C → C) → C → Option C
  field n key conv store c = when_found (get n key) (λ m. do a ← conv m; some (store a c)) c

  unfoldable pub read_global : Node → GlobalConfig → Option GlobalConfig
  read_global n c = field n "node" as_string (λ a g. record g { node = a }) c

  unfoldable pub read_settings : Node → MonitoringConfig → Option MonitoringConfig
  read_settings n c = do
    c ← field n "poll_timeout_ms" as_int (λ a m. record m { poll_timeout_ms = some a }) c
    c ← field n "log_level" as_string (λ a m. record m { log_level = a }) c
    field n "sys_metric_update_freq" as_int (λ a m. record m { sys_metric_update_freq = some a }) c

  unfoldable pub read_sensors :
      List Node → TemperatureCollectorConfig → Option TemperatureCollectorConfig
  read_sensors [] c = some c
  read_sensors (n ∷ ns) c = do
    c ← field n "name" as_string (λ a t. record t { sensors = emplace a t.sensors }) c
    read_sensors ns c

  unfoldable pub read_temperature :
      Node → TemperatureCollectorConfig → Option TemperatureCollectorConfig
  unfolding read_sensors
  read_temperature n c = when_found (get n "sensors") (λ s. read_sensors (elements s) c) c

  unfoldable pub read_zmq : Node → ZmqConfig → Option ZmqConfig
  read_zmq n c = do
    c ← field n "endpoint" as_string (λ a z. record z { endpoint = a }) c
    c ← field n "queue_size" as_int (λ a z. record z { queue_size = some a }) c
    field n "timeout_after_close_ms" as_int (λ a z. record z { timeout_after_close_ms = some a }) c

  unfoldable pub read_topology : Node → PtpTopologyConfig → Option PtpTopologyConfig
  read_topology n c = do
    c ← field n "on" as_bool (λ a t. record t { on = a }) c
    c ← field n "pmc_path" as_string (λ a t. record t { pmc_path = a }) c
    c ← field n "uds_path" as_string (λ a t. record t { uds_path = a }) c
    c ← field n "config_path" as_string (λ a t. record t { config_path = a }) c
    c ← field n "domain_number" as_int (λ a t. record t { domain_number = a }) c
    field n "boundary_hops" as_int (λ a t. record t { boundary_hops = a }) c

  -- `.as<bool>(false)`
  abbrev or_false : Option Bool → Bool
  or_false none = false
  or_false (some b) = b

  abbrev bool_or_false : Access Node → Option Bool
  bool_or_false throws = none
  bool_or_false undefined = some false
  bool_or_false (found n) = some (or_false (as_bool n))

  -- `node[key].as<std::string>()` with no test: an undefined node throws.
  abbrev required : Access Node → Option Bytes
  required throws = none
  required undefined = none
  required (found n) = as_string n

  -- The blocks for ptp4l and phc2sys.
  unfoldable pub read_service : Bytes → Node → Option ServiceConfig
  read_service name n = do
    enabled ← bool_or_false (get n "on")
    source ← required (get n "source")
    some (record { on = enabled; name = name; source = source; dev = [] })

  unfoldable pub read_ppswatch : Node → Option ServiceConfig
  read_ppswatch n = do
    enabled ← bool_or_false (get n "on")
    dev ← required (get n "dev")
    source ← required (get n "source")
    some (record { on = enabled; name = codes "ppswatch"; source = source; dev = dev })

  unfoldable pub add_service :
      Access Node → (Node → Option ServiceConfig) → List ServiceConfig → Option (List ServiceConfig)
  add_service a read c = when_found a (λ n. do s ← read n; some (c ++ s ∷ [])) c

  unfoldable pub read_services : Node → List ServiceConfig → Option (List ServiceConfig)
  read_services n c = do
    c ← add_service (get n "ptp4l") (read_service (codes "ptp4l")) c
    c ← add_service (get n "phc2sys") (read_service (codes "phc2sys")) c
    add_service (get n "ppswatch") read_ppswatch c

  -- The section of the file under a key, or the initial value.
  unfoldable pub section {ℓ} : {C : Type ℓ} → Node → String → (Node → C → Option C) → C → Option C
  section root key read c = when_found (get root key) (λ n. read n c) c

  unfoldable pub load_root : Node → Option AgentConfig
  load_root root = do
    global ← section root "global" read_global fresh_config.global_config
    settings ← section root "settings" read_settings fresh_config.monitor_config
    temperature ←
        section root "temperature" read_temperature fresh_config.config_temperature_collector
    zmq ← section root "zmq" read_zmq fresh_config.config_zmq
    topology ← section root "ptp_topology" read_topology fresh_config.config_ptp_topology
    services ← section root "services" read_services fresh_config.service
    some (record {
      global_config = global;
      monitor_config = settings;
      service = services;
      config_temperature_collector = temperature;
      config_zmq = zmq;
      config_ptp_topology = topology;
    })

  unfoldable pub load : Bytes → Option AgentConfig
  load path = do root ← load_file path; load_root root

  abbrev or_default : Option AgentConfig → AgentConfig
  or_default none = default_config
  or_default (some c) = c

  unfoldable pub load_or_default : Bytes → AgentConfig
  load_or_default path = or_default (load path)
