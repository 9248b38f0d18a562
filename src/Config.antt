-- ===== src/Config.antt =====
-- src/config.cpp and include/config.h. An `int` with no initialiser is `none` until a value is
-- stored: reading it before would be undefined.
pub mod Loader
use time_agent.Base.{Bool, false, List, [], Option, none, some, Bytes, codes}
use time_agent.Base.Int.{ℤ, pos}

pub record GlobalConfig : Type 0 where
  pub node : Bytes

pub record ServiceConfig : Type 0 where
  pub on : Bool
  pub name : Bytes
  pub source : Bytes
  pub dev : Bytes

pub record MonitoringConfig : Type 0 where
  pub poll_timeout_ms : Option ℤ
  pub sys_metric_update_freq : Option ℤ
  pub log_level : Bytes

-- The set of sensor names, as a list without repetitions.
pub record TemperatureCollectorConfig : Type 0 where
  pub sensors : List Bytes

pub record ZmqConfig : Type 0 where
  pub endpoint : Bytes
  pub queue_size : Option ℤ
  pub timeout_after_close_ms : Option ℤ

pub record PtpTopologyConfig : Type 0 where
  pub on : Bool
  pub pmc_path : Bytes
  pub uds_path : Bytes
  pub config_path : Bytes
  pub domain_number : ℤ
  pub boundary_hops : ℤ

pub record AgentConfig : Type 0 where
  pub global_config : GlobalConfig
  pub monitor_config : MonitoringConfig
  pub service : List ServiceConfig
  pub config_temperature_collector : TemperatureCollectorConfig
  pub config_zmq : ZmqConfig
  pub config_ptp_topology : PtpTopologyConfig

-- `PtpTopologyConfig{}`
abbrev pub default_ptp_topology : PtpTopologyConfig
default_ptp_topology = record {
  on = false;
  pmc_path = codes "/usr/sbin/pmc";
  uds_path = codes "/var/run/ptp4lro";
  config_path = [];
  domain_number = pos 0;
  boundary_hops = pos 0;
}

-- `AgentConfig config;`
abbrev pub fresh_config : AgentConfig
fresh_config = record {
  global_config = record { node = [] };
  monitor_config = record { poll_timeout_ms = none; sys_metric_update_freq = none; log_level = [] };
  service = [];
  config_temperature_collector = record { sensors = [] };
  config_zmq = record { endpoint = []; queue_size = none; timeout_after_close_ms = none };
  config_ptp_topology = default_ptp_topology;
}

unfoldable pub default_config : AgentConfig
default_config = record fresh_config {
  monitor_config = record {
    poll_timeout_ms = some (pos 1000);
    sys_metric_update_freq = none;
    log_level = codes "info";
  };
}
