-- ===== src/Convert.antt =====
-- The messages of src/adapter.cpp and include/timestamp_utils.h. `metrics.pb.h` is generated from a
-- file outside this repository: of a protobuf message the records keep the fields that are set
-- here, with the protobuf default 0 where the source sets none.
pub mod Timestamp
pub mod Copies
use time_agent.Base.{ℕ, suc, ◌*◌, ◌/◌, ◌%◌, List, Option, none, some, Bytes, map}
use time_agent.Base.Int.{ℤ, pos, negsuc, signed, to_int_64}
use time_agent.Metrics.{
  Ptp4lStats, Phc2SysStats, PpsStats, TemperatureMetric, TemperatureStats, NetworkStats, CpuStats,
  MemoryStats, SystemStats,
}
use time_agent.Collector.{PortEvent}
use time_agent.Topology.{PtpPortSnapshot, PtpTopologySnapshot}
use mathlib.Core.Bool.{true}

pub data MessageType : Type 0 where
  message_type_ptp4l message_type_phc2sys message_type_system message_type_pps : MessageType
  message_type_ptp4l_port_event message_type_ptp_topology : MessageType

-- google.protobuf.Timestamp
pub record ProtoTimestamp : Type 0 where
  pub seconds : ℤ
  pub nanos : ℤ

-- Division of `int64_t` by a positive number, towards zero, and its remainder.
unfoldable pub div_trunc : ℤ → ℕ → ℤ
div_trunc (pos n) d = pos (n / d)
div_trunc (negsuc n) d = signed true (suc n / d)

unfoldable pub mod_trunc : ℤ → ℕ → ℤ
mod_trunc (pos n) d = pos (n % d)
mod_trunc (negsuc n) d = signed true (suc n % d)

unfoldable pub mul_ℕ : ℤ → ℕ → ℤ
mul_ℕ (pos n) d = pos (n * d)
mul_ℕ (negsuc n) d = signed true (suc n * d)

unfoldable pub from_us : ℤ → ProtoTimestamp
unfolding div_trunc mod_trunc mul_ℕ
from_us us = record { seconds = div_trunc us 1000000; nanos = mul_ℕ (mod_trunc us 1000000) 1000 }

pub record ServoMessage : Type 0 where
  pub path_delay : ℤ
  pub frequency : ℤ
  pub offset_ns : ℤ
  pub state : ℤ

pub record SystemMessage (Double : Type 0) : Type 0 where
  pub cpu_stats : Option (CpuStats Double)
  pub memory_stats : Option MemoryStats
  pub network_stats : Option NetworkStats
  pub temperature_stats : Option TemperatureStats

pub record PortEventMessage : Type 0 where
  pub port : ℤ
  pub interface : Bytes
  pub from_state : Bytes
  pub to_state : Bytes
  pub adapter_name : Bytes
  pub event_trigger : Bytes

pub record TopologyPort : Type 0 where
  pub port : ℤ
  pub port_identity : Bytes
  pub state : Bytes

pub record TopologyMessage : Type 0 where
  pub local_clock_identity : Bytes
  pub parent_clock_identity : Bytes
  pub parent_port : ℤ
  pub grandmaster_identity : Bytes
  pub steps_removed : ℤ
  pub mean_path_delay_ns : ℤ
  pub child_port : ℤ
  pub ports : List TopologyPort

-- The member of the `oneof` that `mutable_…` selects.
pub data Payload (Double : Type 0) : Type 0 where
  ptp4l : ServoMessage → Payload Double
  phc2sys : ServoMessage → Payload Double
  system : SystemMessage Double → Payload Double
  pps : ℤ → Payload Double
  ptp4l_port_event : PortEventMessage → Payload Double
  ptp_topology : TopologyMessage → Payload Double

pub record MetricsWrapper (Double : Type 0) : Type 0 where
  pub message_type : MessageType
  pub node_name : Bytes
  pub timestamp : ProtoTimestamp
  pub payload : Payload Double

-- The argument of `from_us` is an `int64_t`, the field a `uint64_t`.
abbrev pub stamp : ℕ → ProtoTimestamp
stamp us = from_us (to_int_64 us)

abbrev pub topology_port : PtpPortSnapshot → TopologyPort
topology_port p = record { port = p.port_number; port_identity = p.port_identity; state = p.state }

-- The blocks of `to_system_metrics`, one setter for each field.
copy_memory : MemoryStats → MemoryStats
copy_memory m = record {
  mem_available_kb = m.mem_available_kb;
  mem_free_kb = m.mem_free_kb;
  swap_total_kb = m.swap_total_kb;
  swap_free_kb = m.swap_free_kb;
  buffers_kb = m.buffers_kb;
}

copy_network : NetworkStats → NetworkStats
copy_network n = record {
  rx_packets = n.rx_packets;
  tx_packets = n.tx_packets;
  rx_dropped = n.rx_dropped;
  tx_dropped = n.tx_dropped;
  rx_errors = n.rx_errors;
  tx_errors = n.tx_errors;
  collisions = n.collisions;
}

copy_zone : TemperatureMetric → TemperatureMetric
copy_zone z = record { sensor = z.sensor; label = z.label; temperature = z.temperature }

copy_temperature : TemperatureStats → TemperatureStats
unfolding copy_zone
copy_temperature t = record { zones_readings = map copy_zone t.zones_readings }

abbrev when_set {ℓ} : {A : Type ℓ} → (A → A) → Option A → Option A
when_set copy none = none
when_set copy (some a) = some (copy a)

module _ {Double : Type 0} where
  unfoldable pub to_ptp4l_metrics : Ptp4lStats → Bytes → MetricsWrapper Double
  to_ptp4l_metrics s node = record {
    message_type = message_type_ptp4l;
    node_name = node;
    timestamp = stamp s.timestamp_us;
    payload = ptp4l (record {
      path_delay = s.path_delay;
      frequency = s.freq;
      offset_ns = s.offset;
      state = s.state;
    });
  }

  unfoldable pub to_phc2sys_metrics : Phc2SysStats → Bytes → MetricsWrapper Double
  to_phc2sys_metrics s node = record {
    message_type = message_type_phc2sys;
    node_name = node;
    timestamp = stamp s.timestamp_us;
    payload = phc2sys (record {
      path_delay = s.path_delay;
      frequency = s.freq;
      offset_ns = s.offset;
      state = s.state;
    });
  }

  copy_cpu : CpuStats Double → CpuStats Double
  copy_cpu c = record {
    usage_percent = c.usage_percent;
    context_switches = c.context_switches;
    interrupts = c.interrupts;
    softirqs = c.softirqs;
  }

  -- A group is set only if it is there.
  unfoldable pub to_system_metrics : SystemStats Double → Bytes → MetricsWrapper Double
  unfolding copy_cpu copy_memory copy_network copy_temperature
  to_system_metrics s node = record {
    message_type = message_type_system;
    node_name = node;
    timestamp = stamp s.timestamp_us;
    payload = system (record {
      cpu_stats = when_set copy_cpu s.cpu_stats;
      memory_stats = when_set copy_memory s.memory_stats;
      network_stats = when_set copy_network s.network_stats;
      temperature_stats = when_set copy_temperature s.temperature_stats;
    });
  }

  unfoldable pub to_pps_metrics : PpsStats → Bytes → MetricsWrapper Double
  to_pps_metrics s node = record {
    message_type = message_type_pps;
    node_name = node;
    timestamp = stamp s.timestamp_us;
    payload = pps s.offset;
  }

  unfoldable pub to_port_event : PortEvent → Bytes → MetricsWrapper Double
  to_port_event e node = record {
    message_type = message_type_ptp4l_port_event;
    node_name = node;
    timestamp = stamp e.timestamp_us;
    payload = ptp4l_port_event (record {
      port = e.port_number;
      interface = e.port_name;
      from_state = e.from_state;
      to_state = e.to_state;
      adapter_name = e.adapter_name;
      event_trigger = e.trigger;
    });
  }

  unfoldable pub to_ptp_topology_snapshot : PtpTopologySnapshot → Bytes → MetricsWrapper Double
  to_ptp_topology_snapshot s node = record {
    message_type = message_type_ptp_topology;
    node_name = node;
    timestamp = stamp s.timestamp_us;
    payload = ptp_topology (record {
      local_clock_identity = s.local_clock_identity;
      parent_clock_identity = s.parent_clock_identity;
      parent_port = s.parent_port_number;
      grandmaster_identity = s.grandmaster_identity;
      steps_removed = s.steps_removed;
      mean_path_delay_ns = s.mean_path_delay_ns;
      child_port = s.child_port_number;
      ports = map topology_port s.ports;
    });
  }
