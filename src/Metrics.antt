-- ===== src/Metrics.antt =====
-- The statistics that the agent collects: include/system_metrics.h, lines 22 to 173. Integers of
-- 64 and 32 bits are kept as numbers in range; the type of floating-point numbers is a parameter.
use time_agent.Base.{ℕ, List, Option, Bytes}
use time_agent.Base.Int.{ℤ}

pub record Ptp4lStats : Type 0 where
  pub unit : Bytes
  pub timestamp_us : ℕ
  pub offset : ℤ
  pub freq : ℤ
  pub path_delay : ℤ
  pub state : ℤ

pub record Phc2SysStats : Type 0 where
  pub unit : Bytes
  pub timestamp_us : ℕ
  pub offset : ℤ
  pub freq : ℤ
  pub path_delay : ℤ
  pub state : ℤ

pub record PpsStats : Type 0 where
  pub unit : Bytes
  pub timestamp_us : ℕ
  pub offset : ℤ

pub record TemperatureMetric : Type 0 where
  pub sensor : Bytes
  pub label : Bytes
  pub temperature : ℤ

pub record TemperatureStats : Type 0 where
  pub zones_readings : List TemperatureMetric

pub record NetworkStats : Type 0 where
  pub rx_packets : ℕ
  pub tx_packets : ℕ
  pub rx_dropped : ℕ
  pub tx_dropped : ℕ
  pub rx_errors : ℕ
  pub tx_errors : ℕ
  pub collisions : ℕ

pub record CpuStats (Double : Type 0) : Type 0 where
  pub usage_percent : Double
  pub context_switches : ℕ
  pub interrupts : ℕ
  pub softirqs : ℕ

pub record MemoryStats : Type 0 where
  pub mem_available_kb : ℕ
  pub mem_free_kb : ℕ
  pub swap_total_kb : ℕ
  pub swap_free_kb : ℕ
  pub buffers_kb : ℕ

pub record SystemStats (Double : Type 0) : Type 0 where
  pub timestamp_us : ℕ
  pub temperature_stats : Option TemperatureStats
  pub network_stats : Option NetworkStats
  pub cpu_stats : Option (CpuStats Double)
  pub memory_stats : Option MemoryStats
