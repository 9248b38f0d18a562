-- ===== src/SysMetrics.antt =====
-- `SysMetricsCollector`, src/system_metrics.cpp lines 65 to 110: the four collectors behind one
-- snapshot.
pub mod Lifetime
use time_agent.Base.{ℕ, Bool, List, Option, none, some, Bytes, codes}
use time_agent.Config.{AgentConfig}
use time_agent.Floating.{Floating}
use time_agent.Metrics.{SystemStats}
use time_agent.Os.{Os}
use time_agent.Procfs.{source_of}
use time_agent.Procfs.Cpu
use time_agent.Procfs.Cpu.{CpuCollector, cpu_buffer}
use time_agent.Procfs.Memory
use time_agent.Procfs.Memory.{MemoryCollector, memory_buffer}
use time_agent.Network
use time_agent.Network.{NetworkCollector}
use time_agent.Temperature
use time_agent.Temperature.{TempZone, HwmonEntry, Scan, done, throws}

pub record SystemPaths : Type 0 where
  pub hwmon : Bytes
  pub net_stats : Bytes
  pub proc_stat : Bytes
  pub proc_meminfo : Bytes

-- `SystemPaths{}`
abbrev pub default_paths : SystemPaths
default_paths = record {
  hwmon = codes "/sys/class/hwmon";
  net_stats = codes "/sys/class/net";
  proc_stat = codes "/proc/stat";
  proc_meminfo = codes "/proc/meminfo";
}

pub record SysMetricsCollector : Type 0 where
  pub temperature_zones : List TempZone
  pub network_collector : NetworkCollector
  pub cpu_collector : CpuCollector
  pub memory_collector : MemoryCollector

module _ (os : Os) where
  open os use {World}

  -- The network, CPU and memory collectors, in the order of the members.
  abbrev pub with_zones : SystemPaths → List TempZone × World → SysMetricsCollector × World
  with_zones paths (zones, w) =
      let (cpu, w') = Cpu.construct os w paths.proc_stat in
      let (memory, w'') = Memory.construct os w' paths.proc_meminfo in
      (
        record {
          temperature_zones = zones;
          network_collector = Network.new_collector paths.net_stats;
          cpu_collector = cpu;
          memory_collector = memory;
        },
        w'',
      )

  abbrev constructed :
      SystemPaths → Scan (List TempZone × World) → Option (SysMetricsCollector × World)
  constructed paths throws = none
  constructed paths (done z) = some (with_zones paths z)

  -- `hwmon` is what the directory of that path holds, and `exists` which paths exist. `none` where
  -- the constructor of the temperature collector throws.
  unfoldable pub construct :
      (Bytes → Bool)
      → (Bytes → Option (List HwmonEntry))
      → World
      → AgentConfig
      → SystemPaths
      → Option (SysMetricsCollector × World)
  construct exists hwmon w config paths = constructed paths (
      Temperature.construct os exists w config.config_temperature_collector.sensors
        (hwmon paths.hwmon))

  -- The members' destructors, the last member first.
  unfoldable pub destroy : World → SysMetricsCollector → World
  destroy w c =
      let w1 = Memory.destroy os w c.memory_collector in
      let w2 = Cpu.destroy os w1 c.cpu_collector in
      let (closed, w3) = Network.close_fds os w2 c.network_collector in
      Temperature.destroy os w3 c.temperature_zones

  unfoldable pub set_interface : World → SysMetricsCollector → Bytes → SysMetricsCollector × World
  set_interface w c interface =
      let (n, w') = Network.set_interface os w c.network_collector interface in
      (record c { network_collector = n }, w')

  module _ (fl : Floating) where
    open fl use {Double}

    unfoldable pub collect :
        World → ℕ → SysMetricsCollector → SystemStats Double × SysMetricsCollector
    collect w now c =
        let (cpu, cpu') =
          Cpu.collect fl c.cpu_collector (source_of os w cpu_buffer c.cpu_collector.fd) in
        (
          record {
            timestamp_us = now;
            temperature_stats = Temperature.collect os w c.temperature_zones;
            network_stats = Network.collect os w c.network_collector;
            cpu_stats = cpu;
            memory_stats = Memory.collect (source_of os w memory_buffer c.memory_collector.fd);
          },
          record c { cpu_collector = cpu' },
        )
