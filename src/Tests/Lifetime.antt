-- ===== src/Tests/Lifetime.antt =====
-- A run of the collector of src/system_metrics.cpp with one temperature sensor.
use time_agent.Base.{ℕ, List, [], ◌∷◌, ◌≡◌, true, refl, Option, some, Bytes, codes, equal, codes}
use time_agent.Config.{AgentConfig, fresh_config}
use time_agent.Temperature.{HwmonEntry, SensorFile}
use time_agent.Temperature
use time_agent.Network
use time_agent.Procfs.Cpu
use time_agent.Procfs.Memory
use time_agent.Text.{starts_with, contains, take_while, skip_while, is_space}
use time_agent.Number.{stoi, to_string, read_int, read_digits, is_digit, decimal}
use time_agent.SysMetrics.{SysMetricsCollector, SystemPaths, construct, destroy, set_interface}
use time_agent.SysMetrics.Lifetime.{born, renamed, destroy-construct}
use time_agent.Tests.Files.{small_os, small_os-IsPosix}

abbrev label_file : SensorFile
label_file = record { filename = codes "temp1_label"; first_line = some (codes "Core") }

abbrev hwmon : Bytes → Option (List HwmonEntry)
hwmon path = some (
    record {
      path = codes "/h/hwmon0";
      is_directory = true;
      name = some (codes "coretemp");
      files = some (label_file ∷ []);
    }
    ∷ [])

abbrev config : AgentConfig
config = record fresh_config {
  config_temperature_collector = record { sensors = codes "coretemp" ∷ [] };
}

abbrev paths : SystemPaths
paths = record {
  hwmon = codes "/h";
  net_stats = codes "/n";
  proc_stat = codes "/proc/stat";
  proc_meminfo = codes "/proc/meminfo";
}

-- Descriptor 2 is open before.
abbrev new_collector : SysMetricsCollector × List ℕ
new_collector = (
  record {
    temperature_zones =
        record {
          sensor = codes "coretemp";
          label = codes "Core";
          input_path = codes "/h/hwmon0/temp1_input";
          fd = 4;
        }
        ∷ [];
    network_collector = Network.new_collector (codes "/n");
    cpu_collector = record { fd = some 9; prev_idle = 0; prev_total = 0 };
    memory_collector = record { fd = some 19 };
  },
  19 ∷ 9 ∷ 4 ∷ 2 ∷ [],
)

constructs : construct small_os (λ p. true) hwmon (2 ∷ []) config paths ≡ some new_collector
unfolding construct Temperature.construct Temperature.find_sensors Temperature.put_sensor
    Temperature.scan_sensors Temperature.scan_files Temperature.scan_file Temperature.is_label_file
    starts_with contains stoi to_string equal read_int read_digits take_while skip_while is_space
    is_digit decimal Cpu.construct Memory.construct
constructs = refl

abbrev renamed_collector : SysMetricsCollector × List ℕ
renamed_collector = set_interface small_os new_collector.1 new_collector.0 (codes "eth0")

destroy-construct_example :
    small_os.is_open (destroy small_os renamed_collector.1 renamed_collector.0) 2 ≡ true
destroy-construct_example =
    destroy-construct small_os small_os-IsPosix (λ p. true) hwmon config paths
      (renamed (codes "eth0") (born constructs)) 2
