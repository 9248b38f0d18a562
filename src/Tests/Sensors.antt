-- ===== src/Tests/Sensors.antt =====
-- A hwmon directory with one sensor.
use time_agent.Base.{true, some, [], ◌∷◌, ◌≡◌, refl, codes, All, equal}
use time_agent.Metrics.{TemperatureStats}
use time_agent.Temperature.{
  HwmonEntry, TempZone, collect, construct, done, scan_file, scan_files, is_label_file, put_sensor,
}
use time_agent.Temperature.Readings.{IsReading, collect-AreSourced}
use time_agent.Text.{is_space, starts_with, contains, take_while, skip_while}
use time_agent.Number.{stoi, read_int, read_digits, to_string, show, is_digit, decimal}
use time_agent.Tests.Files.{small_os}

abbrev chip : HwmonEntry
chip = record {
  path = codes "/sys/class/hwmon/hwmon0";
  is_directory = true;
  name = some (codes "coretemp");
  files = some (
      record { filename = codes "name"; first_line = some (codes "coretemp") }
      ∷ record { filename = codes "temp2_label"; first_line = some (codes "Core 0") }
      ∷ []);
}

abbrev zone : TempZone
zone = record {
  sensor = codes "coretemp";
  label = codes "Core 0";
  input_path = codes "/sys/class/hwmon/hwmon0/temp2_input";
  fd = 1;
}

built :
    construct small_os (λ path. true) [] (codes "coretemp" ∷ []) (some (chip ∷ []))
    ≡ done (zone ∷ [], 1 ∷ [])
unfolding is_space construct equal starts_with contains scan_file scan_files is_label_file
    put_sensor stoi read_int read_digits to_string show take_while skip_while is_digit decimal
built = refl

collect-AreSourced_example :
    (stats : TemperatureStats) × (collect small_os (1 ∷ []) (zone ∷ []) ≡ some stats)
    × All
        (IsReading small_os (λ path. true) (codes "coretemp" ∷ []) (chip ∷ []) (1 ∷ []))
        stats.zones_readings
collect-AreSourced_example =
    collect-AreSourced small_os (λ path. true) [] (1 ∷ []) (codes "coretemp" ∷ []) (chip ∷ []) built
