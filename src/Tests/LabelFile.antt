-- ===== src/Tests/LabelFile.antt =====
-- A sensor whose directory has the file "temp_label".
use time_agent.Base.{
  true, none, some, List, [], ◌∷◌, ◌≡◌, refl, String, codes, equal, if◌then◌else◌,
}
use mathlib.Core.List.Memᴰ
use time_agent.Base.Int.{pos}
use time_agent.Config.Loader.{
  Yaml, Access, undefined, found, load, load_or_default, load_root, section, read_temperature,
  read_sensors,
}
use time_agent.Number.{stoi, read_int, read_digits, is_digit}
use time_agent.Text.{is_space, starts_with, contains, take_while, skip_while}
use time_agent.Temperature.{HwmonEntry, SensorFile, is_label_file}
use time_agent.Temperature.Unnumbered.{IsUnnumbered}
use time_agent.Main.Program.{start_up}
use time_agent.Main.LabelFile.{label_file_ends}
use time_agent.Tests.Files.{small_os}
use time_agent.Tests.Startup.{zmq}

data Spot : Type 0 where
  top temperature sensor_list sensor sensor_name : Spot

-- A file with the one sensor "coretemp".
abbrev child : Spot → String → Access Spot
child top k = if equal (codes k) (codes "temperature") then found temperature else undefined
child temperature k = if equal (codes k) (codes "sensors") then found sensor_list else undefined
child sensor k = if equal (codes k) (codes "name") then found sensor_name else undefined
child s k = undefined

abbrev elements_of : Spot → List Spot
elements_of sensor_list = sensor ∷ []
elements_of s = []

abbrev yaml : Yaml
yaml = record {
  Node = Spot;
  load_file = λ path. some top;
  get = child;
  as_string = λ n. some (codes "coretemp");
  as_int = λ n. none;
  as_bool = λ n. none;
  elements = elements_of;
}

abbrev file : SensorFile
file = record { filename = codes "temp_label"; first_line = none }

abbrev chip : HwmonEntry
chip = record {
  path = codes "/sys/class/hwmon/hwmon0";
  is_directory = true;
  name = some (codes "coretemp");
  files = some (file ∷ []);
}

chip-IsUnnumbered :
    IsUnnumbered (codes "coretemp" ∷ []) (chip ∷ []) (codes "coretemp") chip (file ∷ []) file
unfolding stoi read_int read_digits take_while skip_while is_space is_digit is_label_file
    starts_with contains equal
chip-IsUnnumbered = record {
  sensor = record { listed = Memᴰ.head refl; directory = refl; named = refl; configured = refl };
  only = ((λ h. refl), tt);
  lists = refl;
  listed = Memᴰ.head refl;
  is_label = refl;
  no_number = refl;
}

label_file_ends_example :
    start_up yaml
      (λ c. true)
      zmq
      (pos 0)
      small_os
      (λ p. true)
      (λ p. some (chip ∷ []))
      {Double = Unit}
      (codes "time-agent" ∷ [])
      0
      []
    ≡ none
unfolding load_or_default load load_root section read_temperature read_sensors equal
label_file_ends_example =
    label_file_ends Unit yaml (λ c. true) zmq (pos 0) small_os (λ p. true) (λ p. some (chip ∷ []))
      (codes "time-agent" ∷ []) 0 [] (chip ∷ []) (codes "coretemp") chip (file ∷ []) file refl
      chip-IsUnnumbered
