-- ===== src/Temperature.antt =====
-- `TemperatureCollector`, src/system_metrics.cpp lines 112 to 206. The directory tree that the
-- constructor walks is given as data; opening an input file is the operating system's.
pub mod Zones
pub mod Sensors
pub mod Sources
pub mod Readings
pub mod Unnumbered
use time_agent.Base.{
  ℕ, Bool, false, not, ◌&&◌, ◌||◌, List, [], ◌∷◌, ◌++◌, Option, none, some, Bytes, codes, equal,
  if◌then◌else◌, is_empty, drop, ◌>>=◌,
}
use time_agent.Base.Int.{ℤ}
use time_agent.Text.{starts_with, contains}
use time_agent.Number.{stoi, to_string, from_chars_int}
use time_agent.Metrics.{TemperatureMetric, TemperatureStats}
use time_agent.Os.{Os}

-- A file in the directory of a sensor: its name, and its first line if it has one.
pub record SensorFile : Type 0 where
  pub filename : Bytes
  pub first_line : Option Bytes

-- An entry of the hwmon directory: its path, the first line of its file "name", and its own
-- entries; `none` where a listing throws `filesystem_error`.
pub record HwmonEntry : Type 0 where
  pub path : Bytes
  pub is_directory : Bool
  pub name : Option Bytes
  pub files : Option (List SensorFile)

pub record TempZone : Type 0 where
  pub sensor : Bytes
  pub label : Bytes
  pub input_path : Bytes
  pub fd : ℕ

abbrev pub member : Bytes → List Bytes → Bool
member n [] = false
member n (x ∷ xs) = equal n x || member n xs

-- `sensorToPath[name] = path`; the path stands with what its listing will deliver.
unfoldable pub put_sensor :
    Bytes → HwmonEntry → List (Bytes × HwmonEntry) → List (Bytes × HwmonEntry)
put_sensor name e [] = (name, e) ∷ []
put_sensor name e ((n, f) ∷ m) =
    if equal n name then (name, e) ∷ m else (n, f) ∷ put_sensor name e m

abbrev pub note_sensor :
    List Bytes → HwmonEntry → Option Bytes → List (Bytes × HwmonEntry) → List (Bytes × HwmonEntry)
note_sensor sensors e none m = m
note_sensor sensors e (some name) m = if member name sensors then put_sensor name e m else m

-- The first loop of the constructor.
unfoldable pub find_sensors :
    List Bytes → List HwmonEntry → List (Bytes × HwmonEntry) → List (Bytes × HwmonEntry)
unfolding put_sensor
find_sensors sensors [] m = m
find_sensors sensors (e ∷ es) m =
    find_sensors sensors es (if e.is_directory then note_sensor sensors e e.name m else m)

-- `filename.find("temp") != 0 || filename.find("_label") == npos` is false.
unfoldable pub is_label_file : Bytes → Bool
is_label_file name = starts_with (codes "temp") name && contains (codes "_label") name

-- `std::stoi` is not caught: the constructor throws.
pub data Scan {ℓ} (A : Type ℓ) : Type ℓ where
  done : A → Scan A
  throws : Scan A

module _ (os : Os) (exists : Bytes → Bool) where
  open os use {World, open_file}

  abbrev opened : Bytes → Bytes → Bytes → Option ℕ × World → List TempZone × World
  opened sensor label path (none, w) = ([], w)
  opened sensor label path (some fd, w) =
      (record { sensor = sensor; label = label; input_path = path; fd = fd } ∷ [], w)

  abbrev labelled : World → Bytes → Bytes → Option Bytes → List TempZone × World
  labelled w sensor path none = ([], w)
  labelled w sensor path (some label) =
      if exists path then opened sensor label path (open_file w path) else ([], w)

  abbrev numbered : World → Bytes → Bytes → SensorFile → Option ℤ → Scan (List TempZone × World)
  numbered w sensor dir f none = throws
  numbered w sensor dir f (some num) =
      done (
        labelled w sensor (dir ++ (codes "/temp" ++ (to_string num ++ codes "_input")))
          f.first_line)

  -- The zones that one file adds, at most one.
  unfoldable pub scan_file : World → Bytes → Bytes → SensorFile → Scan (List TempZone × World)
  scan_file w sensor dir f =
      if not (is_label_file f.filename)
      then done ([], w)
      else numbered w sensor dir f (stoi (drop 4 f.filename))

  -- The zones of a first part of the scan, and of the rest.
  abbrev pub append_zones :
      List TempZone → Scan (List TempZone × World) → Scan (List TempZone × World)
  append_zones zs throws = throws
  append_zones zs (done (rest, w)) = done (zs ++ rest, w)

  abbrev pub scan_then :
      Scan (List TempZone × World)
      → (World → Scan (List TempZone × World))
      → Scan (List TempZone × World)
  scan_then throws rest = throws
  scan_then (done (zs, w)) rest = append_zones zs (rest w)

  unfoldable pub scan_files : World → Bytes → Bytes → List SensorFile → Scan (List TempZone × World)
  scan_files w sensor dir [] = done ([], w)
  scan_files w sensor dir (f ∷ fs) =
      scan_then (scan_file w sensor dir f) (λ w'. scan_files w' sensor dir fs)

  abbrev listing : Option (List SensorFile) → List SensorFile
  listing none = []
  listing (some fs) = fs

  -- The second loop of the constructor.
  unfoldable pub scan_sensors : World → List (Bytes × HwmonEntry) → Scan (List TempZone × World)
  scan_sensors w [] = done ([], w)
  scan_sensors w ((sensor, e) ∷ m) =
      scan_then (scan_files w sensor e.path (listing e.files)) (λ w'. scan_sensors w' m)

  abbrev construct_from :
      World → List Bytes → Option (List HwmonEntry) → Scan (List TempZone × World)
  construct_from w sensors none = done ([], w)
  construct_from w sensors (some es) = scan_sensors w (find_sensors sensors es [])

  -- `none` where the listing of the hwmon directory throws `filesystem_error`.
  unfoldable pub construct :
      World → List Bytes → Option (List HwmonEntry) → Scan (List TempZone × World)
  unfolding find_sensors scan_sensors
  construct w sensors entries = construct_from w sensors entries

module _ (os : Os) where
  open os use {World, pread, close_file}

  -- `sizeof(buf) - 1`
  abbrev pub temperature_buffer : ℕ
  temperature_buffer = 15

  some_bytes : Bytes → Option Bytes
  some_bytes s = if is_empty s then none else some s

  unfoldable pub read_zone : World → TempZone → Option TemperatureMetric
  unfolding some_bytes
  read_zone w z = do
    delivered ← pread w z.fd temperature_buffer
    buf ← some_bytes delivered
    temp ← from_chars_int buf
    some (record { sensor = z.sensor; label = z.label; temperature = temp })

  abbrev pub add_reading :
      Option TemperatureMetric → List TemperatureMetric → List TemperatureMetric
  add_reading none rs = rs
  add_reading (some r) rs = r ∷ rs

  unfoldable pub readings : World → List TempZone → List TemperatureMetric
  readings w [] = []
  readings w (z ∷ zs) = add_reading (read_zone w z) (readings w zs)

  -- A zone that cannot be read or parsed is left out.
  unfoldable pub collect : World → List TempZone → Option TemperatureStats
  unfolding readings
  collect w zones = some (record { zones_readings = readings w zones })

  -- The destructor.
  unfoldable pub destroy : World → List TempZone → World
  destroy w [] = w
  destroy w (z ∷ zs) = destroy (close_file w z.fd) zs
