-- ===== src/Main/LabelFile.antt =====
-- How `main` ends where the directory of a sensor has a label file with no number.
use time_agent.Base.{ℕ, Bool, List, ◌≡◌, refl, Option, none, some, Bytes, inl, inr, Option-cases}
use time_agent.Base.Int.{ℤ}
use time_agent.Config.Loader.{Yaml, load_or_default}
use time_agent.Os.{Os}
use time_agent.Temperature.{HwmonEntry, SensorFile}
use time_agent.Temperature.Unnumbered.{IsUnnumbered, construct-throws}
use time_agent.Adapter.Socket.{Zmq}
use time_agent.Adapter.Socket
use time_agent.SysMetrics
use time_agent.SysMetrics.{default_paths}
use time_agent.Agent.Setup
use time_agent.Main.{CollectorSpec}
use time_agent.Main.Program.{config_path, start_up}

module _ (Double : Type 0) (y : Yaml) (starts : CollectorSpec → Bool) (z : Zmq) (unset : ℤ)
    (os : Os) (exists : Bytes → Bool) (hwmon : Bytes → Option (List HwmonEntry)) where
  -- Where a configured sensor has a directory, the only one with its name, and in it a file whose name
  -- begins with "temp" and has "_label" in it, but no number behind "temp", the program does not start
  -- up: an exception ends it, whatever the rest of the configuration is.
  pub label_file_ends :
      (argv : List Bytes) (euid : ℕ) (w : os.World) (entries : List HwmonEntry) (name : Bytes)
      (e : HwmonEntry) (files : List SensorFile) (f : SensorFile)
      → hwmon default_paths.hwmon ≡ some entries
      → IsUnnumbered
          (load_or_default y (config_path argv)).config_temperature_collector.sensors
          entries
          name
          e
          files
          f
      → start_up y starts z unset os exists hwmon {Double = Double} argv euid w ≡ none
  unfolding start_up Setup.construct SysMetrics.construct
  label_file_ends argv euid w entries name e files f h u =
      elim (Option-cases
        (Socket.construct z unset (load_or_default y (config_path argv)).config_zmq)) [
          | inl n ↦ rw n refl
          | inr (s, n) ↦ rw (n, h, construct-throws os exists w _ entries name e files f u) refl
        ]
