-- ===== src/Main/Program.antt =====
-- `main` itself, src/main.cpp lines 15 to 28 and 59 to 93: from the arguments to the start of the
-- threads, and the handler of the signals.
use time_agent.Base.{
  ℕ, Bool, false, not, List, [], ◌∷◌, ◌==◌, Option, none, some, Bytes, codes, ◌>>=◌,
}
use time_agent.Base.Int.{ℤ}
use time_agent.Config.Loader.{Yaml, load_or_default}
use time_agent.Logging
use time_agent.Logging.{Logger}
use time_agent.Main.{CollectorSpec, build_collectors}
use time_agent.Os.{Os}
use time_agent.Temperature.{HwmonEntry}
use time_agent.Adapter.Socket
use time_agent.Adapter.Socket.{Zmq}
use time_agent.Agent.Setup
use time_agent.Agent.Setup.{AgentParts, Handler, start_readers}
use time_agent.Agent.Threads.{State}

-- `argv`, the name of the program first.
abbrev pub config_path : List Bytes → Bytes
config_path [] = codes "../config.yaml"
config_path (program ∷ []) = codes "../config.yaml"
config_path (program ∷ path ∷ rest) = path

-- Whether the check warns, from the effective user.
abbrev pub check_journal_access : ℕ → Bool
check_journal_access euid = not (euid == 0)

-- `g_loop` is null, or the agent. `Agent::stop` is a step of its threads.
unfoldable pub signal_handler : {Double : Type 0} → Option (State Double) → Option (State Double)
signal_handler none = none
signal_handler (some s) = some (record s { running = false })

-- What `main` has set up when `run` has started the readers.
pub record Started (Double Socket World : Type 0) : Type 0 where
  pub warned : Bool
  pub logger : Logger
  pub socket : Socket
  pub agent : AgentParts CollectorSpec
  pub world : World
  pub readers : List (CollectorSpec × Handler Double)

module _ (y : Yaml) (starts : CollectorSpec → Bool) (z : Zmq) (unset : ℤ) (os : Os)
    (exists : Bytes → Bool) (hwmon : Bytes → Option (List HwmonEntry)) {Double : Type 0} where
  -- `none` where an exception ends the program.
  unfoldable pub start_up : List Bytes → ℕ → os.World → Option (Started Double z.Socket os.World)
  start_up argv euid w =
      let config = load_or_default y (config_path argv) in
      let collectors = build_collectors starts [] config.service in
      do
        socket ← Socket.construct z unset config.config_zmq
        (agent, w') ← Setup.construct os exists hwmon w collectors config
        some (record {
          warned = check_journal_access euid;
          logger = Logging.init config.monitor_config.log_level;
          socket = socket;
          agent = agent;
          world = w';
          readers = start_readers agent.collectors;
        })
