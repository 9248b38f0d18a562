-- ===== src/Logging.antt =====
-- include/logging.h: the logger that `logging::init` installs, and `logging::shutdown`; what is
-- logged is left out.
use time_agent.Base.{Bytes, codes, equal, if◌then◌else◌}

-- The levels of the logging library that the source names.
pub data Level : Type 0 where
  debug info warn err : Level

pub record Logger : Type 0 where
  pub name : Bytes
  pub pattern : Bytes
  pub level : Level
  pub flush_on : Level

abbrev pub level_of : Bytes → Level
level_of level =
    if equal level (codes "debug")
    then debug
    else if equal level (codes "info")
    then info
    else if equal level (codes "warn")
    then warn
    else if equal level (codes "error")
    then err
    else info

unfoldable pub init : Bytes → Logger
init level = record {
  name = codes "time-agent";
  pattern = codes "[%Y-%m-%d %H:%M:%S.%e] [%^%l%$] %v";
  level = level_of level;
  flush_on = warn;
}

-- What `spdlog::shutdown` does to the loggers that the library holds is the library's.
unfoldable pub shutdown : {Loggers : Type 0} → (Loggers → Loggers) → Loggers → Loggers
shutdown spdlog_shutdown loggers = spdlog_shutdown loggers
