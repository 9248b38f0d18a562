-- ===== src/Collector/Phc2Sys.antt =====
-- `Phc2SysParser` of src/collector.cpp, lines 26 to 41 and 97.
pub mod Metrics
pub mod Printed
use time_agent.Base.{
  Bool, List, [], ◌∷◌, ◌++◌, Option, none, some, Bytes, codes, length, ◌==◌, if◌then◌else◌,
}
use time_agent.Base.Int.{pos}
use time_agent.Text.{contains}
use time_agent.Scanf.{
  Directive, Value, int, item, skip, lf, d64, d32, word, sscanf, literal, assign,
}
use time_agent.Metrics.{Phc2SysStats}

abbrev pub zero_stats : Phc2SysStats
zero_stats = record {
  unit = [];
  timestamp_us = 0;
  offset = pos 0;
  freq = pos 0;
  path_delay = pos 0;
  state = pos 0;
}

abbrev pub ignore : Value → Phc2SysStats → Phc2SysStats
ignore v s = s

abbrev pub set_offset : Value → Phc2SysStats → Phc2SysStats
set_offset (int z) s = record s { offset = z }
set_offset _ s = s

abbrev pub set_freq : Value → Phc2SysStats → Phc2SysStats
set_freq (int z) s = record s { freq = z }
set_freq _ s = s

abbrev pub set_path_delay : Value → Phc2SysStats → Phc2SysStats
set_path_delay (int z) s = record s { path_delay = z }
set_path_delay _ s = s

abbrev pub set_state : Value → Phc2SysStats → Phc2SysStats
set_state (int z) s = record s { state = z }
set_state _ s = s

-- "[%lf] %*s rms %*lld max %lld freq %lld +/- %*lld delay %lld +/- %*lld"
abbrev pub rms_format : List Directive
rms_format =
    literal "["
    ++ item lf
      ∷ (literal "] "
          ++ skip word
            ∷ (literal " rms "
                ++ skip d64
                  ∷ (literal " max "
                      ++ item d64
                        ∷ (literal " freq "
                            ++ item d64
                              ∷ (literal " +/- "
                                  ++ skip d64
                                    ∷ (literal " delay "
                                        ++ item d64 ∷ (literal " +/- " ++ skip d64 ∷ [])))))))

-- "[%lf] %*s %*s offset %lld s%d freq %lld delay %lld"
abbrev pub offset_format : List Directive
offset_format =
    literal "["
    ++ item lf
      ∷ (literal "] "
          ++ skip word
            ∷ (literal " "
                ++ skip word
                  ∷ (literal " offset "
                      ++ item d64
                        ∷ (literal " s"
                            ++ item d32
                              ∷ (literal " freq "
                                  ++ item d64 ∷ (literal " delay " ++ item d64 ∷ []))))))

abbrev pub rms_stores : List (Value → Phc2SysStats → Phc2SysStats)
rms_stores = ignore ∷ set_offset ∷ set_freq ∷ set_path_delay ∷ []

abbrev pub offset_stores : List (Value → Phc2SysStats → Phc2SysStats)
offset_stores = ignore ∷ set_offset ∷ set_state ∷ set_freq ∷ set_path_delay ∷ []

unfoldable pub parse_metrics : Bytes → Option Phc2SysStats
parse_metrics msg =
    let rms = sscanf msg rms_format in
    let res = assign rms_stores rms zero_stats in
    let full = sscanf msg offset_format in
    if length rms == 4
    then some res
    else if length full == 5
    then some (assign offset_stores full res)
    else none

unfoldable pub is_waiting : Bytes → Bool
is_waiting msg = contains (codes "Waiting for ptp4l") msg
