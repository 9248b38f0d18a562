-- ===== src/Collector/Ptp4l.antt =====
-- `Ptp4lParser` of src/collector.cpp, lines 11 to 24 and 43 to 95. A call of `sscanf` yields the
-- values that it converted; the stores through its pointers are a list of setters.
pub mod Metrics
pub mod Printed
pub mod Line
use time_agent.Base.{
  not, ◌||◌, List, [], ◌∷◌, ◌++◌, Option, none, some, Bytes, codes, length, ◌==◌, if◌then◌else◌,
}
use time_agent.Base.Int.{pos}
use time_agent.Text.{contains}
use time_agent.Scanf.{
  Directive, Value, int, text, item, skip, lf, d64, d32, word, str, until, sscanf, literal, assign,
}
use time_agent.Metrics.{Ptp4lStats}
use time_agent.Collector.{PortEvent, ForeignMasterEvent, BestMasterEvent}

abbrev pub ignore {ℓ} : {S : Type ℓ} → Value → S → S
ignore v s = s

abbrev pub zero_stats : Ptp4lStats
zero_stats = record {
  unit = [];
  timestamp_us = 0;
  offset = pos 0;
  freq = pos 0;
  path_delay = pos 0;
  state = pos 0;
}

abbrev pub set_offset : Value → Ptp4lStats → Ptp4lStats
set_offset (int z) s = record s { offset = z }
set_offset _ s = s

abbrev pub set_freq : Value → Ptp4lStats → Ptp4lStats
set_freq (int z) s = record s { freq = z }
set_freq _ s = s

abbrev pub set_path_delay : Value → Ptp4lStats → Ptp4lStats
set_path_delay (int z) s = record s { path_delay = z }
set_path_delay _ s = s

abbrev pub set_state : Value → Ptp4lStats → Ptp4lStats
set_state (int z) s = record s { state = z }
set_state _ s = s

-- "[%lf] rms %*lld max %lld freq %lld +/- %*lld delay %lld +/- %*lld"
abbrev pub rms_format : List Directive
rms_format =
    literal "["
    ++ item lf
      ∷ (literal "] rms "
          ++ skip d64
            ∷ (literal " max "
                ++ item d64
                  ∷ (literal " freq "
                      ++ item d64
                        ∷ (literal " +/- "
                            ++ skip d64
                              ∷ (literal " delay "
                                  ++ item d64 ∷ (literal " +/- " ++ skip d64 ∷ []))))))

-- "[%lf] %*s offset %lld s%d freq %lld path delay %lld"
abbrev pub offset_format : List Directive
offset_format =
    literal "["
    ++ item lf
      ∷ (literal "] "
          ++ skip word
            ∷ (literal " offset "
                ++ item d64
                  ∷ (literal " s"
                      ++ item d32
                        ∷ (literal " freq "
                            ++ item d64 ∷ (literal " path delay " ++ item d64 ∷ [])))))

abbrev pub rms_stores : List (Value → Ptp4lStats → Ptp4lStats)
rms_stores = ignore ∷ set_offset ∷ set_freq ∷ set_path_delay ∷ []

abbrev pub offset_stores : List (Value → Ptp4lStats → Ptp4lStats)
offset_stores = ignore ∷ set_offset ∷ set_state ∷ set_freq ∷ set_path_delay ∷ []

-- The second call stores into the record that the first one may have stored into already.
unfoldable pub parse_metrics : Bytes → Option Ptp4lStats
parse_metrics msg =
    let rms = sscanf msg rms_format in
    let res = assign rms_stores rms zero_stats in
    let full = sscanf msg offset_format in
    if length rms == 4
    then some res
    else if length full == 5
    then some (assign offset_stores full res)
    else none

abbrev pub empty_port_event : PortEvent
empty_port_event = record {
  unit = [];
  timestamp_us = 0;
  port_number = pos 0;
  port_name = [];
  adapter_name = [];
  from_state = [];
  to_state = [];
  trigger = [];
}

-- "[%lf] port %d (%127[^)]): %63s to %63s on %127[^\n]"
abbrev pub port_format : List Directive
port_format =
    literal "["
    ++ item lf
      ∷ (literal "] port "
          ++ item d32
            ∷ (literal " ("
                ++ item (until b')' 127)
                  ∷ (literal "): "
                      ++ item (str 63)
                        ∷ (literal " to "
                            ++ item (str 63) ∷ (literal " on " ++ item (until b'\n' 127) ∷ [])))))

-- The six values, in order, copied into the event.
port_event : List Value → Option PortEvent
port_event (t ∷ int number ∷ text name ∷ text from ∷ text to ∷ text trigger ∷ []) =
    some (record empty_port_event {
      port_number = number;
      port_name = name;
      from_state = from;
      to_state = to;
      trigger = trigger;
    })
port_event _ = none

unfoldable pub parse_port_event : Bytes → Option PortEvent
unfolding port_event
parse_port_event msg =
    if not (contains (codes "port ") msg) || not (contains (codes " to ") msg)
    then none
    else port_event (sscanf msg port_format)

-- "[%lf] port %d (%127[^)]): new foreign master %63[^-]-%d"
abbrev pub foreign_format : List Directive
foreign_format =
    literal "["
    ++ item lf
      ∷ (literal "] port "
          ++ item d32
            ∷ (literal " ("
                ++ item (until b')' 127)
                  ∷ (literal "): new foreign master "
                      ++ item (until b'-' 63) ∷ (literal "-" ++ item d32 ∷ []))))

foreign_event : List Value → Option ForeignMasterEvent
foreign_event (t ∷ int number ∷ text name ∷ text identity ∷ int master_port ∷ []) = some (record {
  unit = [];
  timestamp_us = 0;
  port_number = number;
  port_name = name;
  master_clock_identity = identity;
  master_port_number = master_port;
})
foreign_event _ = none

unfoldable pub parse_foreign_master_event : Bytes → Option ForeignMasterEvent
unfolding foreign_event
parse_foreign_master_event msg =
    if not (contains (codes "new foreign master") msg)
    then none
    else foreign_event (sscanf msg foreign_format)

-- "[%lf] selected best master clock %63s"
abbrev pub best_format : List Directive
best_format =
    literal "[" ++ item lf ∷ (literal "] selected best master clock " ++ item (str 63) ∷ [])

-- "[%lf] selected local clock %63s as best master"
abbrev pub local_format : List Directive
local_format =
    literal "["
    ++ item lf ∷ (literal "] selected local clock " ++ item (str 63) ∷ literal " as best master")

best_event : List Value → Option BestMasterEvent
best_event (t ∷ text identity ∷ []) =
    some (record { unit = []; timestamp_us = 0; master_clock_identity = identity })
best_event _ = none

or_else {ℓ} : {A : Type ℓ} → Option A → Option A → Option A
or_else (some a) b = some a
or_else none b = b

unfoldable pub parse_best_master_event : Bytes → Option BestMasterEvent
unfolding best_event or_else
parse_best_master_event msg =
    if not (contains (codes "selected") msg)
    then none
    else or_else (best_event (sscanf msg best_format)) (best_event (sscanf msg local_format))
