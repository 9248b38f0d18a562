-- ===== src/Collector/Pps.antt =====
-- `PPSParser` of src/collector.cpp, lines 99 to 108. The source declares `PPSStats res;`, so
-- `timestamp_us` holds no value until the agent stores one: `unset` stands for what is there.
pub mod Printed
use time_agent.Base.{ℕ, List, [], ◌∷◌, ◌++◌, Option, none, some, Bytes, length, ◌==◌, if◌then◌else◌}
use time_agent.Base.Int.{pos}
use time_agent.Scanf.{Directive, Value, int, item, d64, sscanf, literal, assign}
use time_agent.Metrics.{PpsStats}

abbrev pub ignore : Value → PpsStats → PpsStats
ignore v s = s

abbrev pub set_offset : Value → PpsStats → PpsStats
set_offset (int z) s = record s { offset = z }
set_offset _ s = s

-- "timestamp: %lld, sequence: %lld, offset: %lld"
abbrev pub pps_format : List Directive
pps_format =
    literal "timestamp: "
    ++ item d64 ∷ (literal ", sequence: " ++ item d64 ∷ (literal ", offset: " ++ item d64 ∷ []))

abbrev pub pps_stores : List (Value → PpsStats → PpsStats)
pps_stores = ignore ∷ ignore ∷ set_offset ∷ []

abbrev pub fresh : ℕ → PpsStats
fresh unset = record { unit = []; timestamp_us = unset; offset = pos 0 }

unfoldable pub parse_metrics : ℕ → Bytes → Option PpsStats
parse_metrics unset msg =
    let vs = sscanf msg pps_format in
    if length vs == 3 then some (assign pps_stores vs (fresh unset)) else none
