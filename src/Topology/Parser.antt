-- ===== src/Topology/Parser.antt =====
-- `PtpTopologyParser::parse`, src/ptp_topology.cpp lines 89 to 172: one loop for each output of
-- `pmc`, then the search for the port in the state SLAVE.
use time_agent.Base.{
  ℕ, List, [], ◌∷◌, ◌++◌, Option, none, some, Bytes, codes, equal, if◌then◌else◌, is_empty,
}
use time_agent.Base.Int.{ℤ, pos, to_int_32}
use time_agent.Text.{first_token, lines}
use time_agent.Floating.{Floating}
use time_agent.Topology.{
  PtpPortSnapshot, PtpTopologySnapshot, parse_key_value, parse_port_number, parse_clock_identity,
  parse_nanoseconds,
}

abbrev pub empty_snapshot : ℕ → PtpTopologySnapshot
empty_snapshot now = record {
  timestamp_us = now;
  local_clock_identity = [];
  parent_clock_identity = [];
  parent_port_number = pos 0;
  grandmaster_identity = [];
  steps_removed = pos 0;
  mean_path_delay_ns = pos 0;
  child_port_number = pos 0;
  ports = [];
}

-- `if (const auto x = …) field = *x;`
abbrev pub or_keep {ℓ} : {A : Type ℓ} → A → Option A → A
or_keep old none = old
or_keep old (some new) = new

unfoldable pub default_line : PtpTopologySnapshot → Option (Bytes × Bytes) → PtpTopologySnapshot
default_line s none = s
default_line s (some (key, value)) =
    if equal key (codes "clockIdentity")
    then record s { local_clock_identity = first_token value }
    else s

unfoldable pub parent_line : PtpTopologySnapshot → Option (Bytes × Bytes) → PtpTopologySnapshot
parent_line s none = s
parent_line s (some (key, value)) =
    let identity = first_token value in
    if equal key (codes "parentPortIdentity")
    then record s {
      parent_clock_identity = parse_clock_identity identity;
      parent_port_number = or_keep s.parent_port_number (parse_port_number identity);
    }
    else if equal key (codes "grandmasterIdentity")
    then record s { grandmaster_identity = identity }
    else s

abbrev pub to_int : Option ℤ → Option ℤ
to_int none = none
to_int (some z) = some (to_int_32 z)

unfoldable pub current_line :
    Floating → PtpTopologySnapshot → Option (Bytes × Bytes) → PtpTopologySnapshot
current_line fl s none = s
current_line fl s (some (key, value)) =
    if equal key (codes "stepsRemoved")
    then record s { steps_removed = or_keep s.steps_removed (to_int (parse_nanoseconds fl value)) }
    else if equal key (codes "meanPathDelay")
    then record s { mean_path_delay_ns = or_keep s.mean_path_delay_ns (parse_nanoseconds fl value) }
    else s

-- The ports pushed so far, and `currentPort`.
pub record PortScan : Type 0 where
  pub ports : List PtpPortSnapshot
  pub current : Option PtpPortSnapshot

abbrev pub push_port : List PtpPortSnapshot → Option PtpPortSnapshot → List PtpPortSnapshot
push_port ps none = ps
push_port ps (some c) = ps ++ c ∷ []

abbrev pub push_current : PortScan → List PtpPortSnapshot
push_current p = push_port p.ports p.current

abbrev pub new_port : Bytes → PtpPortSnapshot
new_port identity = record {
  port_number = or_keep (pos 0) (parse_port_number identity);
  port_identity = identity;
  state = [];
}

abbrev pub with_state : Bytes → Option PtpPortSnapshot → Option PtpPortSnapshot
with_state state none = none
with_state state (some c) = some (record c { state = state })

unfoldable pub port_line : PortScan → Option (Bytes × Bytes) → PortScan
port_line p none = p
port_line p (some (key, value)) =
    if equal key (codes "portIdentity")
    then record { ports = push_current p; current = some (new_port (first_token value)) }
    else if equal key (codes "portState")
    then record p { current = with_state (first_token value) p.current }
    else p

-- A `while (std::getline(…))` loop whose body reads the line by `parseKeyValue`.
unfoldable pub scan_lines {ℓ} : {S : Type ℓ} → (S → Option (Bytes × Bytes) → S) → S → List Bytes → S
scan_lines body s [] = s
scan_lines body s (l ∷ ls) = scan_lines body (body s (parse_key_value l)) ls

-- The number of the first port that is SLAVE, or the old value.
unfoldable pub child_port : ℤ → List PtpPortSnapshot → ℤ
child_port old [] = old
child_port old (p ∷ ps) = if equal p.state (codes "SLAVE") then p.port_number else child_port old ps

unfoldable pub scan_ports : Bytes → List PtpPortSnapshot
unfolding scan_lines port_line
scan_ports port_data_set =
    push_current
      (scan_lines port_line (record { ports = []; current = none }) (lines port_data_set))

unfoldable pub parse : Floating → ℕ → Bytes → Bytes → Bytes → Bytes → Option PtpTopologySnapshot
parse fl now default_data_set parent_data_set current_data_set port_data_set =
    let s = scan_lines default_line (empty_snapshot now) (lines default_data_set) in
    let s = scan_lines parent_line s (lines parent_data_set) in
    let s = scan_lines (current_line fl) s (lines current_data_set) in
    let ps = scan_ports port_data_set in
    let s = record s { ports = ps; child_port_number = child_port s.child_port_number ps } in
    if is_empty s.local_clock_identity then none else some s
