-- ===== src/Topology.antt =====
-- src/ptp_topology.cpp and include/ptp_topology.h: the records, the helpers over one line, and
-- below it the parser of the four outputs of `pmc` and the collector that runs `pmc`.
pub mod Identity
pub mod Parser
pub mod Ports
pub mod Fields
pub mod Snapshot
pub mod Grouping
pub mod Pmc
use time_agent.Base.{
  ℕ, ◌+◌, ◌-◌, Bool, ◌||◌, List, [], ◌∷◌, Option, none, some, Bytes, codes, ◌==◌, if◌then◌else◌,
  drop, is_empty, length, leb, ◌>>=◌,
}
use time_agent.Base.Int.{ℤ}
use time_agent.Text.{trim, first_token, read_token, find_last, starts_with, substr}
use time_agent.Number.{stoi}
use time_agent.Floating.{Floating}

pub record PtpPortSnapshot : Type 0 where
  pub port_number : ℤ
  pub port_identity : Bytes
  pub state : Bytes

pub record PtpTopologySnapshot : Type 0 where
  pub timestamp_us : ℕ
  pub local_clock_identity : Bytes
  pub parent_clock_identity : Bytes
  pub parent_port_number : ℤ
  pub grandmaster_identity : Bytes
  pub steps_removed : ℤ
  pub mean_path_delay_ns : ℤ
  pub child_port_number : ℤ
  pub ports : List PtpPortSnapshot

key_value : Bytes → Bytes → Option (Bytes × Bytes)
key_value [] rest = none
key_value (c ∷ key) rest =
    let value = trim rest in if is_empty value then none else some (c ∷ key, value)

-- `none` where `parseKeyValue` returns false; its callers read `key` and `value` in no such case.
-- The callers pass one line, without its newline, so that `getline` reads all that is left of it.
unfoldable pub parse_key_value : Bytes → Option (Bytes × Bytes)
unfolding key_value
parse_key_value line =
    let trimmed = trim line in
    if is_empty trimmed || starts_with (codes "sending:") trimmed
    then none
    else key_value (read_token trimmed).0 (read_token trimmed).1

abbrev pub is_dash : ℕ → Bool
is_dash c = c == b'-'

port_behind : Bytes → Option ℕ → Option ℤ
port_behind s none = none
port_behind s (some dash) = if leb (length s) (dash + 1) then none else stoi (drop (dash + 1) s)

unfoldable pub parse_port_number : Bytes → Option ℤ
unfolding port_behind
parse_port_number identity = port_behind identity (find_last is_dash identity)

clock_before : Bytes → Option ℕ → Bytes
clock_before token none = token
clock_before token (some dash) = substr token 0 dash

unfoldable pub parse_clock_identity : Bytes → Bytes
unfolding clock_before
parse_clock_identity identity =
    let token = first_token identity in clock_before token (find_last is_dash token)

module _ (fl : Floating) where
  -- `static_cast<int64_t>(std::llround(std::stod(token)))`
  unfoldable pub parse_nanoseconds : Bytes → Option ℤ
  parse_nanoseconds value =
      let token = first_token value in
      if is_empty token then none else (do d ← fl.stod token; some (fl.llround d))
