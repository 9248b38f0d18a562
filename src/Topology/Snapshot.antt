-- ===== src/Topology/Snapshot.antt =====
-- What `PtpTopologyParser::parse` returns, over its four loops.
use time_agent.Base.{
  ℕ, true, false, List, [], ◌∷◌, ◌≡◌, ◌≢◌, refl, Option, none, some, Bytes, codes, inl, inr,
  Bool-cases, is_empty,
}
use time_agent.Base.Int.{ℤ, pos}
use time_agent.Text.{lines}
use time_agent.Floating.{Floating}
use time_agent.Topology.{PtpTopologySnapshot, parse_nanoseconds}
use time_agent.Topology.Parser.{parse, empty_snapshot}
use time_agent.Topology.Fields.{
  last_value, token, clock_in, port_in, steps_in, default_told, parent_told, scan-default,
  scan-parent, scan-current,
}
use time_agent.Topology.Grouping.{ports_of, scan_ports-ports_of}
use time_agent.Topology.Ports.{IsChild, child_port-IsChild}

-- The lines of the outputs of `pmc` for the four data sets.
pub record DataSets : Type 0 where
  pub default_set : List Bytes
  pub parent_set : List Bytes
  pub current_set : List Bytes
  pub port_set : List Bytes

abbrev pub own_clock : DataSets → Bytes
own_clock d = last_value token (codes "clockIdentity") [] d.default_set

-- What the four data sets come to: a snapshot with the time and, in each field, the value in the last
-- line of its data set with its key, or 0 or an empty text; with one port for each group of lines;
-- and with the child port among these; or nothing, where there is no identity.
pub data Describes (fl : Floating) (now : ℕ) (d : DataSets)
    : Option PtpTopologySnapshot → Type 0 where
  known :
      {child : ℤ}
      → own_clock d ≢ []
      → IsChild (pos 0) (ports_of d.port_set) child
      → Describes fl now d (
          some (record {
            timestamp_us = now;
            local_clock_identity = own_clock d;
            parent_clock_identity =
                last_value clock_in (codes "parentPortIdentity") [] d.parent_set;
            parent_port_number =
                last_value port_in (codes "parentPortIdentity") (pos 0) d.parent_set;
            grandmaster_identity = last_value token (codes "grandmasterIdentity") [] d.parent_set;
            steps_removed = last_value (steps_in fl) (codes "stepsRemoved") (pos 0) d.current_set;
            mean_path_delay_ns =
                last_value (parse_nanoseconds fl) (codes "meanPathDelay") (pos 0) d.current_set;
            child_port_number = child;
            ports = ports_of d.port_set;
          }))
  unknown : own_clock d ≡ [] → Describes fl now d none

not_empty : (s : Bytes) → is_empty s ≡ false → s ≢ []
not_empty [] h = absurd (cc)
not_empty (c ∷ s) h = λ e. cc

empty : (s : Bytes) → is_empty s ≡ true → s ≡ []
empty [] h = refl
empty (c ∷ s) h = cc

abbrev pub lines_of : Bytes → Bytes → Bytes → Bytes → DataSets
lines_of default_out parent_out current_out port_out = record {
  default_set = lines default_out;
  parent_set = lines parent_out;
  current_set = lines current_out;
  port_set = lines port_out;
}

module _ (fl : Floating) (now : ℕ) (default_out parent_out current_out port_out : Bytes) where
  -- For all outputs, `parse` delivers a snapshot exactly when the last line of the default data set
  -- with the key "clockIdentity" has an identity. Each field then has the value in the last line of
  -- its data set with its key and a value that can be read, or its initial value; there is one port
  -- for each line with the key "portIdentity", with the state in the last line with the key
  -- "portState" before the next such line; and the child port is the first that is SLAVE, or 0.
  pub parse-Describes :
      Describes fl now
        (lines_of default_out parent_out current_out port_out)
        (parse fl now default_out parent_out current_out port_out)
  unfolding parse
  parse-Describes =
      let d = lines_of default_out parent_out current_out port_out in
      let start = empty_snapshot now in
      let own = default_told start d.default_set in
      rw
        (
          scan-default d.default_set start,
          scan-parent d.parent_set own,
          scan-current fl d.current_set (parent_told own d.parent_set),
          scan_ports-ports_of port_out,
        )
        (elim (Bool-cases (is_empty (own_clock d))) [
          | inl t ↦ rw t (unknown (empty _ t))
          | inr f ↦ rw f (known (not_empty _ f) (child_port-IsChild (pos 0) (ports_of d.port_set)))
        ])
