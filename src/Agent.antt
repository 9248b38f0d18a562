-- ===== src/Agent.antt =====
-- `Agent` of src/agent.cpp: the three handlers and their table. What a handler does beyond its own
-- parsing is a list of effects in order: calls of `SysMetricsCollector::setInterface` and of the
-- adapter. Log messages are left out.
pub mod Handlers
pub mod Threads
pub mod Setup
use time_agent.Base.{ℕ, Bool, List, [], ◌∷◌, Option, none, some, Bytes, codes, equal, if◌then◌else◌}
use time_agent.Text.{contains}
use time_agent.Metrics.{Ptp4lStats, Phc2SysStats, PpsStats}
use time_agent.Collector.{CollectorEvent, PortEvent, ForeignMasterEvent, BestMasterEvent}
use time_agent.Collector.Ptp4l
use time_agent.Collector.Ptp4l.{
  parse_port_event, parse_foreign_master_event, parse_best_master_event,
}
use time_agent.Collector.Phc2Sys
use time_agent.Collector.Phc2Sys.{is_waiting}
use time_agent.Collector.Pps
use time_agent.Topology.{PtpTopologySnapshot}
use time_agent.Adapter.{Sample, ptp, phc2sys, pps, port_event, topology}

pub data Effect (Double : Type 0) : Type 0 where
  set_interface : Bytes → Effect Double
  send : Sample Double → Bytes → Effect Double

-- What a handler uses of the agent and of the world at one event: the node's name, the resolver of
-- adapter names, whether the topology collector is enabled, what it would deliver, and the value
-- that an uninitialised field happens to hold.
pub record Context : Type 0 where
  pub node : Bytes
  pub resolve : Bytes → Bytes
  pub topology_enabled : Bool
  pub collect_topology : Option PtpTopologySnapshot
  pub unset : ℕ

abbrev pub stamped_port : CollectorEvent → PortEvent → PortEvent
stamped_port e p = record p { timestamp_us = e.ts_usec; unit = e.unit }

abbrev pub stamped_ptp : CollectorEvent → Ptp4lStats → Ptp4lStats
stamped_ptp e m = record m { timestamp_us = e.ts_usec; unit = e.unit }

module _ {Double : Type 0} where
  send_snapshot : Context → Option PtpTopologySnapshot → List (Effect Double)
  send_snapshot x none = []
  send_snapshot x (some s) = send (topology s) x.node ∷ []

  best_master : Context → Option BestMasterEvent → List (Effect Double)
  unfolding send_snapshot
  best_master x none = []
  best_master x (some b) = if x.topology_enabled then send_snapshot x x.collect_topology else []

  -- A foreign master is only logged.
  foreign_master : Context → CollectorEvent → Option ForeignMasterEvent → List (Effect Double)
  unfolding best_master
  foreign_master x e none = best_master x (parse_best_master_event e.msg)
  foreign_master x e (some f) = []

  -- A port of the Unix-domain socket has a path for its name.
  port : Context → CollectorEvent → Option PortEvent → List (Effect Double)
  unfolding foreign_master
  port x e none = foreign_master x e (parse_foreign_master_event e.msg)
  port x e (some p) =
      if contains (codes "/") p.port_name
      then send (port_event (stamped_port e p)) x.node ∷ []
      else set_interface p.port_name
        ∷ send (port_event (record (stamped_port e p) { adapter_name = x.resolve p.port_name }))
            x.node
        ∷ []

  ptp4l_metrics : Context → CollectorEvent → Option Ptp4lStats → List (Effect Double)
  unfolding port
  ptp4l_metrics x e none = port x e (parse_port_event e.msg)
  ptp4l_metrics x e (some m) = send (ptp (stamped_ptp e m)) x.node ∷ []

  unfoldable pub handle_ptp4l : Context → CollectorEvent → List (Effect Double)
  unfolding ptp4l_metrics
  handle_ptp4l x e = ptp4l_metrics x e (Ptp4l.parse_metrics e.msg)

  -- Both ways on without metrics only log.
  phc2sys_metrics : Context → CollectorEvent → Option Phc2SysStats → List (Effect Double)
  phc2sys_metrics x e none = if is_waiting e.msg then [] else []
  phc2sys_metrics x e (some m) =
      send (phc2sys (record m { timestamp_us = e.ts_usec; unit = e.unit })) x.node ∷ []

  unfoldable pub handle_phc2sys : Context → CollectorEvent → List (Effect Double)
  unfolding phc2sys_metrics
  handle_phc2sys x e = phc2sys_metrics x e (Phc2Sys.parse_metrics e.msg)

  pps_metrics : Context → CollectorEvent → Option PpsStats → List (Effect Double)
  pps_metrics x e none = []
  pps_metrics x e (some m) =
      send (pps (record m { timestamp_us = e.ts_usec; unit = e.unit })) x.node ∷ []

  unfoldable pub handle_pps : Context → CollectorEvent → List (Effect Double)
  unfolding pps_metrics
  handle_pps x e = pps_metrics x e (Pps.parse_metrics x.unset e.msg)

  -- `handlers_.find(name)`
  unfoldable pub handler : Bytes → Option (Context → CollectorEvent → List (Effect Double))
  handler name =
      if equal name (codes "ptp4l")
      then some handle_ptp4l
      else if equal name (codes "phc2sys")
      then some handle_phc2sys
      else if equal name (codes "ppswatch")
      then some handle_pps
      else none
