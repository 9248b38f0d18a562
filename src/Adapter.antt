-- ===== src/Adapter.antt =====
-- `ZMQAdapter` of src/adapter.cpp and include/adapter.h. Serialisation by protobuf and the socket
-- of ZeroMQ are parameters; `wire` is what the socket has accepted, the last message first.
pub mod Delivery
pub mod Socket
use time_agent.Base.{Bool, true, false, List, ◌∷◌, Option, none, some, Bytes, if◌then◌else◌}
use time_agent.Metrics.{Ptp4lStats, Phc2SysStats, PpsStats, SystemStats}
use time_agent.Collector.{PortEvent}
use time_agent.Topology.{PtpTopologySnapshot}
use time_agent.Convert.{
  MetricsWrapper, to_ptp4l_metrics, to_phc2sys_metrics, to_system_metrics, to_pps_metrics,
  to_port_event, to_ptp_topology_snapshot,
}

-- What the agent hands to its adapter: the argument of one of the six methods of `IAdapter`.
pub data Sample (Double : Type 0) : Type 0 where
  ptp : Ptp4lStats → Sample Double
  phc2sys : Phc2SysStats → Sample Double
  pps : PpsStats → Sample Double
  sys : SystemStats Double → Sample Double
  port_event : PortEvent → Sample Double
  topology : PtpTopologySnapshot → Sample Double

pub record ZmqAdapter : Type 0 where
  pub has_sender : Bool
  pub wire : List Bytes

-- `sender_->send` returns a size, returns none because the queue is full, or throws.
pub data SendResult : Type 0 where
  accepted full error : SendResult

module _ {Double : Type 0} where
  unfoldable pub convert : Sample Double → Bytes → MetricsWrapper Double
  convert (ptp s) node = to_ptp4l_metrics s node
  convert (phc2sys s) node = to_phc2sys_metrics s node
  convert (pps s) node = to_pps_metrics s node
  convert (sys s) node = to_system_metrics s node
  convert (port_event e) node = to_port_event e node
  convert (topology s) node = to_ptp_topology_snapshot s node

  module _ (serialize : MetricsWrapper Double → Option Bytes) where
    abbrev pub transmit : ZmqAdapter → SendResult → Option Bytes → Bool × ZmqAdapter
    transmit a accepted (some m) = (true, record a { wire = m ∷ a.wire })
    transmit a full (some m) = (false, a)
    transmit a error (some m) = (false, a)
    transmit a r none = (false, a)

    unfoldable pub send_impl : ZmqAdapter → SendResult → MetricsWrapper Double → Bool × ZmqAdapter
    send_impl a r msg = if a.has_sender then transmit a r (serialize msg) else (false, a)

    -- The six methods: convert, then send.
    unfoldable pub send : ZmqAdapter → SendResult → Sample Double → Bytes → Bool × ZmqAdapter
    unfolding send_impl
    send a r s node = send_impl a r (convert s node)
