-- ===== src/Adapter/Delivery.antt =====
-- What reaches the wire.
use time_agent.Base.{
  ℕ, true, false, List, [], ◌∷◌, ◌≡◌, ◌≢◌, refl, sym, ap, Option, none, some, Bytes, map, arith,
  Option-cases, Bool-cases, inl, inr, ◌⊎◌,
}
use time_agent.Topology.{PtpPortSnapshot, PtpTopologySnapshot}
use time_agent.Convert.{
  MessageType, MetricsWrapper, Payload, ptp4l, phc2sys, system, pps, ptp4l_port_event, ptp_topology,
  message_type_ptp4l, message_type_phc2sys, message_type_system, message_type_pps,
  message_type_ptp4l_port_event, message_type_ptp_topology, topology_port, TopologyPort, stamp,
}
use time_agent.Adapter.{
  Sample, ptp, sys, port_event, topology, convert, ZmqAdapter, SendResult, accepted, full, error,
  send,
}
use time_agent.Convert.Copies.{system_payload}
use time_agent.Convert.{
  to_ptp4l_metrics, to_phc2sys_metrics, to_pps_metrics, to_port_event, to_ptp_topology_snapshot,
  to_system_metrics,
}

-- A receiver's reading of the payload.
abbrev pub port_of : TopologyPort → PtpPortSnapshot
port_of p = record { port_number = p.port; port_identity = p.port_identity; state = p.state }

map-port_of : (ps : List PtpPortSnapshot) → map port_of (map topology_port ps) ≡ ps
map-port_of [] = refl
map-port_of (p ∷ ps) = ap (◌∷◌ p) (map-port_of ps)

with_ports : PtpTopologySnapshot → List PtpPortSnapshot → PtpTopologySnapshot
with_ports s ps = record s { ports = ps }

accepted-cases : (r : SendResult) → (r ≡ accepted) ⊎ (r ≢ accepted)
accepted-cases accepted = inl refl
accepted-cases full = inr (λ e. cc)
accepted-cases error = inr (λ e. cc)

module _ {Double : Type 0} where
  -- The type that belongs to each member of the `oneof`.
  abbrev pub type_of : Payload Double → MessageType
  type_of (ptp4l m) = message_type_ptp4l
  type_of (phc2sys m) = message_type_phc2sys
  type_of (system m) = message_type_system
  type_of (pps m) = message_type_pps
  type_of (ptp4l_port_event m) = message_type_ptp4l_port_event
  type_of (ptp_topology m) = message_type_ptp_topology

  -- The time of a sample.
  abbrev pub time_of : Sample Double → ℕ
  time_of (ptp s) = s.timestamp_us
  time_of (Sample.phc2sys s) = s.timestamp_us
  time_of (Sample.pps s) = s.timestamp_us
  time_of (sys s) = s.timestamp_us
  time_of (port_event e) = e.timestamp_us
  time_of (topology s) = s.timestamp_us

  -- A payload carries all that its sample holds but the unit and the time.
  abbrev pub Carries : Sample Double → Payload Double → Type 0
  Carries (ptp s) (ptp4l m) = s ≡ record s {
    offset = m.offset_ns;
    freq = m.frequency;
    path_delay = m.path_delay;
    state = m.state;
  }
  Carries (Sample.phc2sys s) (phc2sys m) = s ≡ record s {
    offset = m.offset_ns;
    freq = m.frequency;
    path_delay = m.path_delay;
    state = m.state;
  }
  Carries (Sample.pps s) (pps offset) = s ≡ record s { offset = offset }
  Carries (sys s) (system m) = s ≡ record {
    timestamp_us = s.timestamp_us;
    temperature_stats = m.temperature_stats;
    network_stats = m.network_stats;
    cpu_stats = m.cpu_stats;
    memory_stats = m.memory_stats;
  }
  Carries (port_event e) (ptp4l_port_event m) = e ≡ record e {
    port_number = m.port;
    port_name = m.interface;
    adapter_name = m.adapter_name;
    from_state = m.from_state;
    to_state = m.to_state;
    trigger = m.event_trigger;
  }
  Carries (topology s) (ptp_topology m) = s ≡ record {
    timestamp_us = s.timestamp_us;
    local_clock_identity = m.local_clock_identity;
    parent_clock_identity = m.parent_clock_identity;
    parent_port_number = m.parent_port;
    grandmaster_identity = m.grandmaster_identity;
    steps_removed = m.steps_removed;
    mean_path_delay_ns = m.mean_path_delay_ns;
    child_port_number = m.child_port;
    ports = map port_of m.ports;
  }
  Carries _ _ = ⊥

  convert-Carries : (s : Sample Double) (node : Bytes) → Carries s (convert s node).payload
  unfolding convert to_ptp4l_metrics to_phc2sys_metrics to_pps_metrics to_port_event
      to_ptp_topology_snapshot with_ports
  convert-Carries (ptp s) node = refl
  convert-Carries (Sample.phc2sys s) node = refl
  convert-Carries (Sample.pps s) node = refl
  convert-Carries (sys s) node = rw system_payload
  convert-Carries (port_event e) node = refl
  convert-Carries (topology s) node = ap (with_ports s) (sym (map-port_of s.ports))

  convert_header :
      (s : Sample Double) (node : Bytes)
      → ((convert s node).message_type ≡ type_of (convert s node).payload)
        × ((convert s node).node_name ≡ node)
        × ((convert s node).timestamp ≡ stamp (time_of s))
  unfolding convert to_ptp4l_metrics to_phc2sys_metrics to_pps_metrics to_port_event
      to_ptp_topology_snapshot to_system_metrics
  convert_header (ptp s) node = (refl, refl, refl)
  convert_header (Sample.phc2sys s) node = (refl, refl, refl)
  convert_header (Sample.pps s) node = (refl, refl, refl)
  convert_header (sys s) node = (refl, refl, refl)
  convert_header (port_event e) node = (refl, refl, refl)
  convert_header (topology s) node = (refl, refl, refl)

  -- For each of the six kinds of sample: the type of the message fits the member of the `oneof` that
  -- is set, the node and the time are those given, and nothing of the sample but the name of its
  -- unit is lost: the sample is what its payload says, with its own unit and time.
  pub convert_faithful :
      (s : Sample Double) (node : Bytes)
      → ((convert s node).message_type ≡ type_of (convert s node).payload)
        × ((convert s node).node_name ≡ node)
        × ((convert s node).timestamp ≡ stamp (time_of s))
        × Carries s (convert s node).payload
  convert_faithful s node =
      let (kind, name, time) = convert_header s node in (kind, name, time, convert-Carries s node)

  -- The socket exists, the message can be serialised and the socket accepts it; then these bytes
  -- are added to the wire.
  pub record Sends (serialize : MetricsWrapper Double → Option Bytes) (a : ZmqAdapter)
      (r : SendResult) (msg : MetricsWrapper Double) (a' : ZmqAdapter) : Type 0 where
    pub bytes : Bytes
    pub connected : a.has_sender ≡ true
    pub taken : r ≡ accepted
    pub serialized : serialize msg ≡ some bytes
    pub added : a' ≡ record a { wire = bytes ∷ a.wire }

  -- One of these is missing, and nothing changes.
  pub record Fails (serialize : MetricsWrapper Double → Option Bytes) (a : ZmqAdapter)
      (r : SendResult) (msg : MetricsWrapper Double) (a' : ZmqAdapter) : Type 0 where
    pub missing : (a.has_sender ≡ false) ⊎ ((r ≢ accepted) ⊎ (serialize msg ≡ none))
    pub unchanged : a' ≡ a

  module _ (serialize : MetricsWrapper Double → Option Bytes) (a : ZmqAdapter) (r : SendResult)
      (s : Sample Double) (node : Bytes) where
    send_accepted :
        (m : Bytes)
        → a.has_sender ≡ true
        → r ≡ accepted
        → serialize (convert s node) ≡ some m
        → send serialize a r s node ≡ (true, record a { wire = m ∷ a.wire })
    unfolding send
    send_accepted m h k e = rw (h, k, e)

    send_refused :
        (a.has_sender ≡ false) ⊎ ((r ≢ accepted) ⊎ (serialize (convert s node) ≡ none))
        → send serialize a r s node ≡ (false, a)
    unfolding send
    send_refused h = ground arith

    abbrev Outcome : Type 0
    Outcome =
        (((send serialize a r s node).0 ≡ true)
          × Sends serialize a r (convert s node) (send serialize a r s node).1)
        ⊎ (((send serialize a r s node).0 ≡ false)
            × Fails serialize a r (convert s node) (send serialize a r s node).1)

    failed :
        (a.has_sender ≡ false) ⊎ ((r ≢ accepted) ⊎ (serialize (convert s node) ≡ none)) → Outcome
    failed h = rw (send_refused h) (inr (refl, record { missing = h; unchanged = refl }))

    -- A send returns true exactly when the socket exists, the message can be serialised and the
    -- socket accepts it; then these bytes, and nothing else, are added to the wire. In every other
    -- case it returns false and leaves the adapter as it was.
    pub send_outcome :
        (((send serialize a r s node).0 ≡ true)
          × Sends serialize a r (convert s node) (send serialize a r s node).1)
        ⊎ (((send serialize a r s node).0 ≡ false)
            × Fails serialize a r (convert s node) (send serialize a r s node).1)
    send_outcome = elim (Option-cases (serialize (convert s node))) [
      | inl e ↦ failed (inr (inr e))
      | inr (m, e) ↦ elim (Bool-cases a.has_sender) [
        | inr f ↦ failed (inl f)
        | inl t ↦ elim (accepted-cases r) [
          | inr k ↦ failed (inr (inl k))
          | inl k ↦ rw (send_accepted m t k e) (
              inl (
                refl,
                record { bytes = m; connected = t; taken = k; serialized = e; added = refl },
              ))
        ]
      ]
    ]
