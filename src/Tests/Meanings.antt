-- ===== src/Tests/Meanings.antt =====
-- A program that has started up and read a line of ptp4l from the journal.
use time_agent.Base.{
  length, ap, ℕ, Bytes, Option, true, none, some, List, [], ◌∷◌, ◌++◌, ◌≡◌, refl, codes, arith,
}
use time_agent.Base.Int.{pos}
use time_agent.Collector.{CollectorEvent}
use time_agent.Adapter.{port_event, ZmqAdapter, SendResult, accepted}
use time_agent.Agent.Threads.Wire.{
  IsPart, deliver, onto, bytes_of, accepted_messages, sent_by, messages,
}
use time_agent.Convert.{MetricsWrapper}
use time_agent.Main.LinesToWire.{outcomes, start_up-wire}
use time_agent.Main.System.{seen}
use time_agent.Agent.{Effect, set_interface, send}
use time_agent.Agent.Handlers.Lines.{port, print}
use time_agent.Agent.Threads.{
  State, reading, handling, joining_readers, set_reader, Reach, initial, start, check, read, act,
  here, next, reader, update,
}
use time_agent.Main.System.{handle_in}
use time_agent.Collector.Subprocess.{Subprocess}
use time_agent.Collector.Pps.Printed as Pps
use time_agent.Main.LinesToWire
use time_agent.Main.Meanings.{nothing_more, carried, start_up-meanings}
use time_agent.Text.{contains, starts_with}
use time_agent.Tests.Files.{small_os}
use time_agent.Tests.Lines.{port_line, port_line-IsPrintable}
use time_agent.Tests.Startup.{yaml, zmq, up, starts_up, surroundings}

abbrev line : CollectorEvent
line = record { ts_usec = 3; unit = codes "ptp4l"; msg = print (port port_line) }

abbrev running : State Unit
running = record (initial (λ i. line ∷ [])) { running = true; main = joining_readers }

abbrev at_read : State Unit
at_read = set_reader running 0 (record (running.readers 0) { phase = reading })

abbrev after_read : State Unit
after_read = set_reader at_read 0 (record {
  phase = handling (handle_in up surroundings 0 line);
  consumed = line ∷ [];
  pending = [];
})

to_after_read :
    Reach
      (length up.readers)
      (handle_in up surroundings)
      up.agent.node
      (initial (λ i. line ∷ []))
      after_read
to_after_read =
    next (next (next here (start refl)) (check 0 (omega arith) refl refl))
      (read 0 line [] (omega arith) refl refl)

abbrev renaming : Effect Unit
renaming = set_interface (codes "eth1")

abbrev sending : Effect Unit
sending =
    send
      (port_event (record {
        unit = codes "ptp4l";
        timestamp_us = 3;
        port_number = pos 1;
        port_name = codes "eth1";
        adapter_name = [];
        from_state = codes "UNCALIBRATED";
        to_state = codes "SLAVE";
        trigger = codes "MASTER_CLOCK_SELECTED";
      }))
      up.agent.node

abbrev told : List (Effect Unit)
told = renaming ∷ sending ∷ []

start_up-meanings_example :
    ([] ++ handle_in up surroundings 0 line ≡ told) × (line ∷ [] ≡ line ∷ [])
unfolding contains starts_with
start_up-meanings_example =
    start_up-meanings Unit yaml (λ c. true) zmq (pos 0) small_os (λ p. true) (λ p. none)
      (codes "time-agent" ∷ codes "a.yaml" ∷ []) 0 [] {s = up} surroundings (λ i. line ∷ [])
      {t = after_read} starts_up to_after_read 0 (omega arith) (port port_line ∷ [])
      (carried refl port_line-IsPrintable refl nothing_more)

-- The same program with the adapter's socket.
abbrev serialize : MetricsWrapper Unit → Option Bytes
serialize m = some m.node_name

abbrev socket : ZmqAdapter
socket = record { has_sender = true; wire = [] }

abbrev answers : ℕ → SendResult
answers n = accepted

abbrev renamed : State Unit
renamed = record after_read {
  readers =
      update after_read.readers 0
        (record (after_read.readers 0) { phase = handling (sending ∷ []) });
  log = (reader 0, renaming) ∷ [];
}

abbrev sent : State Unit
sent = record renamed {
  readers = update renamed.readers 0 (record (renamed.readers 0) { phase = handling [] });
  log = (reader 0, renaming) ∷ (reader 0, sending) ∷ [];
}

told_next : (after_read.readers 0).phase ≡ handling told
unfolding contains starts_with
told_next =
    let (effects, read_so_far) =
      start_up-meanings Unit yaml (λ c. true) zmq (pos 0) small_os (λ p. true) (λ p. none)
        (codes "time-agent" ∷ codes "a.yaml" ∷ []) 0 [] {s = up} surroundings (λ i. line ∷ [])
        {t = after_read} starts_up to_after_read 0 (omega arith) (port port_line ∷ [])
        (carried refl port_line-IsPrintable refl nothing_more) in
    ap handling effects

start_up-wire_example :
    ((deliver serialize answers 0 socket sent.log).wire
      ≡ onto (bytes_of (accepted_messages serialize answers 0 sent.log)) [])
    × IsPart (sent_by 0 (accepted_messages serialize answers 0 sent.log)) (
        messages serialize (
          outcomes
            (handle_in up surroundings 0)
            (seen up surroundings 0)
            (line ∷ [])
            (some (port port_line) ∷ [])))
    × (line ∷ [] ≡ line ∷ [])
unfolding contains starts_with
start_up-wire_example =
    start_up-wire Unit yaml (λ c. true) zmq (pos 0) small_os (λ p. true) (λ p. none) serialize
      (codes "time-agent" ∷ codes "a.yaml" ∷ []) 0 [] {s = up} surroundings (λ i. line ∷ [])
      {t = sent} answers socket starts_up
      (next (next to_after_read (act 0 renaming (sending ∷ []) (omega arith) told_next))
        (act 0 sending [] (omega arith) refl))
      refl 0 (some (port port_line) ∷ [])
      (LinesToWire.carried refl port_line-IsPrintable refl LinesToWire.nothing_more)

-- A line of ppswatch from a child.
abbrev tick_line : Pps.Printed
tick_line = record {
  timestamp = record { pad = 0; value = pos 12 };
  sequence = record { pad = 0; value = pos 3 };
  offset = record { pad = 1; value = pos 45 };
}

abbrev child : Subprocess
child = record {
  unit = codes "ppswatch";
  stream = Pps.print_line tick_line ∷ [];
  child_running = true;
}

abbrev tick : CollectorEvent
tick = record { ts_usec = 3; unit = codes "ppswatch"; msg = Pps.print_line tick_line }
