-- ===== src/Agent/Handlers/Lines.antt =====
-- The lines that ptp4l and phc2sys print into the journal and ppswatch to its output, and what the
-- handlers of src/agent.cpp, lines 30 to 129, do with them.
use time_agent.Base.{
  List, [], ◌∷◌, ◌≡◌, refl, sym, ap, ◌∙◌, Option, some, none, Option-cases, inl, inr, Bytes, codes,
  equal, if◌then◌else◌,
}
use time_agent.Base.Int.{pos}
use time_agent.Text.{contains}
use time_agent.Collector.{CollectorEvent, PortEvent}
use time_agent.Collector.Ptp4l.Printed
use time_agent.Collector.Ptp4l.Printed.{Printed}
use time_agent.Collector.Ptp4l.Line.Summary
use time_agent.Collector.Ptp4l.Line.Summary.{SummaryLine}
use time_agent.Collector.Ptp4l.Line.Port
use time_agent.Collector.Ptp4l.Line.Port.{PortLine}
use time_agent.Collector.Ptp4l.Line.Foreign
use time_agent.Collector.Ptp4l.Line.Foreign.{ForeignLine}
use time_agent.Collector.Ptp4l.Line.Selected
use time_agent.Collector.Ptp4l.Line.Selected.{SelectedLine}
use time_agent.Collector.Phc2Sys.Printed as Phc2Sys
use time_agent.Collector.Phc2Sys.Printed.Reads.{parse_metrics-print_phc2sys}
use time_agent.Collector.Pps.Printed as Pps
use time_agent.Adapter.{ptp, phc2sys, pps, port_event, topology}
use time_agent.Topology.{PtpTopologySnapshot}
use time_agent.Agent.{
  Effect, set_interface, send, Context, handle_ptp4l, handle_phc2sys, handle_pps, handler,
}

pub data Line : Type 0 where
  offset : Printed → Line
  summary : SummaryLine → Line
  port : PortLine → Line
  foreign_master : ForeignLine → Line
  selected : SelectedLine → Line
  phc2sys_line : Phc2Sys.Printed → Line
  pps_line : Pps.Printed → Line

-- The program that prints the line.
abbrev pub program : Line → Bytes
program (phc2sys_line p) = codes "phc2sys"
program (pps_line p) = codes "ppswatch"
program _ = codes "ptp4l"

abbrev pub print : Line → Bytes
print (offset p) = Printed.print_line p
print (summary p) = Summary.print_line p
print (port p) = Port.print_line p
print (foreign_master p) = Foreign.print_line p
print (selected p) = Selected.print_line p
print (phc2sys_line p) = Phc2Sys.print_line p
print (pps_line p) = Pps.print_line p

abbrev pub IsPrintable : Line → Type 0
IsPrintable (offset p) = Printed.IsPrintable p
IsPrintable (summary p) = Summary.IsPrintable p
IsPrintable (port p) = Port.IsPrintable p
IsPrintable (foreign_master p) = Foreign.IsPrintable p
IsPrintable (selected p) = Selected.IsPrintable p
IsPrintable (phc2sys_line p) = Phc2Sys.IsPrintable p
IsPrintable (pps_line p) = Pps.IsPrintable p

-- The event of a port, with the name of its adapter.
abbrev told_port : CollectorEvent → PortLine → Bytes → PortEvent
told_port e p adapter = record {
  unit = e.unit;
  timestamp_us = e.ts_usec;
  port_number = pos p.number;
  port_name = p.name;
  adapter_name = adapter;
  from_state = p.from;
  to_state = p.to;
  trigger = p.trigger;
}

module _ {Double : Type 0} where
  abbrev told_topology : Context → Option PtpTopologySnapshot → List (Effect Double)
  told_topology x none = []
  told_topology x (some s) = send (topology s) x.node ∷ []

  -- What each line means.
  abbrev pub meaning : Context → CollectorEvent → Line → List (Effect Double)
  meaning x e (offset p) =
      send
        (ptp (record {
          unit = e.unit;
          timestamp_us = e.ts_usec;
          offset = p.offset;
          freq = p.freq;
          path_delay = p.path_delay;
          state = pos p.state;
        }))
        x.node
      ∷ []
  meaning x e (summary p) =
      send
        (ptp (record {
          unit = e.unit;
          timestamp_us = e.ts_usec;
          offset = p.figures.max.value;
          freq = p.figures.freq.value;
          path_delay = p.figures.delay.value;
          state = pos 0;
        }))
        x.node
      ∷ []
  meaning x e (port p) =
      if contains (codes "/") p.name
      then send (port_event (told_port e p [])) x.node ∷ []
      else set_interface p.name ∷ send (port_event (told_port e p (x.resolve p.name))) x.node ∷ []
  meaning x e (foreign_master p) = []
  meaning x e (selected p) = if x.topology_enabled then told_topology x x.collect_topology else []
  meaning x e (phc2sys_line p) =
      send (phc2sys (record (Phc2Sys.told p.content) { unit = e.unit; timestamp_us = e.ts_usec }))
        x.node
      ∷ []
  meaning x e (pps_line p) =
      send (pps (record { unit = e.unit; timestamp_us = e.ts_usec; offset = p.offset.value }))
        x.node
      ∷ []

  abbrev handle : Line → Context → CollectorEvent → List (Effect Double)
  handle (phc2sys_line p) = handle_phc2sys
  handle (pps_line p) = handle_pps
  handle _ = handle_ptp4l

  handle-print :
      (x : Context) (e : CollectorEvent) (l : Line)
      → IsPrintable l
      → e.msg ≡ print l
      → handle l x e ≡ meaning x e l
  unfolding handle_ptp4l handle_phc2sys handle_pps
  handle-print x e (offset p) h m = rw (m, Printed.parse_metrics-print_line p h) refl
  handle-print x e (summary p) h m = rw (m, Summary.parse_metrics-print_summary p h) refl
  handle-print x e (port p) h m =
      rw (m, Port.parse_metrics-print_port p h, Port.parse_port_event-print_line p h) refl
  handle-print x e (foreign_master p) h m =
      rw
        (
          m,
          Foreign.parse_metrics-print_foreign p h,
          Foreign.parse_port_event-print_foreign p h,
          Foreign.parse_foreign_master_event-print_line p h,
        )
        refl
  handle-print x e (selected p) h m =
      rw
        (
          m,
          Selected.parse_metrics-print_selected p h,
          Selected.parse_port_event-print_selected p h,
          Selected.parse_foreign_master_event-print_selected p h,
          Selected.parse_best_master_event-print_line p h,
        )
        (elim (Option-cases x.collect_topology) [ inl f ↦ rw f refl | inr (s, f) ↦ rw f refl ])
  handle-print x e (phc2sys_line p) h m = rw (m, parse_metrics-print_phc2sys p h) refl
  handle-print x e (pps_line p) h m = rw (m, Pps.parse_metrics-print_pps p h x.unset) refl

  handler-program : (l : Line) → handler {Double = Double} (program l) ≡ some (handle l)
  unfolding handler equal
  handler-program (offset p) = refl
  handler-program (summary p) = refl
  handler-program (port p) = refl
  handler-program (foreign_master p) = refl
  handler-program (selected p) = refl
  handler-program (phc2sys_line p) = refl
  handler-program (pps_line p) = refl

  -- For every line that ptp4l or phc2sys prints into the journal or ppswatch to its output, the
  -- program has a handler, and on an event with this message it does what the line means, whichever
  -- parser takes it: it sends the figures of an offset or a summary; it tells a change of state, and
  -- sets the interface first unless the name is a path; it does nothing about a foreign master; and
  -- it sends a snapshot about the best master, if that is enabled and there is one. The numbers fit
  -- their types and the texts the buffers.
  pub handler-print :
      (x : Context) (e : CollectorEvent) (l : Line)
      → IsPrintable l
      → e.msg ≡ print l
      → (h : Context → CollectorEvent → List (Effect Double)) × (handler (program l) ≡ some h)
        × (h x e ≡ meaning x e l)
  handler-print x e l p m = (handle l, handler-program l, handle-print x e l p m)

  pub same_handler :
      {h k : Context → CollectorEvent → List (Effect Double)} → some h ≡ some k → h ≡ k
  same_handler e = cc

  -- So the handler of a name does with the lines of the program of this name.
  pub handler-meaning :
      (name : Bytes) (h : Context → CollectorEvent → List (Effect Double)) (x : Context)
      (e : CollectorEvent) (l : Line)
      → handler name ≡ some h
      → program l ≡ name
      → IsPrintable l
      → e.msg ≡ print l
      → h x e ≡ meaning x e l
  handler-meaning name h x e l f n p m =
      let (k, g, told) = handler-print x e l p m in
      ap (λ g. g x e) (same_handler (sym f ∙ ap handler (sym n) ∙ g)) ∙ told
