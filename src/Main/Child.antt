-- ===== src/Main/Child.antt =====
-- The loop of a reader over the output of a child process, as `makeCollector` of src/main.cpp starts
-- it: `SubprocessCollector` of src/collector.cpp, the parsers, the handlers and `readerLoop` of
-- src/agent.cpp together.
use time_agent.Base.{ℕ, List, [], ◌∷◌, ◌++◌, ◌≡◌, Bytes, codes}
use time_agent.Collector.{CollectorEvent}
use time_agent.Collector.Subprocess.{Subprocess}
use time_agent.Collector.Ptp4l
use time_agent.Collector.Phc2Sys
use time_agent.Collector.Pps.Printed as Pps
use time_agent.Agent.{Context, Effect}
use time_agent.Agent.Handlers.Lines.{meaning, pps_line}

-- A line of the standard output of a child. ptp4l and phc2sys run with "-m", with which linuxptp
-- writes there the name of the program, the time in brackets and the text; without the name it
-- writes only to the journal. ppswatch has a form of its own.
pub data Output : Type 0 where
  ptp4l phc2sys : Bytes → Output
  ppswatch : Pps.Printed → Output

-- The program that writes the line.
abbrev pub writer : Output → Bytes
writer (ptp4l s) = codes "ptp4l"
writer (phc2sys s) = codes "phc2sys"
writer (ppswatch p) = codes "ppswatch"

abbrev pub written : Output → Bytes
written (ptp4l s) = codes "ptp4l[" ++ s
written (phc2sys s) = codes "phc2sys[" ++ s
written (ppswatch p) = Pps.print_line p

abbrev pub IsWritten : Bytes → Output → Type 0
IsWritten name (ppswatch p) = (writer (ppswatch p) ≡ name) × Pps.IsPrintable p
IsWritten name o = writer o ≡ name

-- The events with the lines of the child, read at these times.
abbrev pub events_of : Bytes → List ℕ → List Output → List CollectorEvent
events_of unit times [] = []
events_of unit [] (o ∷ os) = []
events_of unit (now ∷ times) (o ∷ os) =
    record { ts_usec = now; unit = unit; msg = written o } ∷ events_of unit times os

module _ {Double : Type 0} where
  -- What a line of a child causes.
  abbrev pub caused : Context → CollectorEvent → Output → List (Effect Double)
  caused x e (ptp4l s) = []
  caused x e (phc2sys s) = []
  caused x e (ppswatch p) = meaning x e (pps_line p)

  abbrev pub all_caused :
      (CollectorEvent → Context) → List CollectorEvent → List Output → List (Effect Double)
  all_caused x [] os = []
  all_caused x (e ∷ es) [] = []
  all_caused x (e ∷ es) (o ∷ os) = caused (x e) e o ++ all_caused x es os
