-- ===== src/Agent/Threads/Loop.antt =====
-- `readerLoop` of src/agent.cpp, lines 131 to 140, as a function over any collector.
pub mod Steps
pub mod Runs
use time_agent.Base.{ℕ, Bool, true, false, List, [], ◌∷◌, ◌++◌, none, some, map}
use time_agent.Collector.{CollectorEvent}
use time_agent.Collector.Source.{ICollector}
use time_agent.Agent.{Effect}
use time_agent.Agent.Threads.{Phase, checking, reading, finished, Thread, reader}

-- What a run of the loop has done: the effects in order, the events that it got, where it is, and
-- `running_` where it last read it.
pub record Loop (Double : Type 0) : Type 0 where
  pub sent : List (Effect Double)
  pub events : List CollectorEvent
  pub phase : Phase Double
  pub running : Bool

module _ {Double : Type 0} where
  abbrev pub at_phase : Bool → Phase Double → Loop Double
  at_phase b p = record { sent = []; events = []; phase = p; running = b }

  abbrev pub after_event : List (Effect Double) → CollectorEvent → Loop Double → Loop Double
  after_event xs e l = record l { sent = xs ++ l.sent; events = e ∷ l.events }

  module _ (ic : ICollector) (h : CollectorEvent → List (Effect Double)) where
    open ic use {Self, Answer, read_event}

    -- For each round, `running_` where the loop reads it and the answers to the call of `readEvent`.
    unfoldable pub reader_loop : List (Bool × Answer) → Self → Loop Double
    reader_loop [] c = at_phase true checking
    reader_loop ((false, a) ∷ rounds) c = at_phase false finished
    reader_loop ((true, a) ∷ rounds) c = elim (read_event a c) [
      | none ↦ at_phase true reading
      | some (none, c') ↦ at_phase true finished
      | some (some e, c') ↦ after_event (h e) e (reader_loop rounds c')
    ]

  abbrev pub by : ℕ → List (Effect Double) → List (Thread × Effect Double)
  by i xs = map (λ x. (reader i, x)) xs
