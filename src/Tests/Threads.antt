-- ===== src/Tests/Threads.antt =====
-- Runs of the threads of src/agent.cpp with one collector.
use time_agent.Base.{
  ℕ, Bool, ◌+◌, ◌≤◌, ◌<◌, true, false, ◌⊎◌, Option, some, List, [], ◌∷◌, ◌++◌, ◌≡◌, refl, Bytes,
  codes, length, arith, inl,
}
use time_agent.Base.Int.{pos}
use time_agent.Collector.{CollectorEvent}
use time_agent.Adapter.{pps, ZmqAdapter, accepted}
use time_agent.Agent.{Effect, send, set_interface}
use time_agent.Agent.Threads.{
  Phase, checking, reading, finished, handling, reader, State, Reach, initial, next, here, start,
  check, read, act, handled, stop, sys_check, sys_collecting, sys_finished, join_readers, join_sys,
  joining_readers, joining_sys, returned, set_reader,
}
use time_agent.Agent.Threads.Order.{effects_of, effects_for, remaining, Reach-InOrder}
use time_agent.Agent.Threads.Shutdown.{IsComplete, returned-IsComplete}
use time_agent.Agent.Threads.Stop.{stop_bound}
use time_agent.Agent.Threads.{Step}
use time_agent.Base.{All}
use time_agent.Collector.Source.{subprocess_source}
use time_agent.Collector.Subprocess.{Subprocess, read_event, read_lines}
use time_agent.Agent.Threads.Loop.{reader_loop, by}
use time_agent.Agent.Threads.Loop.Runs.{reader_loop-Reach}
use time_agent.Agent.Threads.Cost.{cost}
use time_agent.Agent.Threads.Termination.{idle, work, CanWork, stop-terminates}
use time_agent.Agent.Threads.Wire.{
  IsPart, deliver, onto, bytes_of, accepted_messages, sent_by, messages, deliver-IsPart,
}
use time_agent.Convert.{MetricsWrapper}
use time_agent.Agent.Threads.Race.{set_interface-collect_race}

abbrev event : CollectorEvent
event = record { ts_usec = 5; unit = codes "pps"; msg = codes "tick" }

abbrev sample : Effect Unit
sample = send (pps (record { unit = codes "pps"; timestamp_us = 5; offset = pos 7 })) (codes "n")

abbrev rename : Effect Unit
rename = set_interface (codes "tick")

abbrev handle : ℕ → CollectorEvent → List (Effect Unit)
handle i e = set_interface e.msg ∷ sample ∷ []

abbrev source : ℕ → List CollectorEvent
source i = event ∷ event ∷ []

abbrev node : Bytes
node = codes "n"

abbrev in_phase : State Unit → Phase Unit → State Unit
in_phase s p = set_reader s 0 (record (s.readers 0) { phase = p })

abbrev started : State Unit
started = record (initial source) { running = true; main = joining_readers }

-- Inside the call of `readEvent`, and then inside the handler.
abbrev at_read : State Unit
at_read = in_phase started reading

abbrev after_read : State Unit
after_read =
    set_reader at_read 0
      (record { phase = handling (handle 0 event); consumed = event ∷ []; pending = event ∷ [] })

abbrev one_done : State Unit
one_done = record (in_phase after_read (handling (sample ∷ []))) { log = (reader 0, rename) ∷ [] }

abbrev both_done : State Unit
both_done = record (in_phase one_done (handling [])) {
  log = (reader 0, rename) ∷ (reader 0, sample) ∷ [];
}

-- Stopped, and the two loops have ended.
abbrev stopped : State Unit
stopped = record (in_phase both_done checking) { running = false }

abbrev ended : State Unit
ended = record (in_phase stopped finished) { sys_phase = sys_finished }

abbrev over : State Unit
over = record (record ended { running = false; main = joining_sys }) { main = returned }

to_read : Reach 1 handle node (initial source) at_read
to_read = next (next here (start refl)) (check 0 (omega arith) refl refl)

to_one : Reach 1 handle node (initial source) one_done
to_one =
    next (next to_read (read 0 event (event ∷ []) (omega arith) refl refl))
      (act 0 rename (sample ∷ []) (omega arith) refl)

Reach-InOrder_example :
    (effects_of 0 one_done.log ++ remaining (one_done.readers 0).phase
      ≡ effects_for (handle 0) (one_done.readers 0).consumed)
    × ((one_done.readers 0).consumed ++ (one_done.readers 0).pending ≡ source 0)
Reach-InOrder_example = Reach-InOrder 1 handle node source to_one 0

to_stopped : Reach 1 handle node (initial source) stopped
to_stopped =
    next (next (next to_one (act 0 sample [] (omega arith) refl)) (handled 0 (omega arith) refl))
      stop

ended-finished : (i : ℕ) → i < 1 → (ended.readers i).phase ≡ finished
ended-finished i lt = ground arith

to_over : Reach 1 handle node (initial source) over
to_over =
    next
      (next (next (next to_stopped (check 0 (omega arith) refl refl)) (sys_check (inl refl) refl))
        (join_readers refl ended-finished))
      (join_sys refl refl)

returned-IsComplete_example :
    (over.running ≡ false)
    × (over.sys_phase ≡ sys_finished)
    × All (IsComplete 1 handle node source over) (0 ∷ [])
returned-IsComplete_example = returned-IsComplete 1 handle node source to_over refl

-- `stop` while the reader is inside `readEvent`.
abbrev stopped_early : State Unit
stopped_early = record at_read { running = false }

abbrev last_event : State Unit
last_event =
    set_reader stopped_early 0
      (record { phase = handling (handle 0 event); consumed = event ∷ []; pending = event ∷ [] })

stop_bound_example :
    (last_event.running ≡ false)
    × (length (last_event.readers 0).consumed ≤ length (at_read.readers 0).consumed + 1)
stop_bound_example =
    stop_bound 1 handle node at_read last_event (λ h. cc)
      (next here (read 0 event (event ∷ []) (omega arith) refl refl)) 0

set_interface-collect_race_example :
    (t : State Unit) × (u : State Unit) × Reach 1 handle node (initial source) t
    × (t.sys_phase ≡ sys_collecting)
    × (t.log ≡ [])
    × Step 1 handle node t u
    × (u.log ≡ (reader 0, rename) ∷ [])
    × (u.sys_phase ≡ sys_collecting)
set_interface-collect_race_example =
    set_interface-collect_race 1 handle node source 0 event (event ∷ []) (codes "tick")
      (sample ∷ []) (omega arith) refl refl

-- The reader has an effect left when `stop` comes, and makes it.
abbrev first_effect : State Unit
first_effect = record (in_phase last_event (handling (sample ∷ []))) {
  log = (reader 0, rename) ∷ [];
}

stop-terminates_example :
    (1 + cost 1 handle node first_effect ≤ cost 1 handle node last_event)
    × ((first_effect.main ≡ returned) ⊎ CanWork 1 handle node first_effect)
stop-terminates_example =
    stop-terminates 1 handle node last_event first_effect 1 (λ h. cc)
      (work idle (act 0 rename (sample ∷ []) (omega arith) refl) tt)

abbrev socket : ZmqAdapter
socket = record { has_sender = true; wire = [] }

abbrev serialize : MetricsWrapper Unit → Option Bytes
serialize m = some m.node_name

deliver-IsPart_example :
    ((deliver serialize (λ n. accepted) 0 socket both_done.log).wire
      ≡ onto (bytes_of (accepted_messages serialize (λ n. accepted) 0 both_done.log)) [])
    × IsPart
        (sent_by 0 (accepted_messages serialize (λ n. accepted) 0 both_done.log))
        (messages serialize (effects_for (handle 0) (both_done.readers 0).consumed))
    × ((both_done.readers 0).consumed ++ (both_done.readers 0).pending ≡ source 0)
deliver-IsPart_example =
    deliver-IsPart serialize 1 handle node source (λ n. accepted) socket
      (next to_one (act 0 sample [] (omega arith) refl)) refl 0

-- A child process with two lines, and the loop over it.
abbrev child : Subprocess
child = record {
  unit = codes "pps";
  stream = codes "tick" ∷ codes "tock" ∷ [];
  child_running = true;
}

abbrev rounds : List (Bool × ℕ)
rounds = (true, 5) ∷ (true, 6) ∷ (true, 7) ∷ []

abbrev tock : CollectorEvent
tock = record { ts_usec = 6; unit = codes "pps"; msg = codes "tock" }

delivered : event ∷ tock ∷ [] ≡ (reader_loop subprocess_source (handle 0) rounds child).events ++ []
unfolding reader_loop read_event read_lines
delivered = refl

reader_loop-Reach_example :
    (t : State Unit) × Reach 1 handle node (initial (λ i. event ∷ tock ∷ [])) t
    × (t.readers 0 ≡ record {
      phase = (reader_loop subprocess_source (handle 0) rounds child).phase;
      consumed = (reader_loop subprocess_source (handle 0) rounds child).events;
      pending = [];
    })
    × (t.log ≡ by 0 (reader_loop subprocess_source (handle 0) rounds child).sent)
    × (t.running ≡ (reader_loop subprocess_source (handle 0) rounds child).running)
reader_loop-Reach_example =
    reader_loop-Reach 1 handle node 0 (omega arith) subprocess_source rounds child
      (λ i. event ∷ tock ∷ []) [] delivered
