-- ===== src/Collector/Subprocess.antt =====
-- `SubprocessCollector` of src/collector.cpp, lines 177 to 212. The stream of the child is the list
-- of the lines that it writes before it ends.
pub mod Stream
use time_agent.Base.{
  ℕ, Bool, true, false, List, [], ◌∷◌, Option, none, some, Bytes, is_empty, if◌then◌else◌,
}
use time_agent.Collector.{CollectorEvent}

pub record Subprocess : Type 0 where
  pub unit : Bytes
  pub stream : List Bytes
  pub child_running : Bool

-- `none` where the child does not run and the constructor throws.
unfoldable pub construct : Bytes → List Bytes → Bool → Option Subprocess
construct cmd output running =
    if running then some (record { unit = cmd; stream = output; child_running = true }) else none

-- `now` is the time of the call in microseconds.
unfoldable pub read_lines : ℕ → Subprocess → List Bytes → Option CollectorEvent × Subprocess
read_lines now c [] = (none, c)
read_lines now c (line ∷ rest) = (
  if is_empty line then none else some (record { ts_usec = now; unit = c.unit; msg = line }),
  record c { stream = rest },
)

unfoldable pub read_event : ℕ → Subprocess → Option CollectorEvent × Subprocess
unfolding read_lines
read_event now c = read_lines now c c.stream

-- A terminated child writes nothing more; what it has written stays in the stream.
unfoldable pub stop : Subprocess → Subprocess
stop c = if c.child_running then record c { child_running = false } else c

-- The destructor, which waits for the child that it terminates.
unfoldable pub destroy : Subprocess → Subprocess
destroy c = if c.child_running then record c { child_running = false } else c
