-- ===== src/Collector/Source.antt =====
-- `ICollector` of include/collector.h, and the two collectors that implement it.
use time_agent.Base.{ℕ, List, Option, none, some}
use time_agent.Collector.{CollectorEvent}
use time_agent.Collector.Journal
use time_agent.Collector.Journal.{JournalCollector, Entry, Round}
use time_agent.Collector.Subprocess
use time_agent.Collector.Subprocess.{Subprocess}

-- `Answer` is what the world answers during one call of `readEvent`; `none` while the call has not
-- returned.
pub record ICollector : Type 1 where
  pub Self : Type 0
  pub Answer : Type 0
  pub read_event : Answer → Self → Option (Option CollectorEvent × Self)
  pub stop : Self → Self

abbrev returned :
    JournalCollector
    → Option (Option CollectorEvent)
    → Option (Option CollectorEvent × JournalCollector)
returned c none = none
returned c (some e) = some (e, c)

-- The rounds of the call, and the entry that it stands at if it finds one.
abbrev pub journal_source : ICollector
journal_source = record {
  Self = JournalCollector;
  Answer = Entry × List Round;
  read_event = λ a c. returned c (Journal.read_event c.unit a.0 a.1);
  stop = Journal.stop;
}

-- The time of the call.
abbrev pub subprocess_source : ICollector
subprocess_source = record {
  Self = Subprocess;
  Answer = ℕ;
  read_event = λ now c. some (Subprocess.read_event now c);
  stop = Subprocess.stop;
}
