-- ===== src/Collector/Journal.antt =====
-- `JournalCollector` of src/collector.cpp, lines 110 to 175, and include/collector.h. What the calls of sd-journal return
-- is given round by round.
pub mod Waiting
use time_agent.Base.{
  ℕ, Bool, true, false, List, [], ◌∷◌, ◌++◌, Option, none, some, Bytes, codes, drop, length,
  if◌then◌else◌, ◌==◌,
}
use time_agent.Base.Int.{ℤ, pos, negsuc}
use time_agent.Collector.{CollectorEvent}

-- The calls on an open journal; a disjunction stands between terms.
pub data Call : Type 0 where
  flush_matches : Call
  add_match : Bytes → Call
  add_disjunction : Call
  seek_tail : Call
  previous : Call
  close : Call

-- `has_journal`: the pointer `journal_` is set.
pub record JournalCollector : Type 0 where
  pub unit : Bytes
  pub has_journal : Bool
  pub stop_requested : Bool

-- `none` where `sd_journal_open` fails and the constructor throws; otherwise with the calls made.
unfoldable pub construct : Bytes → ℤ → Option (JournalCollector × List Call)
construct unit (negsuc n) = none
construct unit (pos n) = some (
  record { unit = unit; has_journal = true; stop_requested = false },
  flush_matches
      ∷ add_match (codes "_COMM=" ++ unit)
      ∷ add_disjunction
      ∷ add_match (codes "SYSLOG_IDENTIFIER=" ++ unit)
      ∷ add_match (codes "_TRANSPORT=syslog")
      ∷ seek_tail
      ∷ previous
      ∷ [],
)

unfoldable pub stop : JournalCollector → JournalCollector
stop c = record c { stop_requested = true }

-- The calls of the destructor.
unfoldable pub destroy : JournalCollector → List Call
destroy c = if c.has_journal then close ∷ [] else []

-- One round of the loop in `readEvent`: the result of `sd_journal_next`, the flag
-- `stop_requested_` where the loop reads it, and the result of `sd_journal_wait`.
pub record Round : Type 0 where
  pub next : ℤ
  pub stop_requested : Bool
  pub wait : ℤ

-- The loop has found an entry, has returned with nothing, or still waits after these rounds.
pub data Outcome : Type 0 where
  entry ended waiting : Outcome

abbrev is_negative : ℤ → Bool
is_negative (pos n) = false
is_negative (negsuc n) = true

abbrev is_positive : ℤ → Bool
is_positive (pos n) = if n == 0 then false else true
is_positive (negsuc n) = false

unfoldable pub await_entry : List Round → Outcome
await_entry [] = waiting
await_entry (r ∷ rs) =
    let later = await_entry rs in
    if is_positive r.next
    then entry
    else if is_negative r.next
    then ended
    else if r.stop_requested
    then ended
    else if is_negative r.wait
    then ended
    else later

-- The current entry: its time, and the data of its field MESSAGE if there is one.
pub record Entry : Type 0 where
  pub realtime_usec : ℕ
  pub message : Option Bytes

abbrev message_text : Option Bytes → Bytes
message_text none = []
message_text (some raw) = drop (length (codes "MESSAGE=")) raw

abbrev pub event_of : Bytes → Entry → CollectorEvent
event_of unit e = record { ts_usec = e.realtime_usec; unit = unit; msg = message_text e.message }

abbrev answer : Bytes → Entry → Outcome → Option (Option CollectorEvent)
answer unit e entry = some (some (event_of unit e))
answer unit e ended = some none
answer unit e waiting = none

-- `none` while the call has not returned; `some none` is `std::nullopt`.
unfoldable pub read_event : Bytes → Entry → List Round → Option (Option CollectorEvent)
read_event unit e rs = answer unit e (await_entry rs)
