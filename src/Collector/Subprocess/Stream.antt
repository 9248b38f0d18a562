-- ===== src/Collector/Subprocess/Stream.antt =====
-- What a reader gets from the output of a child process.
use time_agent.Base.{ℕ, ◌<◌, List, [], ◌∷◌, ◌≡◌, refl, none, some, Bytes, length, arith, map}
use time_agent.Collector.{CollectorEvent}
use time_agent.Collector.Subprocess.{Subprocess, read_event}

-- The events of successive calls of `readEvent` at these times, up to the first that returns
-- nothing: what `readerLoop` hands to its handler.
unfoldable pub read_all : List ℕ → Subprocess → List CollectorEvent
read_all [] c = []
read_all (now ∷ times) c =
    let (e, c') = read_event now c in
    let rest = read_all times c' in elim e [ none ↦ [] | some event ↦ event ∷ rest ]

-- The lines before the first empty one.
abbrev pub until_empty : List Bytes → List Bytes
until_empty [] = []
until_empty ([] ∷ ls) = []
until_empty ((c ∷ l) ∷ ls) = (c ∷ l) ∷ until_empty ls

abbrev pub msg_of : CollectorEvent → Bytes
msg_of e = e.msg

read_all-lines :
    (ls : List Bytes) (times : List ℕ) (c : Subprocess)
    → c.stream ≡ ls
    → length ls < length times
    → map msg_of (read_all times c) ≡ until_empty ls
unfolding read_all read_event
read_all-lines ls [] c h k = elim k [ ]
read_all-lines [] (now ∷ times) c h k = ground arith
read_all-lines ([] ∷ ls) (now ∷ times) c h k = ground arith
read_all-lines ((d ∷ l) ∷ ls) (now ∷ times) c h k =
    ground (arith, read_all-lines ls times (record c { stream = ls }) refl (omega arith))

-- Enough calls deliver, in order, the lines before the first empty one and no others: an empty line
-- ends the reader although the child may still write.
pub read_all-until_empty :
    (times : List ℕ) (c : Subprocess)
    → length c.stream < length times
    → map msg_of (read_all times c) ≡ until_empty c.stream
read_all-until_empty times c h = read_all-lines c.stream times c refl h
