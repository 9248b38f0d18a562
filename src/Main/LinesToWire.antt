-- ===== src/Main/LinesToWire.antt =====
-- The program from what its collectors deliver to the bytes on the wire.
use time_agent.Base.{
  ℕ, true, zero, suc, Bool, List, [], ◌∷◌, ◌++◌, ◌≡◌, ◌≢◌, refl, ap, ◌∙◌, Option, none, some, Bytes,
  length,
}
use time_agent.Base.Int.{ℤ}
use time_agent.Collector.{CollectorEvent}
use time_agent.Config.Loader.{Yaml}
use time_agent.Convert.{MetricsWrapper}
use time_agent.Os.{Os}
use time_agent.Temperature.{HwmonEntry}
use time_agent.Adapter.{ZmqAdapter, SendResult}
use time_agent.Adapter.Socket.{Zmq}
use time_agent.Agent.{Context, Effect, handler}
use time_agent.Agent.Handlers.Lines.{
  Line, offset, summary, port, foreign_master, selected, phc2sys_line, pps_line, program, print,
  IsPrintable, meaning, handler-meaning,
}
use time_agent.Agent.Setup.{Handler, handle_of}
use time_agent.Agent.Threads.{State, Reach, initial}
use time_agent.Agent.Threads.Order.{effects_for}
use time_agent.Agent.Threads.Wire.{
  IsPart, onto, bytes_of, sent_by, deliver, messages, accepted_messages, deliver-IsPart,
}
use time_agent.Main.{CollectorSpec}
use time_agent.Main.Meanings.{unit_at}
use time_agent.Main.Program.{Started, start_up}
use time_agent.Main.Readers.{AllStarted, nothing, started, start_up-AllStarted}
use time_agent.Main.System.{seen, handle_in}

-- Events of which some are known to carry a line of the program of this name, and the others may
-- carry anything.
pub data Carries (name : Bytes) : List CollectorEvent → List (Option Line) → Type 0 where
  nothing_more : Carries name [] []
  carried :
      {e : CollectorEvent} {l : Line} {es : List CollectorEvent} {ls : List (Option Line)}
      → program l ≡ name
      → IsPrintable l
      → e.msg ≡ print l
      → Carries name es ls
      → Carries name (e ∷ es) (some l ∷ ls)
  other :
      {e : CollectorEvent} {es : List CollectorEvent} {ls : List (Option Line)}
      → Carries name es ls
      → Carries name (e ∷ es) (none ∷ ls)

program-named : (l : Line) → program l ≢ []
program-named (offset p) h = cc
program-named (summary p) h = cc
program-named (port p) h = cc
program-named (foreign_master p) h = cc
program-named (selected p) h = cc
program-named (phc2sys_line p) h = cc
program-named (pps_line p) h = cc

module _ {Double : Type 0} where
  -- What the events cause: what its line means for an event that carries one, and what the handler
  -- does for any other.
  abbrev pub outcomes :
      (CollectorEvent → List (Effect Double))
      → (CollectorEvent → Context)
      → List CollectorEvent
      → List (Option Line)
      → List (Effect Double)
  outcomes handle x [] ls = []
  outcomes handle x (e ∷ es) [] = []
  outcomes handle x (e ∷ es) (some l ∷ ls) = meaning (x e) e l ++ outcomes handle x es ls
  outcomes handle x (e ∷ es) (none ∷ ls) = handle e ++ outcomes handle x es ls

  -- Where the unit of a reader is the program of a line, there is such a reader, with its handler.
  handle_of-program :
      {m : List (Bytes × CollectorSpec)} {rs : List (CollectorSpec × Handler Double)}
      → AllStarted m rs
      → (i : ℕ) (l : Line) → program l ≡ unit_at rs i
      → handler (unit_at rs i) ≡ some (handle_of rs i)
  unfolding handle_of
  handle_of-program nothing i l n = absurd (program-named l n)
  handle_of-program (started e a) zero l n = e
  handle_of-program (started e a) (suc i) l n = handle_of-program a i l n

  effects_for-outcomes :
      {m : List (Bytes × CollectorSpec)} {rs : List (CollectorSpec × Handler Double)}
      → AllStarted m rs
      → (i : ℕ) (x : CollectorEvent → Context) (consumed pending : List CollectorEvent)
        (ls : List (Option Line))
      → Carries (unit_at rs i) (consumed ++ pending) ls
      → effects_for (λ e. handle_of rs i (x e) e) consumed
        ≡ outcomes (λ e. handle_of rs i (x e) e) x consumed ls
  effects_for-outcomes a i x [] pending ls c = refl
  effects_for-outcomes a i x (e ∷ es) pending [] c = elim c [ ]
  effects_for-outcomes {rs} a i x (e ∷ es) pending (some l ∷ ls) (carried n p m c) =
      ap (λ xs. xs ++ effects_for (λ e. handle_of rs i (x e) e) es)
        (handler-meaning (unit_at rs i) (handle_of rs i) (x e) e l (handle_of-program a i l n) n p
          m)
      ∙ ap (◌++◌ (meaning (x e) e l)) (effects_for-outcomes a i x es pending ls c)
  effects_for-outcomes {rs} a i x (e ∷ es) pending (none ∷ ls) (other c) =
      ap (◌++◌ (handle_of rs i (x e) e)) (effects_for-outcomes a i x es pending ls c)

module _ (Double : Type 0) (y : Yaml) (starts : CollectorSpec → Bool) (z : Zmq) (unset : ℤ)
    (os : Os) (exists : Bytes → Bool) (hwmon : Bytes → Option (List HwmonEntry))
    (serialize : MetricsWrapper Double → Option Bytes) where
  -- A program that has started up, in every interleaving of its threads, whatever its collectors
  -- deliver and whatever the socket answers to each send: the wire of a connected adapter holds
  -- exactly the messages that the socket accepted; and for every number those of the reader with this
  -- number are, in order, a part of the messages of what the events consumed cause, a first part of
  -- its source. Any of the events may be known to carry a line of the program of the unit, as ptp4l
  -- and phc2sys print it into the journal and ppswatch to its output: it causes what this line means,
  -- and any other event what the handler does; a number without a reader has no such lines.
  pub start_up-wire :
      (argv : List Bytes) (euid : ℕ) (w : os.World) {s : Started Double z.Socket os.World}
      (world : ℕ → CollectorEvent → Context) (source : ℕ → List CollectorEvent) {t : State Double}
      (answers : ℕ → SendResult) (a : ZmqAdapter)
      → start_up y starts z unset os exists hwmon argv euid w ≡ some s
      → Reach (length s.readers) (handle_in s world) s.agent.node (initial source) t
      → a.has_sender ≡ true
      → (i : ℕ) (ls : List (Option Line)) → Carries (unit_at s.readers i) (source i) ls
      → ((deliver serialize answers 0 a t.log).wire
          ≡ onto (bytes_of (accepted_messages serialize answers 0 t.log)) a.wire)
        × IsPart (sent_by i (accepted_messages serialize answers 0 t.log)) (
            messages serialize
              (outcomes (handle_in s world i) (seen s world i) (t.readers i).consumed ls))
        × ((t.readers i).consumed ++ (t.readers i).pending ≡ source i)
  start_up-wire argv euid w {s} world source {t} answers a up r connected i ls c =
      let (wire, part, read) =
        deliver-IsPart serialize _ (handle_in s world) _ source answers a r connected i in
      let (_, all) = start_up-AllStarted Double y starts z unset os exists hwmon argv euid w up in
      let told =
        effects_for-outcomes all i (seen s world i) (t.readers i).consumed (t.readers i).pending ls
          (rw read c) in
      (wire, rw (← told) part, read)
