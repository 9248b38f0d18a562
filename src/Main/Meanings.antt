-- ===== src/Main/Meanings.antt =====
-- The program from the lines that the time services print to the effects of its readers.
use time_agent.Base.{
  ℕ, zero, suc, ◌<◌, Bool, List, [], ◌∷◌, ◌++◌, ◌≡◌, refl, ap, ◌∙◌, Option, some, Bytes, length,
  arith,
}
use time_agent.Base.Int.{ℤ}
use time_agent.Collector.{CollectorEvent}
use time_agent.Config.Loader.{Yaml}
use time_agent.Main.{CollectorSpec}
use time_agent.Main.Program.{Started, start_up}
use time_agent.Main.Readers.{AllStarted, nothing, started, unit_of, start_up-AllStarted}
use time_agent.Main.System.{seen, handle_in}
use time_agent.Os.{Os}
use time_agent.Temperature.{HwmonEntry}
use time_agent.Adapter.Socket.{Zmq}
use time_agent.Agent.{Context, Effect, handler}
use time_agent.Agent.Handlers.Lines.{Line, program, print, IsPrintable, meaning, handler-meaning}
use time_agent.Agent.Setup.{Handler, handle_of}
use time_agent.Agent.Threads.{State, Reach, initial}
use time_agent.Agent.Threads.Order.{effects_of, effects_for, remaining, Reach-InOrder}

-- The events carry these lines of the program of this name.
pub data Carry (name : Bytes) : List CollectorEvent → List Line → Type 0 where
  nothing_more : Carry name [] []
  carried :
      {e : CollectorEvent} {l : Line} {es : List CollectorEvent} {ls : List Line}
      → program l ≡ name
      → IsPrintable l
      → e.msg ≡ print l
      → Carry name es ls
      → Carry name (e ∷ es) (l ∷ ls)

module _ {Double : Type 0} where
  -- What the lines of the events mean, in order.
  abbrev pub meanings :
      (CollectorEvent → Context) → List CollectorEvent → List Line → List (Effect Double)
  meanings x [] ls = []
  meanings x (e ∷ es) [] = []
  meanings x (e ∷ es) (l ∷ ls) = meaning (x e) e l ++ meanings x es ls

  -- The unit of the collector of the reader with this number.
  abbrev pub unit_at : List (CollectorSpec × Handler Double) → ℕ → Bytes
  unit_at [] i = []
  unit_at (r ∷ rs) zero = unit_of r.0
  unit_at (r ∷ rs) (suc i) = unit_at rs i

  handle_of-unit_at :
      {m : List (Bytes × CollectorSpec)} {rs : List (CollectorSpec × Handler Double)}
      → AllStarted m rs
      → (i : ℕ) → i < length rs
      → handler (unit_at rs i) ≡ some (handle_of rs i)
  unfolding handle_of
  handle_of-unit_at nothing i lt = absurd (omega (arith, lt))
  handle_of-unit_at (started e a) zero lt = e
  handle_of-unit_at (started e a) (suc i) lt = handle_of-unit_at a i (omega (arith, lt))

  -- The handler of a name does what the lines of the program of this name mean.
  effects_for-meanings :
      (name : Bytes) (h : Handler Double) (x : CollectorEvent → Context)
      → handler name ≡ some h
      → (consumed pending : List CollectorEvent) (ls : List Line)
      → Carry name (consumed ++ pending) ls
      → effects_for (λ e. h (x e) e) consumed ≡ meanings x consumed ls
  effects_for-meanings name h x f [] pending ls c = refl
  effects_for-meanings name h x f (e ∷ es) pending [] c = elim c [ ]
  effects_for-meanings name h x f (e ∷ es) pending (l ∷ ls) (carried n p m c) =
      ap (λ xs. xs ++ effects_for (λ e. h (x e) e) es) (handler-meaning name h (x e) e l f n p m)
      ∙ ap (◌++◌ (meaning (x e) e l)) (effects_for-meanings name h x f es pending ls c)

module _ (Double : Type 0) (y : Yaml) (starts : CollectorSpec → Bool) (z : Zmq) (unset : ℤ)
    (os : Os) (exists : Bytes → Bool) (hwmon : Bytes → Option (List HwmonEntry)) where
  -- What the handlers have for the events consumed is what their lines mean.
  pub handle_in-meanings :
      (argv : List Bytes) (euid : ℕ) (w : os.World) {s : Started Double z.Socket os.World}
      (world : ℕ → CollectorEvent → Context)
      → start_up y starts z unset os exists hwmon argv euid w ≡ some s
      → (i : ℕ) → i < length s.readers
      → (consumed pending : List CollectorEvent) (ls : List Line)
      → Carry (unit_at s.readers i) (consumed ++ pending) ls
      → effects_for (handle_in s world i) consumed ≡ meanings (seen s world i) consumed ls
  handle_in-meanings argv euid w {s} world up i lt consumed pending ls c =
      let (_, all) = start_up-AllStarted Double y starts z unset os exists hwmon argv euid w up in
      effects_for-meanings (unit_at s.readers i) (handle_of s.readers i) (seen s world i)
        (handle_of-unit_at all i lt) consumed pending ls c

  -- A program that has started up, in every interleaving of its threads: where every event
  -- of the source of a reader carries a line of the program of its unit, as ptp4l and phc2sys
  -- print it into the journal and ppswatch to its output, what the reader has done, with what its
  -- current handler has left, is in order what the lines of the events consumed mean, and these
  -- events are a first part of its source.
  pub start_up-meanings :
      (argv : List Bytes) (euid : ℕ) (w : os.World) {s : Started Double z.Socket os.World}
      (world : ℕ → CollectorEvent → Context) (source : ℕ → List CollectorEvent) {t : State Double}
      → start_up y starts z unset os exists hwmon argv euid w ≡ some s
      → Reach (length s.readers) (handle_in s world) s.agent.node (initial source) t
      → (i : ℕ) → i < length s.readers
      → (ls : List Line) → Carry (unit_at s.readers i) (source i) ls
      → (effects_of i t.log ++ remaining (t.readers i).phase
          ≡ meanings (seen s world i) (t.readers i).consumed ls)
        × ((t.readers i).consumed ++ (t.readers i).pending ≡ source i)
  start_up-meanings argv euid w {s} world source {t} up r i lt ls c =
      let (sent, read) = Reach-InOrder _ (handle_in s world) _ source r i in
      (
        sent
            ∙ handle_in-meanings argv euid w world up i lt (t.readers i).consumed
                (t.readers i).pending ls (rw read c),
        read,
      )
