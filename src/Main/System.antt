-- ===== src/Main/System.antt =====
-- The program from its start to any point of its run: `main`, the threads and the handlers together.
use time_agent.Base.{
  ℕ, zero, suc, ◌<◌, Bool, List, [], ◌∷◌, ◌++◌, ◌≡◌, Option, some, Bytes, length, arith, All,
}
use time_agent.Base.Int.{ℤ}
use time_agent.Collector.{CollectorEvent}
use time_agent.Config.Loader.{Yaml}
use time_agent.Main.{CollectorSpec}
use time_agent.Main.Program.{Started, start_up}
use time_agent.Main.Readers.{AllStarted, nothing, started, start_up-AllStarted}
use time_agent.Os.{Os}
use time_agent.Temperature.{HwmonEntry}
use time_agent.Adapter.Socket.{Zmq}
use time_agent.Agent.{Context, Effect, handler}
use time_agent.Agent.Handlers.{IsProper, handler-IsProper}
use time_agent.Agent.Setup.{Handler, handle_of}
use time_agent.Agent.Threads.{State, Reach, initial}
use time_agent.Agent.Threads.Order.{effects_of, effects_for, remaining, Reach-InOrder}

module _ {Double : Type 0} where
  -- Every thread has the handler of some name.
  handle_of-handler :
      {m : List (Bytes × CollectorSpec)} {rs : List (CollectorSpec × Handler Double)}
      → AllStarted m rs
      → (i : ℕ) → i < length rs
      → (name : Bytes) × (handler name ≡ some (handle_of rs i))
  unfolding handle_of
  handle_of-handler nothing i lt = absurd (omega (arith, lt))
  handle_of-handler (started e a) zero lt = (_, e)
  handle_of-handler (started e a) (suc i) lt = handle_of-handler a i (omega (arith, lt))

  -- What the handlers see at an event: what the world holds then, and the node of the agent.
  abbrev pub seen :
      {S W : Type 0}
      → Started Double S W
      → (ℕ → CollectorEvent → Context)
      → ℕ
      → CollectorEvent
      → Context
  seen s world i e = record (world i e) { node = s.agent.node }

  abbrev pub handle_in :
      {S W : Type 0}
      → Started Double S W
      → (ℕ → CollectorEvent → Context)
      → ℕ
      → CollectorEvent
      → List (Effect Double)
  handle_in s world i e = handle_of s.readers i (seen s world i e) e

All-from {ℓ κ} : {A : Type ℓ} (P : A → Type κ) (xs : List A) → ((x : A) → P x) → All P xs
All-from P [] h = tt
All-from P (x ∷ xs) h = (h x, All-from P xs h)

module _ (Double : Type 0) (y : Yaml) (starts : CollectorSpec → Bool) (z : Zmq) (unset : ℤ)
    (os : Os) (exists : Bytes → Bool) (hwmon : Bytes → Option (List HwmonEntry)) where
  -- A program that has started up, in every interleaving of its threads and whatever the collectors
  -- deliver: what reader `i` has done, with what its current handler has left, is in order what its
  -- handler does for the events consumed, a first part of its source; and for each of these events
  -- this is at most one sample under the node of the agent, and at most one interface. The sample
  -- has the time and the unit of the event, or it is the topology snapshot that the collector of the
  -- topology, which is enabled, has just delivered, with a time of its own and no unit.
  pub start_up-IsProper :
      (argv : List Bytes) (euid : ℕ) (w : os.World) {s : Started Double z.Socket os.World}
      (world : ℕ → CollectorEvent → Context) (source : ℕ → List CollectorEvent) {t : State Double}
      → start_up y starts z unset os exists hwmon argv euid w ≡ some s
      → Reach (length s.readers) (handle_in s world) s.agent.node (initial source) t
      → (i : ℕ) → i < length s.readers
      → (effects_of i t.log ++ remaining (t.readers i).phase
          ≡ effects_for (handle_in s world i) (t.readers i).consumed)
        × ((t.readers i).consumed ++ (t.readers i).pending ≡ source i)
        × All
            (λ e. IsProper Double (seen s world i e) e (handle_in s world i e))
            (t.readers i).consumed
  start_up-IsProper argv euid w {s} world source {t} up r i lt =
      let (sent, read) = Reach-InOrder _ (handle_in s world) _ source r i in
      let (_, all) = start_up-AllStarted Double y starts z unset os exists hwmon argv euid w up in
      let (name, h) = handle_of-handler all i lt in
      (sent, read, All-from _ _ (λ e. handler-IsProper Double name _ (seen s world i e) e h))
