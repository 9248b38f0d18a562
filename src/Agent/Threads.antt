-- ===== src/Agent/Threads.antt =====
-- The threads of `Agent`, src/agent.cpp lines 131 to 192: `readerLoop` for each collector,
-- `sysMetricsLoop`, `run` and `stop`, as a step relation. A thread may be interrupted between any
-- two accesses to shared state; one call of the adapter is one step, as it holds the mutex.
pub mod Order
pub mod Shutdown
pub mod Race
pub mod Reachability
pub mod Stop
pub mod Cost
pub mod Wire
pub mod Termination
pub mod Loop
use time_agent.Base.{
  ℕ, ◌<◌, Bool, true, false, List, [], ◌∷◌, ◌++◌, ◌≡◌, ◌==◌, if◌then◌else◌, Bytes, ◌⊎◌,
}
use time_agent.Collector.{CollectorEvent}
use time_agent.Metrics.{SystemStats}
use time_agent.Adapter.{sys}
use time_agent.Agent.{Effect, send}

-- Before the loop's test, inside `readEvent`, inside the handler with the effects that are left,
-- and returned.
pub data Phase (Double : Type 0) : Type 0 where
  checking reading finished : Phase Double
  handling : List (Effect Double) → Phase Double

-- The events that the collector has delivered, and those that it would still deliver.
pub record Reader (Double : Type 0) : Type 0 where
  pub phase : Phase Double
  pub consumed : List CollectorEvent
  pub pending : List CollectorEvent

-- `sysMetricsLoop`: before the loop's test, asleep, inside `collect`, before the send, returned.
pub data SysPhase (Double : Type 0) : Type 0 where
  sys_checking sys_asleep sys_collecting sys_finished : SysPhase Double
  sys_sending : SystemStats Double → SysPhase Double

-- `run`: before `running_ = true`, joining the readers, joining the system thread, returned.
pub data MainPhase : Type 0 where
  starting joining_readers joining_sys returned : MainPhase

-- The thread that made an effect: a reader, or the system thread.
pub data Thread : Type 0 where
  reader : ℕ → Thread
  system : Thread

pub record State (Double : Type 0) : Type 0 where
  pub running : Bool
  pub main : MainPhase
  pub readers : ℕ → Reader Double
  pub sys_phase : SysPhase Double
  pub log : List (Thread × Effect Double)

abbrev pub update {ℓ} : {A : Type ℓ} → (ℕ → A) → ℕ → A → ℕ → A
update f i a j = if j == i then a else f j

module _ {Double : Type 0} where
  abbrev pub is_finished : Phase Double → Bool
  is_finished finished = true
  is_finished _ = false

  -- The test of the loop.
  abbrev pub after_check : Bool → Phase Double
  after_check true = reading
  after_check false = finished

  abbrev pub sys_after_check : Bool → SysPhase Double
  sys_after_check true = sys_asleep
  sys_after_check false = sys_finished

  abbrev pub sys_after_sleep : Bool → SysPhase Double
  sys_after_sleep true = sys_collecting
  sys_after_sleep false = sys_finished

  abbrev pub set_reader : State Double → ℕ → Reader Double → State Double
  set_reader s i r = record s { readers = update s.readers i r }

  -- `count` readers, each with its handler; `node` is the name sent with system statistics.
  module _ (count : ℕ) (handle : ℕ → CollectorEvent → List (Effect Double)) (node : Bytes) where
    pub data Step (s : State Double) : State Double → Type 0 where
      -- `running_ = true` and the start of the threads.
      start : s.main ≡ starting → Step s (record s { running = true; main = joining_readers })
      check :
          (i : ℕ)
          → i < count
          → s.main ≡ joining_readers
          → (s.readers i).phase ≡ checking
          → Step s (set_reader s i (record (s.readers i) { phase = after_check s.running }))
      read :
          (i : ℕ) (e : CollectorEvent) (rest : List CollectorEvent)
          → i < count
          → (s.readers i).phase ≡ reading
          → (s.readers i).pending ≡ e ∷ rest
          → Step s (
              set_reader s i (record {
                phase = handling (handle i e);
                consumed = (s.readers i).consumed ++ e ∷ [];
                pending = rest;
              }))
      -- `readEvent` returns nothing: at the end of its source, on a failure, or stopped.
      read_nothing :
          (i : ℕ)
          → i < count
          → (s.readers i).phase ≡ reading
          → Step s (set_reader s i (record (s.readers i) { phase = finished }))
      act :
          (i : ℕ) (x : Effect Double) (xs : List (Effect Double))
          → i < count
          → (s.readers i).phase ≡ handling (x ∷ xs)
          → Step s (record s {
            readers = update s.readers i (record (s.readers i) { phase = handling xs });
            log = s.log ++ (reader i, x) ∷ [];
          })
      handled :
          (i : ℕ)
          → i < count
          → (s.readers i).phase ≡ handling []
          → Step s (set_reader s i (record (s.readers i) { phase = checking }))
      sys_check :
          (s.main ≡ joining_readers) ⊎ (s.main ≡ joining_sys)
          → s.sys_phase ≡ sys_checking
          → Step s (record s { sys_phase = sys_after_check s.running })
      sys_wake :
          s.sys_phase ≡ sys_asleep → Step s (record s { sys_phase = sys_after_sleep s.running })
      sys_collected :
          (m : SystemStats Double)
          → s.sys_phase ≡ sys_collecting
          → Step s (record s { sys_phase = sys_sending m })
      sys_send :
          (m : SystemStats Double)
          → s.sys_phase ≡ sys_sending m
          → Step s (record s {
            sys_phase = sys_checking;
            log = s.log ++ (system, send (sys m) node) ∷ [];
          })
      -- The joins of the readers return, and `running_ = false`.
      join_readers :
          s.main ≡ joining_readers
          → ((i : ℕ) → i < count → (s.readers i).phase ≡ finished)
          → Step s (record s { running = false; main = joining_sys })
      join_sys :
          s.main ≡ joining_sys → s.sys_phase ≡ sys_finished → Step s (record s { main = returned })
      -- `stop`, from a signal handler, at any time. Its calls of `stop` on the collectors only make
      -- `readEvent` return nothing, which it may do anyway.
      stop : Step s (record s { running = false })

    pub data Reach (s : State Double) : State Double → Type 0 where
      here : Reach s s
      next : {t u : State Double} → Reach s t → Step t u → Reach s u

  -- A constructed agent, whose collectors would deliver these events.
  abbrev pub initial : (ℕ → List CollectorEvent) → State Double
  initial source = record {
    running = false;
    main = starting;
    readers = λ i. record { phase = checking; consumed = []; pending = source i };
    sys_phase = sys_checking;
    log = [];
  }
