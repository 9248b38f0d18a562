-- ===== src/Agent/Threads/Stop.antt =====
-- How much a reader still does after `stop`.
use time_agent.Base.{
  ℕ, ◌+◌, ◌≤◌, false, List, [], ◌∷◌, ◌++◌, ◌≡◌, ◌≢◌, refl, ◌==◌, Bytes, inl, inr, arith, length,
  length-append, Bool-cases, ==_iff,
}
use time_agent.Collector.{CollectorEvent}
use time_agent.Agent.{Effect}
use time_agent.Agent.Threads.{
  Phase, reading, handling, Reader, Thread, SysPhase, starting, State, update, Step, start, check,
  read, read_nothing, act, handled, sys_check, sys_wake, sys_collected, sys_send, join_readers,
  join_sys, stop, Reach, here, next,
}

module _ {Double : Type 0} (count : ℕ) (handle : ℕ → CollectorEvent → List (Effect Double))
    (node : Bytes) where
  -- Whether the reader may take one event without looking at `running_` first.
  abbrev is_reading : Phase Double → ℕ
  is_reading reading = 1
  is_reading _ = 0

  -- The events that the reader has taken, and the one it may still take.
  abbrev budget : Reader Double → ℕ
  budget r = length r.consumed + is_reading r.phase

  -- `stop` has been called on a running agent, and no reader has a larger budget than in `s`.
  record IsStopped (s t : State Double) : Type 0 where
    stopped : t.running ≡ false
    started : t.main ≢ starting
    bounded : (i : ℕ) → budget (t.readers i) ≤ budget (s.readers i)

  IsStopped-reader :
      (s t : State Double) (k : ℕ) (r : Reader Double) (log : List (Thread × Effect Double))
      → IsStopped s t
      → budget r ≤ budget (t.readers k)
      → IsStopped s (record t { readers = update t.readers k r; log = log })
  IsStopped-reader s t k r log h le = record {
    stopped = h.stopped;
    started = h.started;
    bounded = λ i. elim (Bool-cases (i == k)) [
      | inl e ↦ rw e (rw ((==_iff i k).0 e) (omega (arith, h.bounded k)))
      | inr e ↦ rw e (h.bounded i)
    ];
  }

  IsStopped-other :
      (s t : State Double) (p : SysPhase Double) (log : List (Thread × Effect Double))
      → IsStopped s t
      → IsStopped s (record t { sys_phase = p; log = log })
  IsStopped-other s t p log h = record {
    stopped = h.stopped;
    started = h.started;
    bounded = h.bounded;
  }

  budget-read :
      (r : Reader Double) (e : CollectorEvent) (rest : List CollectorEvent)
      (xs : List (Effect Double))
      → r.phase ≡ reading
      → budget (record { phase = handling xs; consumed = r.consumed ++ e ∷ []; pending = rest })
        ≤ budget r
  budget-read r e rest xs p = rw p (omega (arith, length-append r.consumed (e ∷ [])))

  Step-IsStopped :
      (s : State Double) {t u : State Double}
      → Step count handle node t u
      → IsStopped s t
      → IsStopped s u
  Step-IsStopped s (start m) h = absurd (h.started m)
  Step-IsStopped s {t} (check k lt m p) h = IsStopped-reader s t k _ _ h (ground (arith, h.stopped))
  Step-IsStopped s {t} (read k e rest lt p q) h =
      IsStopped-reader s t k _ _ h (budget-read (t.readers k) e rest (handle k e) p)
  Step-IsStopped s {t} (read_nothing k lt p) h = IsStopped-reader s t k _ _ h (ground arith)
  Step-IsStopped s {t} (act k x xs lt p) h = IsStopped-reader s t k _ _ h (ground arith)
  Step-IsStopped s {t} (handled k lt p) h = IsStopped-reader s t k _ _ h (ground arith)
  Step-IsStopped s {t} (sys_check m p) h = IsStopped-other s t _ _ h
  Step-IsStopped s {t} (sys_wake p) h = IsStopped-other s t _ _ h
  Step-IsStopped s {t} (sys_collected m p) h = IsStopped-other s t _ _ h
  Step-IsStopped s {t} (sys_send m p) h = IsStopped-other s t _ _ h
  Step-IsStopped s (join_readers m f) h = record {
    stopped = refl;
    started = λ e. cc;
    bounded = h.bounded;
  }
  Step-IsStopped s (join_sys m p) h = record {
    stopped = h.stopped;
    started = λ e. cc;
    bounded = h.bounded;
  }
  Step-IsStopped s stop h = record { stopped = refl; started = h.started; bounded = h.bounded }

  Reach-IsStopped :
      (s : State Double) {t u : State Double}
      → IsStopped s t
      → Reach count handle node t u
      → IsStopped s u
  Reach-IsStopped s h here = h
  Reach-IsStopped s h (next r st) = Step-IsStopped s st (Reach-IsStopped s h r)

  -- After `stop` on an agent whose threads have been started, in every interleaving, `running_`
  -- stays false and a reader takes at most one more event: one if it is inside `readEvent` at
  -- the time of `stop`, and none otherwise.
  pub stop_bound :
      (s t : State Double)
      → s.main ≢ starting
      → Reach count handle node (record s { running = false }) t
      → (i : ℕ)
      → (t.running ≡ false)
        × (length (t.readers i).consumed
            ≤ length (s.readers i).consumed + is_reading (s.readers i).phase)
  stop_bound s t m r i =
      let h =
        Reach-IsStopped (record s { running = false })
          (record { stopped = refl; started = m; bounded = λ i. omega arith }) r in
      (h.stopped, omega (arith, h.bounded i))
