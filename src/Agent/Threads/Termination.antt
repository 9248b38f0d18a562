-- ===== src/Agent/Threads/Termination.antt =====
-- Every run of the threads ends after `stop`.
use native.Mathlib.Nat.{le_refl}
use time_agent.Base.{
  ℕ, zero, suc, ◌+◌, ◌≤◌, ◌<◌, false, List, [], ◌∷◌, none, ◌≡◌, ◌≢◌, refl, ◌⊎◌, Bytes, inl, inr,
  arith, Bool-cases, ◌==◌, ==_iff,
}
use time_agent.Collector.{CollectorEvent}
use time_agent.Metrics.{SystemStats}
use time_agent.Agent.{Effect}
use time_agent.Agent.Threads.{
  Phase, checking, reading, finished, handling, SysPhase, sys_checking, sys_asleep, sys_collecting,
  sys_sending, sys_finished, MainPhase, starting, joining_readers, joining_sys, returned, State,
  Step, check, read_nothing, act, handled, sys_check, sys_wake, sys_collected, sys_send,
  join_readers, join_sys,
}
use time_agent.Agent.Threads.Cost.{cost, IsWork, Step-cost}

below_suc : (P : ℕ → Type 0) (n : ℕ) → P n → ((i : ℕ) → i < n → P i) → (i : ℕ) → i < suc n → P i
below_suc P n p h i lt = elim (Bool-cases (i == n)) [
  | inl e ↦ rw ((==_iff i n).0 e) p
  | inr e ↦ h i (ground (arith, lt, e))
]

module _ {Double : Type 0} (count : ℕ) (handle : ℕ → CollectorEvent → List (Effect Double))
    (node : Bytes) where
  -- A run with this many steps of the threads, and any number of calls of `stop` between them.
  pub data Run (s : State Double) : ℕ → State Double → Type 0 where
    idle : Run s 0 s
    signal : {n : ℕ} {t : State Double} → Run s n t → Run s n (record t { running = false })
    work :
        {n : ℕ} {t u : State Double}
        → Run s n t
        → (st : Step count handle node t u) → IsWork count handle node st
        → Run s (suc n) u

  record IsBounded (s t : State Double) (n : ℕ) : Type 0 where
    spent : n + cost count handle node t ≤ cost count handle node s
    stopped : t.running ≡ false
    started : t.main ≢ starting

  Run-IsBounded :
      {s t : State Double} {n : ℕ}
      → s.running ≡ false
      → s.main ≢ starting
      → Run s n t
      → IsBounded s t n
  Run-IsBounded h m idle = record { spent = omega arith; stopped = h; started = m }
  Run-IsBounded h m (signal r) =
      let b = Run-IsBounded h m r in record { spent = b.spent; stopped = refl; started = b.started }
  Run-IsBounded h m (work r st w) =
      let b = Run-IsBounded h m r in
      let (less, stopped, started) = Step-cost count handle node st w b.stopped b.started in
      record { spent = omega (arith, b.spent, less); stopped = stopped; started = started }

  -- Some thread can make a step.
  pub record CanWork (s : State Double) : Type 0 where
    pub after : State Double
    pub step : Step count handle node s after
    pub is_work : IsWork count handle node step

  -- A reader that has not returned can go on.
  reader_works :
      (s : State Double) (k : ℕ)
      → k < count
      → s.main ≡ joining_readers
      → (p : Phase Double) → (s.readers k).phase ≡ p
      → (p ≡ finished) ⊎ CanWork s
  reader_works s k lt m finished p = inl refl
  reader_works s k lt m checking p = inr (record { after = _; step = check k lt m p; is_work = tt })
  reader_works s k lt m reading p =
      inr (record { after = _; step = read_nothing k lt p; is_work = tt })
  reader_works s k lt m (handling []) p =
      inr (record { after = _; step = handled k lt p; is_work = tt })
  reader_works s k lt m (handling (x ∷ xs)) p =
      inr (record { after = _; step = act k x xs lt p; is_work = tt })

  some_reader_works :
      (s : State Double) (n : ℕ)
      → n ≤ count
      → s.main ≡ joining_readers
      → ((i : ℕ) → i < n → (s.readers i).phase ≡ finished) ⊎ CanWork s
  some_reader_works s zero le m = inl (λ i lt. absurd (omega (arith, lt)))
  some_reader_works s (suc n) le m =
      elim (reader_works s n (omega (arith, le)) m (s.readers n).phase refl) [
        | inr w ↦ inr w
        | inl f ↦ elim (some_reader_works s n (omega (arith, le)) m) [
          | inr w ↦ inr w
          | inl g ↦ inl (below_suc (λ i. (s.readers i).phase ≡ finished) n f g)
        ]
      ]

  abbrev no_stats : SystemStats Double
  no_stats = record {
    timestamp_us = 0;
    temperature_stats = none;
    network_stats = none;
    cpu_stats = none;
    memory_stats = none;
  }

  sys_works :
      (s : State Double)
      → s.main ≡ joining_sys
      → (p : SysPhase Double) → s.sys_phase ≡ p
      → CanWork s
  sys_works s m sys_finished p = record { after = _; step = join_sys m p; is_work = tt }
  sys_works s m sys_checking p = record { after = _; step = sys_check (inr m) p; is_work = tt }
  sys_works s m sys_asleep p = record { after = _; step = sys_wake p; is_work = tt }
  sys_works s m sys_collecting p = record {
    after = _;
    step = sys_collected no_stats p;
    is_work = tt;
  }
  sys_works s m (sys_sending x) p = record { after = _; step = sys_send x p; is_work = tt }

  works :
      (s : State Double)
      → s.main ≢ starting
      → (p : MainPhase) → s.main ≡ p
      → (s.main ≡ returned) ⊎ CanWork s
  works s ne starting p = absurd (ne p)
  works s ne returned p = inl p
  works s ne joining_sys p = inr (sys_works s p s.sys_phase refl)
  works s ne joining_readers p = elim (some_reader_works s count (le_refl count) p) [
    | inl f ↦ inr (record { after = _; step = join_readers p f; is_work = tt })
    | inr w ↦ inr w
  ]

  -- After `stop` on an agent whose threads have been started, under every scheduling and with any
  -- further calls of `stop`, the threads make at most `cost s` steps, and they do not get stuck:
  -- where none can make a step, `run` has returned. Nothing is assumed of the scheduler but that it
  -- lets some thread that can make a step make one; a call of `readEvent` or of `collect` that
  -- returns is a step.
  pub stop-terminates :
      (s t : State Double) (n : ℕ)
      → s.main ≢ starting
      → Run (record s { running = false }) n t
      → (n + cost count handle node t ≤ cost count handle node s)
        × ((t.main ≡ returned) ⊎ CanWork t)
  stop-terminates s t n m r =
      let b = Run-IsBounded refl m r in (b.spent, works t b.started t.main refl)
