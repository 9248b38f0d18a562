-- ===== src/Agent/Threads/Shutdown.antt =====
-- How `run` ends.
use time_agent.Base.{
  ℕ, zero, suc, [], ◌∷◌, All, ◌<◌, Bool, true, false, List, ◌++◌, ◌≡◌, ◌≢◌, refl, sym, ◌∙◌, Bytes,
  arith, append-nil,
}
use time_agent.Collector.{CollectorEvent}
use time_agent.Agent.{Effect}
use time_agent.Agent.Threads.{
  finished, Reader, Thread, MainPhase, joining_sys, returned, SysPhase, sys_finished, State, update,
  Step, start, check, read, read_nothing, act, handled, sys_check, sys_wake, sys_collected,
  sys_send, join_readers, join_sys, stop, Reach, here, next, initial,
}
use time_agent.Agent.Threads.Order.{effects_of, effects_for, Reach-InOrder}

-- `run` has joined the readers.
abbrev pub joined : MainPhase → Bool
joined joining_sys = true
joined returned = true
joined _ = false

-- The numbers of `count` readers.
abbrev pub below : ℕ → List ℕ
below zero = []
below (suc n) = n ∷ below n

All-below {κ} : (P : ℕ → Type κ) (n : ℕ) → ((i : ℕ) → i < n → P i) → All P (below n)
All-below P zero h = tt
All-below P (suc n) h = (h n (omega arith), All-below P n (λ i lt. h i (omega (arith, lt))))

module _ {Double : Type 0} (count : ℕ) (handle : ℕ → CollectorEvent → List (Effect Double))
    (node : Bytes) where
  record IsJoined (s : State Double) : Type 0 where
    stopped : joined s.main ≡ true → s.running ≡ false
    readers_done : joined s.main ≡ true → (i : ℕ) → i < count → (s.readers i).phase ≡ finished
    sys_done : s.main ≡ returned → s.sys_phase ≡ sys_finished

  -- No reader moves once the readers are joined.
  IsJoined-reader :
      (s : State Double) (k : ℕ) (r : Reader Double) (log : List (Thread × Effect Double))
      → k < count
      → (s.readers k).phase ≢ finished
      → IsJoined s
      → IsJoined (record s { readers = update s.readers k r; log = log })
  IsJoined-reader s k r log lt ne inv = record {
    stopped = inv.stopped;
    readers_done = λ j i l. absurd (ne (inv.readers_done j k lt));
    sys_done = inv.sys_done;
  }

  IsJoined-sys :
      (s : State Double) (p : SysPhase Double) (log : List (Thread × Effect Double))
      → IsJoined s
      → (s.main ≡ returned → p ≡ sys_finished)
      → IsJoined (record s { sys_phase = p; log = log })
  IsJoined-sys s p log inv h = record {
    stopped = inv.stopped;
    readers_done = inv.readers_done;
    sys_done = h;
  }

  Step-IsJoined : {s t : State Double} → Step count handle node s t → IsJoined s → IsJoined t
  Step-IsJoined {s} (start m) inv = record {
    stopped = λ j. cc;
    readers_done = λ j. absurd (cc);
    sys_done = λ j. cc;
  }
  Step-IsJoined {s} (check k lt m p) inv = IsJoined-reader s k _ _ lt (λ e. cc) inv
  Step-IsJoined {s} (read k e rest lt p q) inv = IsJoined-reader s k _ _ lt (λ e. cc) inv
  Step-IsJoined {s} (read_nothing k lt p) inv = IsJoined-reader s k _ _ lt (λ e. cc) inv
  Step-IsJoined {s} (act k x xs lt p) inv = IsJoined-reader s k _ _ lt (λ e. cc) inv
  Step-IsJoined {s} (handled k lt p) inv = IsJoined-reader s k _ _ lt (λ e. cc) inv
  Step-IsJoined (sys_check m p) inv = record {
    stopped = inv.stopped;
    readers_done = inv.readers_done;
    sys_done = λ j. ground arith;
  }
  Step-IsJoined (sys_wake p) inv =
      IsJoined-sys _ _ _ inv (λ j. absurd (ground (arith, inv.sys_done j)))
  Step-IsJoined (sys_collected m p) inv =
      IsJoined-sys _ _ _ inv (λ j. absurd (ground (arith, inv.sys_done j)))
  Step-IsJoined (sys_send m p) inv =
      IsJoined-sys _ _ _ inv (λ j. absurd (ground (arith, inv.sys_done j)))
  Step-IsJoined (join_readers m f) inv = record {
    stopped = λ j. refl;
    readers_done = λ j. f;
    sys_done = λ j. cc;
  }
  Step-IsJoined (join_sys m p) inv = record {
    stopped = λ j. inv.stopped (ground arith);
    readers_done = λ j. inv.readers_done (ground arith);
    sys_done = λ j. p;
  }
  Step-IsJoined stop inv = record {
    stopped = λ j. refl;
    readers_done = inv.readers_done;
    sys_done = inv.sys_done;
  }

  Reach-IsJoined : {s t : State Double} → IsJoined s → Reach count handle node s t → IsJoined t
  Reach-IsJoined inv here = inv
  Reach-IsJoined inv (next r st) = Step-IsJoined st (Reach-IsJoined inv r)

  initial-IsJoined : (source : ℕ → List CollectorEvent) → IsJoined (initial source)
  initial-IsJoined source = record {
    stopped = λ j. cc;
    readers_done = λ j. absurd (cc);
    sys_done = λ j. cc;
  }

  -- A reader has returned after making all effects of its handler for the events it consumed, which
  -- are the first events of its source.
  pub record IsComplete (source : ℕ → List CollectorEvent) (t : State Double) (i : ℕ) : Type 0 where
    pub over : (t.readers i).phase ≡ finished
    pub handled_all : effects_of i t.log ≡ effects_for (handle i) (t.readers i).consumed
    pub in_order : (t.readers i).consumed ++ (t.readers i).pending ≡ source i

  -- When `run` returns, in every interleaving and with any number of readers: `running_` is false,
  -- the thread of system metrics has returned, and each reader has returned after making all effects
  -- of its handler for the events it consumed, which are the first events of its source.
  pub returned-IsComplete :
      (source : ℕ → List CollectorEvent) {t : State Double}
      → Reach count handle node (initial source) t
      → t.main ≡ returned
      → (t.running ≡ false) × (t.sys_phase ≡ sys_finished) × All (IsComplete source t) (below count)
  returned-IsComplete source {t} r m =
      let inv = Reach-IsJoined (initial-IsJoined source) r in
      let done : joined t.main ≡ true = rw m in
      (
        inv.stopped done,
        inv.sys_done m,
        All-below (IsComplete source t) count (λ i lt.
            let over = inv.readers_done done i lt in
            let (sent, taken) = Reach-InOrder count handle node source r i in
            record {
              over = over;
              handled_all = sym (append-nil _) ∙ rw over at sent;
              in_order = taken;
            }),
      )
