-- ===== src/Agent/Threads/Loop/Steps.antt =====
-- The steps of the threads that make one round of `readerLoop`.
use time_agent.Base.{
  ℕ, ◌<◌, true, List, [], ◌∷◌, ◌++◌, ◌≡◌, refl, ap, ◌∙◌, Bytes, append_assoc, append-nil,
}
use time_agent.Collector.{CollectorEvent}
use time_agent.Agent.{Effect}
use time_agent.Agent.Threads.{
  Phase, checking, reading, handling, Reader, Thread, reader, joining_readers, State, update, check,
  read, act, after_check, handled, Reach, here, next,
}
use time_agent.Agent.Threads.Reachability.{Reach-trans, update_self}
use time_agent.Agent.Threads.Loop.{by}

module _ {Double : Type 0} (count : ℕ) (handle : ℕ → CollectorEvent → List (Effect Double))
    (node : Bytes) (i : ℕ) (lt : i < count) where
  -- The agent runs, with this reader and this log.
  pub record At (r : Reader Double) (log : List (Thread × Effect Double)) (s : State Double)
      : Type 0 where
    pub waits : s.main ≡ joining_readers
    pub runs : s.running ≡ true
    pub here_reader : s.readers i ≡ r
    pub logged : s.log ≡ log

  -- Steps lead there.
  pub record Goes (r : Reader Double) (log : List (Thread × Effect Double)) (s : State Double)
      : Type 0 where
    pub target : State Double
    pub path : Reach count handle node s target
    pub arrives : At r log target

  pub Goes-then :
      {r q : Reader Double} {log logs : List (Thread × Effect Double)} {s : State Double}
      → Goes r log s
      → ((t : State Double) → At r log t → Goes q logs t)
      → Goes q logs s
  Goes-then g f =
      let k = f g.target g.arrives in
      record {
        target = k.target;
        path = Reach-trans count handle node g.path k.path;
        arrives = k.arrives;
      }

  pub updated : (s : State Double) (r : Reader Double) → (update s.readers i r) i ≡ r
  updated s r = update_self count handle node s.readers i r

  -- The reader with a new phase.
  pub moved :
      (r : Reader Double) {log : List (Thread × Effect Double)} (s : State Double)
      (p q : Phase Double)
      → p ≡ q
      → At r log s
      → record (s.readers i) { phase = p } ≡ record r { phase = q }
  moved r s p q e a = λ j. record {
    phase = e j;
    consumed = (a.here_reader j).consumed;
    pending = (a.here_reader j).pending;
  }

  abbrev pub phase_at :
      {r : Reader Double} {log : List (Thread × Effect Double)} {s : State Double}
      {p : Phase Double}
      → At r log s
      → r.phase ≡ p
      → (s.readers i).phase ≡ p
  phase_at a p = ap (λ q. q.phase) a.here_reader ∙ p

  pub Goes-check :
      (r : Reader Double) (log : List (Thread × Effect Double)) (s : State Double)
      → r.phase ≡ checking
      → At r log s
      → Goes (record r { phase = reading }) log s
  Goes-check r log s p a = record {
    target = _;
    path = next here (check i lt a.waits (phase_at a p));
    arrives = record {
      waits = a.waits;
      runs = a.runs;
      here_reader =
          updated s _ ∙ moved r s (after_check s.running) reading (ap after_check a.runs) a;
      logged = a.logged;
    };
  }

  Goes-read :
      (r : Reader Double) (log : List (Thread × Effect Double)) (s : State Double)
      (e : CollectorEvent) (rest : List CollectorEvent)
      → r.phase ≡ reading
      → r.pending ≡ e ∷ rest
      → At r log s
      → Goes
          (record {
            phase = handling (handle i e);
            consumed = r.consumed ++ e ∷ [];
            pending = rest;
          })
          log
          s
  Goes-read r log s e rest p d a = record {
    target = _;
    path = next here (read i e rest lt (phase_at a p) (ap (λ q. q.pending) a.here_reader ∙ d));
    arrives = record {
      waits = a.waits;
      runs = a.runs;
      here_reader = updated s _ ∙ (λ j. record {
        phase = handling (handle i e);
        consumed = (a.here_reader j).consumed ++ e ∷ [];
        pending = rest;
      });
      logged = a.logged;
    };
  }

  Goes-act :
      (r : Reader Double) (log : List (Thread × Effect Double)) (s : State Double)
      (x : Effect Double) (xs : List (Effect Double))
      → r.phase ≡ handling (x ∷ xs)
      → At r log s
      → Goes (record r { phase = handling xs }) (log ++ (reader i, x) ∷ []) s
  Goes-act r log s x xs p a = record {
    target = _;
    path = next here (act i x xs lt (phase_at a p));
    arrives = record {
      waits = a.waits;
      runs = a.runs;
      here_reader = updated s _ ∙ moved r s (handling xs) (handling xs) refl a;
      logged = ap (λ l. l ++ (reader i, x) ∷ []) a.logged;
    };
  }

  Goes-handled :
      (r : Reader Double) (log : List (Thread × Effect Double)) (s : State Double)
      → r.phase ≡ handling []
      → At r log s
      → Goes (record r { phase = checking }) log s
  Goes-handled r log s p a = record {
    target = _;
    path = next here (handled i lt (phase_at a p));
    arrives = record {
      waits = a.waits;
      runs = a.runs;
      here_reader = updated s _ ∙ moved r s checking checking refl a;
      logged = a.logged;
    };
  }

  -- The rest of the handler, to its return.
  Goes-all :
      (xs : List (Effect Double)) (r : Reader Double) (log : List (Thread × Effect Double))
      (s : State Double)
      → r.phase ≡ handling xs
      → At r log s
      → Goes (record r { phase = checking }) (log ++ by i xs) s
  Goes-all [] r log s p a = rw append-nil (Goes-handled r log s p a)
  Goes-all (x ∷ xs) r log s p a =
      rw append_assoc at (Goes-then (Goes-act r log s x xs p a) (λ t b. Goes-all xs _ _ t refl b))

  -- One round of the loop in which `readEvent` delivers an event.
  pub Goes-round :
      (r : Reader Double) (log : List (Thread × Effect Double)) (s : State Double)
      (e : CollectorEvent) (rest : List CollectorEvent)
      → r.phase ≡ checking
      → r.pending ≡ e ∷ rest
      → At r log s
      → Goes
          (record { phase = checking; consumed = r.consumed ++ e ∷ []; pending = rest })
          (log ++ by i (handle i e))
          s
  Goes-round r log s e rest p d a = Goes-then (Goes-check r log s p a) (λ t b.
      Goes-then (Goes-read _ log t e rest refl d b) (λ u c. Goes-all (handle i e) _ log u refl c))
