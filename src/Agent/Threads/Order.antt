-- ===== src/Agent/Threads/Order.antt =====
-- What a reader has sent, in every interleaving.
use time_agent.Base.{
  ℕ, Bool, true, false, List, [], ◌∷◌, ◌++◌, ◌≡◌, refl, sym, ap, ◌∙◌, ◌==◌, if◌then◌else◌, Bytes,
  inl, inr, arith, append_assoc, append-nil, Bool-cases, ==_iff,
}
use time_agent.Collector.{CollectorEvent}
use time_agent.Agent.{Effect}
use time_agent.Agent.Threads.{
  Phase, checking, reading, finished, handling, Reader, Thread, reader, system, State, update, Step,
  start, check, read, read_nothing, act, handled, sys_check, sys_wake, sys_collected, sys_send,
  join_readers, join_sys, stop, Reach, here, next, initial, after_check,
}

abbrev pub is_by : ℕ → Thread → Bool
is_by i (reader j) = j == i
is_by i system = false

module _ {Double : Type 0} where
  -- The effects in the log that reader `i` made, in order.
  abbrev pub effects_of : ℕ → List (Thread × Effect Double) → List (Effect Double)
  effects_of i [] = []
  effects_of i ((t, x) ∷ log) = if is_by i t then x ∷ effects_of i log else effects_of i log

  abbrev pub remaining : Phase Double → List (Effect Double)
  remaining (handling xs) = xs
  remaining checking = []
  remaining reading = []
  remaining finished = []

  -- The effects that a handler has for a list of events, in order.
  abbrev pub effects_for :
      (CollectorEvent → List (Effect Double)) → List CollectorEvent → List (Effect Double)
  effects_for h [] = []
  effects_for h (e ∷ es) = h e ++ effects_for h es

  effects_of-snoc :
      (i : ℕ) (log : List (Thread × Effect Double)) (t : Thread) (x : Effect Double)
      → effects_of i (log ++ (t, x) ∷ []) ≡ effects_of i log ++ (if is_by i t then x ∷ [] else [])
  effects_of-snoc i [] t x = ground arith
  effects_of-snoc i ((u, y) ∷ log) t x = ground (arith, effects_of-snoc i log t x)

  effects_for-snoc :
      (h : CollectorEvent → List (Effect Double)) (es : List CollectorEvent) (e : CollectorEvent)
      → effects_for h (es ++ e ∷ []) ≡ effects_for h es ++ h e
  effects_for-snoc h [] e = append-nil (h e)
  effects_for-snoc h (d ∷ es) e =
      ap (◌++◌ (h d)) (effects_for-snoc h es e) ∙ sym (append_assoc (h d) (effects_for h es) (h e))

  -- What reader `i` has sent, with what its current handler has left, is what its handler has for
  -- the events consumed; these and the pending ones are the events of its source.
  pub record InOrder (h : CollectorEvent → List (Effect Double)) (events : List CollectorEvent)
      (i : ℕ) (log : List (Thread × Effect Double)) (r : Reader Double) : Type 0 where
    pub sent : effects_of i log ++ remaining r.phase ≡ effects_for h r.consumed
    pub taken : r.consumed ++ r.pending ≡ events

  at_update :
      (P : Reader Double → Type 0) (f : ℕ → Reader Double) (k : ℕ) (r : Reader Double) (i : ℕ)
      → (i ≡ k → P r)
      → P (f i)
      → P (update f k r i)
  at_update P f k r i own other = elim (Bool-cases (i == k)) [
    | inl e ↦ rw e (own ((==_iff i k).0 e))
    | inr e ↦ rw e other
  ]

  effects_of-other :
      (i k : ℕ) (log : List (Thread × Effect Double)) (x : Effect Double)
      → (k == i) ≡ false
      → effects_of i (log ++ (reader k, x) ∷ []) ≡ effects_of i log
  effects_of-other i k log x h = effects_of-snoc i log (reader k) x ∙ rw h (append-nil _)

  effects_of-own :
      (i : ℕ) (log : List (Thread × Effect Double)) (x : Effect Double)
      → effects_of i (log ++ (reader i, x) ∷ []) ≡ effects_of i log ++ x ∷ []
  effects_of-own i log x = effects_of-snoc i log (reader i) x ∙ rw ((==_iff i i).1 refl)

  effects_of-system :
      (i : ℕ) (log : List (Thread × Effect Double)) (x : Effect Double)
      → effects_of i (log ++ (system, x) ∷ []) ≡ effects_of i log
  effects_of-system i log x = effects_of-snoc i log system x ∙ append-nil _

  module _ (h : CollectorEvent → List (Effect Double)) (events : List CollectorEvent) (i : ℕ) where
    -- A reader's step that logs nothing and takes no event.
    InOrder-silent :
        (log : List (Thread × Effect Double)) (r : Reader Double) (p : Phase Double)
        → remaining p ≡ remaining r.phase
        → InOrder h events i log r
        → InOrder h events i log (record r { phase = p })
    InOrder-silent log r p e inv = record { sent = rw e (inv.sent); taken = inv.taken }

    InOrder-read :
        (log : List (Thread × Effect Double)) (r : Reader Double) (e : CollectorEvent)
        (rest : List CollectorEvent)
        → r.phase ≡ reading
        → r.pending ≡ e ∷ rest
        → InOrder h events i log r
        → InOrder h events i log
            (record { phase = handling (h e); consumed = r.consumed ++ e ∷ []; pending = rest })
    InOrder-read log r e rest p q inv = record {
      sent =
          ap (λ xs. xs ++ h e) (sym (append-nil _) ∙ rw p at (inv.sent))
          ∙ sym (effects_for-snoc h r.consumed e);
      taken = append_assoc r.consumed (e ∷ []) rest ∙ rw q at (inv.taken);
    }

    InOrder-act :
        (log : List (Thread × Effect Double)) (r : Reader Double) (x : Effect Double)
        (xs : List (Effect Double))
        → r.phase ≡ handling (x ∷ xs)
        → InOrder h events i log r
        → InOrder h events i (log ++ (reader i, x) ∷ []) (record r { phase = handling xs })
    InOrder-act log r x xs p inv = record {
      sent = rw effects_of-own (append_assoc _ (x ∷ []) xs ∙ rw p at (inv.sent));
      taken = inv.taken;
    }

    InOrder-log :
        (log log' : List (Thread × Effect Double)) (r : Reader Double)
        → effects_of i log' ≡ effects_of i log
        → InOrder h events i log r
        → InOrder h events i log' r
    InOrder-log log log' r e inv = record { sent = rw e (inv.sent); taken = inv.taken }

  module _ (count : ℕ) (handle : ℕ → CollectorEvent → List (Effect Double)) (node : Bytes)
      (source : ℕ → List CollectorEvent) where
    -- Every reader is in order.
    abbrev pub AllInOrder : State Double → Type 0
    AllInOrder s = (i : ℕ) → InOrder (handle i) (source i) i s.log (s.readers i)

    -- A step of reader `k` that logs nothing and takes no event.
    AllInOrder-phase :
        (s : State Double) (k : ℕ) (p : Phase Double)
        → remaining p ≡ remaining (s.readers k).phase
        → AllInOrder s
        → AllInOrder
            (record s { readers = update s.readers k (record (s.readers k) { phase = p }) })
    AllInOrder-phase s k p e inv i =
        at_update (InOrder (handle i) (source i) i s.log) s.readers k _ i
          (λ same.
            rw (← same)
              (InOrder-silent (handle i) (source i) i s.log (s.readers i) p (rw same e) (inv i)))
          (inv i)

    remaining-after_check : (b : Bool) → remaining (after_check {Double = Double} b) ≡ []
    remaining-after_check true = refl
    remaining-after_check false = refl

    AllInOrder-read :
        (s : State Double) (k : ℕ) (e : CollectorEvent) (rest : List CollectorEvent)
        → (s.readers k).phase ≡ reading
        → (s.readers k).pending ≡ e ∷ rest
        → AllInOrder s
        → AllInOrder (record s {
          readers = update s.readers k (record {
            phase = handling (handle k e);
            consumed = (s.readers k).consumed ++ e ∷ [];
            pending = rest;
          });
        })
    AllInOrder-read s k e rest p q inv i =
        at_update (InOrder (handle i) (source i) i s.log) s.readers k _ i
          (λ same. rw (← same) (
            InOrder-read (handle i) (source i) i s.log (s.readers i) e rest (rw same p) (rw same q)
              (inv i)))
          (inv i)

    AllInOrder-act :
        (s : State Double) (k : ℕ) (x : Effect Double) (xs : List (Effect Double))
        → (s.readers k).phase ≡ handling (x ∷ xs)
        → AllInOrder s
        → AllInOrder (record s {
          readers = update s.readers k (record (s.readers k) { phase = handling xs });
          log = s.log ++ (reader k, x) ∷ [];
        })
    AllInOrder-act s k x xs p inv i = elim (Bool-cases (i == k)) [
      | inl e ↦
          let same = (==_iff i k).0 e in
          rw e (
            rw (← same)
              (InOrder-act (handle i) (source i) i s.log (s.readers i) x xs (rw same p) (inv i)))
      | inr e ↦ rw e (
          InOrder-log (handle i) (source i) i s.log _ (s.readers i)
            (effects_of-other i k s.log x (ground arith)) (inv i))
    ]

    Step-AllInOrder :
        {s t : State Double} → Step count handle node s t → AllInOrder s → AllInOrder t
    Step-AllInOrder (start m) inv = inv
    Step-AllInOrder {s} (check k lt m p) inv =
        AllInOrder-phase s k (after_check s.running) (rw p (remaining-after_check s.running)) inv
    Step-AllInOrder {s} (read k e rest lt p q) inv = AllInOrder-read s k e rest p q inv
    Step-AllInOrder {s} (read_nothing k lt p) inv = AllInOrder-phase s k finished (rw p) inv
    Step-AllInOrder {s} (act k x xs lt p) inv = AllInOrder-act s k x xs p inv
    Step-AllInOrder {s} (handled k lt p) inv = AllInOrder-phase s k checking (rw p) inv
    Step-AllInOrder (sys_check m p) inv = inv
    Step-AllInOrder (sys_wake p) inv = inv
    Step-AllInOrder (sys_collected m p) inv = inv
    Step-AllInOrder {s} (sys_send m p) inv = λ i.
        InOrder-log (handle i) (source i) i s.log _ (s.readers i) (effects_of-system i s.log _)
          (inv i)
    Step-AllInOrder (join_readers m f) inv = inv
    Step-AllInOrder (join_sys m p) inv = inv
    Step-AllInOrder stop inv = inv

    Reach-AllInOrder :
        {s t : State Double} → AllInOrder s → Reach count handle node s t → AllInOrder t
    Reach-AllInOrder inv here = inv
    Reach-AllInOrder inv (next r st) = Step-AllInOrder st (Reach-AllInOrder inv r)

    -- In every state that the threads can reach, whatever their interleaving and whenever `stop` is
    -- called: the effects that a reader has made, followed by those its current handler has left,
    -- are in order the effects of its handler for the events it has consumed, and these are the
    -- first events of its source.
    pub Reach-InOrder :
        {t : State Double}
        → Reach count handle node (initial source) t
        → (i : ℕ)
        → (effects_of i t.log ++ remaining (t.readers i).phase
            ≡ effects_for (handle i) (t.readers i).consumed)
          × ((t.readers i).consumed ++ (t.readers i).pending ≡ source i)
    Reach-InOrder r i =
        let inv = Reach-AllInOrder (λ j. record { sent = refl; taken = refl }) r i in
        (inv.sent, inv.taken)
