-- ===== src/Agent/Threads/Loop/Runs.antt =====
-- Every run of `readerLoop` is a run of the threads.
use time_agent.Base.{
  ℕ, ◌<◌, Bool, true, false, List, [], ◌∷◌, ◌++◌, ◌≡◌, refl, sym, ap, ◌∙◌, none, some, Bytes,
  append_assoc, append-nil, inl, inr, Option-cases,
}
use time_agent.Collector.{CollectorEvent}
use time_agent.Collector.Source.{ICollector}
use time_agent.Agent.{Effect}
use time_agent.Agent.Threads.{
  Phase, checking, reading, finished, Reader, Thread, reader, joining_readers, State, start,
  set_reader, check, read_nothing, stop, Reach, here, next, initial,
}
use time_agent.Agent.Threads.Reachability.{Reach-trans}
use time_agent.Agent.Threads.Loop.{Loop, at_phase, after_event, by, reader_loop}
use time_agent.Agent.Threads.Loop.Steps.{At, updated, moved, phase_at, Goes-check, Goes-round}

module _ {Double : Type 0} (count : ℕ) (handle : ℕ → CollectorEvent → List (Effect Double))
    (node : Bytes) (i : ℕ) (lt : i < count) where
  -- Steps of the threads from here that do what the loop does.
  record Follows (r : Reader Double) (log : List (Thread × Effect Double)) (s : State Double)
      (l : Loop Double) (rest : List CollectorEvent) : Type 0 where
    target : State Double
    path : Reach count handle node s target
    at_end :
        target.readers i
        ≡ record { phase = l.phase; consumed = r.consumed ++ l.events; pending = rest }
    logged : target.log ≡ log ++ by i l.sent
    flag : target.running ≡ l.running

  -- From every state in which the loop is about to test `running_`.
  abbrev IsFollowed : Loop Double → Type 0
  IsFollowed l =
      (r : Reader Double) (log : List (Thread × Effect Double)) (s : State Double)
      (rest : List CollectorEvent)
      → r.phase ≡ checking
      → r.pending ≡ l.events ++ rest
      → At count handle node i lt r log s
      → Follows r log s l rest

  -- Some steps that deliver no event.
  Follows-quiet :
      (b : Bool) (p : Phase Double) (r : Reader Double) (log : List (Thread × Effect Double))
      (s t : State Double) (rest : List CollectorEvent)
      → r.pending ≡ rest
      → Reach count handle node s t
      → t.readers i ≡ record r { phase = p }
      → t.log ≡ log
      → t.running ≡ b
      → Follows r log s (at_phase b p) rest
  Follows-quiet b p r log s t rest d path e h f = record {
    target = t;
    path = path;
    at_end =
        e ∙ (λ j. record { phase = p; consumed = sym (append-nil r.consumed) j; pending = d j });
    logged = h ∙ sym (append-nil log);
    flag = f;
  }

  follows_checking : IsFollowed (at_phase true checking)
  follows_checking r log s rest p d a =
      Follows-quiet true checking r log s s rest d here
        (a.here_reader ∙ ap (λ q. record r { phase = q }) p) a.logged a.runs

  follows_reading : IsFollowed (at_phase true reading)
  follows_reading r log s rest p d a =
      let g = Goes-check count handle node i lt r log s p a in
      Follows-quiet true reading r log s g.target rest d g.path g.arrives.here_reader
        g.arrives.logged g.arrives.runs

  -- `readEvent` returns nothing.
  follows_nothing : IsFollowed (at_phase true finished)
  follows_nothing r log s rest p d a =
      let g = Goes-check count handle node i lt r log s p a in
      Follows-quiet true finished r log s
        (set_reader g.target i (record (g.target.readers i) { phase = finished })) rest d
        (next g.path (read_nothing i lt (phase_at count handle node i lt g.arrives refl)))
        (updated count handle node i lt g.target _
          ∙ moved count handle node i lt _ g.target finished finished refl g.arrives)
        g.arrives.logged g.arrives.runs

  -- `running_` has become false.
  follows_stopped : IsFollowed (at_phase false finished)
  follows_stopped r log s rest p d a =
      Follows-quiet false finished r log s
        (set_reader (record s { running = false }) i (record (s.readers i) { phase = finished }))
        rest d (next (next here stop) (check i lt a.waits (phase_at count handle node i lt a p)))
        (updated count handle node i lt s _
          ∙ moved count handle node i lt r s finished finished refl a)
        a.logged refl

  by-append : (xs ys : List (Effect Double)) → by i (xs ++ ys) ≡ by i xs ++ by i ys
  by-append [] ys = refl
  by-append (x ∷ xs) ys = ap (◌∷◌ (reader i, x)) (by-append xs ys)

  follows_event :
      (e : CollectorEvent) (l : Loop Double)
      → IsFollowed l
      → IsFollowed (after_event (handle i e) e l)
  follows_event e l f r log s rest p d a =
      let g = Goes-round count handle node i lt r log s e (l.events ++ rest) p d a in
      let k = f _ _ g.target rest refl refl g.arrives in
      record {
        target = k.target;
        path = Reach-trans count handle node g.path k.path;
        at_end =
            k.at_end
            ∙ ap (λ es. record { phase = l.phase; consumed = es; pending = rest })
                (append_assoc r.consumed (e ∷ []) l.events);
        logged =
            k.logged
            ∙ append_assoc log (by i (handle i e)) (by i l.sent)
            ∙ ap (λ ls. log ++ ls) (sym (by-append (handle i e) l.sent));
        flag = k.flag;
      }

  reader_loop-IsFollowed :
      (ic : ICollector) (rounds : List (Bool × ic.Answer)) (c : ic.Self)
      → IsFollowed (reader_loop ic (handle i) rounds c)
  unfolding reader_loop
  reader_loop-IsFollowed ic [] c = follows_checking
  reader_loop-IsFollowed ic ((false, a) ∷ rounds) c = follows_stopped
  reader_loop-IsFollowed ic ((true, a) ∷ rounds) c = elim (Option-cases (ic.read_event a c)) [
    | inl n ↦ rw (n, reader_loop) follows_reading
    | inr ((none, c'), h) ↦ rw (h, reader_loop) follows_nothing
    | inr ((some e, c'), h) ↦
        rw (h, reader_loop) (follows_event e _ (reader_loop-IsFollowed ic rounds c'))
  ]

  -- Every run of `readerLoop` over any collector is a run of this reader among the threads: with the
  -- events that the collector delivers in front of its source, the threads can reach a state in which
  -- the reader stands where the loop stands, has consumed these events and has made, in order, the
  -- effects of the loop, and nothing else is in the log.
  pub reader_loop-Reach :
      (ic : ICollector) (rounds : List (Bool × ic.Answer)) (c : ic.Self)
      (source : ℕ → List CollectorEvent) (rest : List CollectorEvent)
      → source i ≡ (reader_loop ic (handle i) rounds c).events ++ rest
      → (t : State Double) × Reach count handle node (initial source) t
        × (t.readers i ≡ record {
          phase = (reader_loop ic (handle i) rounds c).phase;
          consumed = (reader_loop ic (handle i) rounds c).events;
          pending = rest;
        })
        × (t.log ≡ by i (reader_loop ic (handle i) rounds c).sent)
        × (t.running ≡ (reader_loop ic (handle i) rounds c).running)
  reader_loop-Reach ic rounds c source rest e =
      let f =
        reader_loop-IsFollowed ic rounds c _ []
          (record (initial source) { running = true; main = joining_readers }) rest refl e
          (record { waits = refl; runs = refl; here_reader = refl; logged = refl }) in
      (
        f.target,
        Reach-trans count handle node (next here (start refl)) f.path,
        f.at_end,
        f.logged,
        f.flag,
      )
