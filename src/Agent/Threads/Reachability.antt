-- ===== src/Agent/Threads/Reachability.antt =====
-- Runs of the threads, one after the other.
use time_agent.Base.{ℕ, List, ◌≡◌, refl, Bytes, ==_iff}
use time_agent.Collector.{CollectorEvent}
use time_agent.Agent.{Effect}
use time_agent.Agent.Threads.{Reader, State, update, Reach, here, next}

module _ {Double : Type 0} (count : ℕ) (handle : ℕ → CollectorEvent → List (Effect Double))
    (node : Bytes) where
  pub Reach-trans :
      {s t u : State Double}
      → Reach count handle node s t
      → Reach count handle node t u
      → Reach count handle node s u
  Reach-trans r here = r
  Reach-trans r (next q st) = next (Reach-trans r q) st

  pub update_self : (f : ℕ → Reader Double) (k : ℕ) (r : Reader Double) → update f k r k ≡ r
  update_self f k r = rw ((==_iff k k).1 refl)
