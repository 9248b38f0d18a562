-- ===== src/Agent/Threads/Race.antt =====
-- The two unsynchronised uses of `sysMetricsCollector_`: `setInterface` in the handler of ptp4l and
-- `collect` in `sysMetricsLoop`. The mutex `adapterMutex_` covers neither.
use time_agent.Base.{ℕ, ◌<◌, List, [], ◌∷◌, ◌≡◌, refl, ap, Bytes, inl, ==_iff}
use time_agent.Collector.{CollectorEvent}
use time_agent.Agent.{Effect, set_interface}
use time_agent.Agent.Threads.{
  handling, sys_collecting, reader, State, Step, start, check, read, act, sys_check, sys_wake,
  Reach, here, next, initial,
}

module _ {Double : Type 0} (count : ℕ) (handle : ℕ → CollectorEvent → List (Effect Double))
    (node : Bytes) where
  -- Where the first event of a reader makes its handler set the interface first, an execution of the
  -- constructed agent leads to a state in which the thread of system metrics is inside `collect`, and
  -- there the reader can make the call of `setInterface`, after which the other thread is still
  -- inside the same `collect`.
  pub set_interface-collect_race :
      (source : ℕ → List CollectorEvent) (k : ℕ) (e : CollectorEvent) (rest : List CollectorEvent)
      (name : Bytes) (xs : List (Effect Double))
      → k < count
      → source k ≡ e ∷ rest
      → handle k e ≡ set_interface name ∷ xs
      → (t : State Double) × (u : State Double) × Reach count handle node (initial source) t
        × (t.sys_phase ≡ sys_collecting)
        × (t.log ≡ [])
        × Step count handle node t u
        × (u.log ≡ (reader k, set_interface name) ∷ [])
        × (u.sys_phase ≡ sys_collecting)
  set_interface-collect_race source k e rest name xs lt p h =
      let self = (==_iff k k).1 refl in
      let asked = next (next here (start refl)) (check k lt refl refl) in
      let handled = next asked (read k e rest lt (rw self refl) (rw self p)) in
      let inside = next (next handled (sys_check (inl refl) refl)) (sys_wake refl) in
      (
        _,
        _,
        inside,
        refl,
        refl,
        act k (set_interface name) xs lt (rw self (ap handling h)),
        refl,
        refl,
      )
