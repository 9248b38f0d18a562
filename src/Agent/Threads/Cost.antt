-- ===== src/Agent/Threads/Cost.antt =====
-- A bound on the steps that the threads have left once `running_` is false.
use time_agent.Base.{
  ℕ, zero, suc, ◌+◌, ◌<◌, false, List, [], ◌∷◌, ◌≡◌, ◌≢◌, refl, ◌==◌, Bytes, inl, inr, arith,
  Bool-cases, ==_iff, length,
}
use time_agent.Collector.{CollectorEvent}
use time_agent.Agent.{Effect}
use time_agent.Agent.Threads.{
  Phase, checking, reading, finished, handling, Reader, SysPhase, sys_checking, sys_asleep,
  sys_collecting, sys_sending, sys_finished, MainPhase, starting, joining_readers, joining_sys,
  returned, State, update, Step, start, check, read, read_nothing, act, handled, sys_check,
  sys_wake, sys_collected, sys_send, join_readers, join_sys, stop,
}

-- The sum of `f` below `n`.
abbrev pub total : (ℕ → ℕ) → ℕ → ℕ
total f zero = 0
total f (suc n) = f n + total f n

total-same : (f g : ℕ → ℕ) (n : ℕ) → ((i : ℕ) → i < n → f i ≡ g i) → total f n ≡ total g n
total-same f g zero h = refl
total-same f g (suc n) h =
    let here = h n (omega arith) in
    let rest = total-same f g n (λ i lt. h i (omega (arith, lt))) in omega (arith, here, rest)

total-less :
    (f g : ℕ → ℕ) (k n : ℕ)
    → k < n
    → ((i : ℕ) → (i == k) ≡ false → f i ≡ g i)
    → f k < g k
    → total f n < total g n
total-less f g k zero lt h less = absurd (omega (arith, lt))
total-less f g k (suc n) lt h less = elim (Bool-cases (n == k)) [
  | inl t ↦
      let last : n ≡ k = (==_iff n k).0 t in
      let rest : total f n ≡ total g n =
        total-same f g n (λ i below. h i (ground (arith, last, below))) in
      let here : f n < g n = rw last less in omega (arith, rest, here)
  | inr e ↦
      let rest = total-less f g k n (ground (arith, lt, e)) h less in
      let here = h n e in omega (arith, rest, here)
]

-- What `run` still has to wait for.
abbrev pub main_cost : MainPhase → ℕ
main_cost returned = 0
main_cost joining_sys = 1
main_cost joining_readers = 2
main_cost starting = 3

module _ {Double : Type 0} where
  -- A reader that will not test `running_` again with success.
  abbrev pub reader_cost :
      (CollectorEvent → List (Effect Double)) → Phase Double → List CollectorEvent → ℕ
  reader_cost h finished pending = 0
  reader_cost h checking pending = 1
  reader_cost h (handling xs) pending = 2 + length xs
  reader_cost h reading [] = 1
  reader_cost h reading (e ∷ pending) = 3 + length (h e)

  abbrev pub sys_cost : SysPhase Double → ℕ
  sys_cost sys_finished = 0
  sys_cost sys_checking = 1
  sys_cost sys_asleep = 1
  sys_cost (sys_sending m) = 2
  sys_cost sys_collecting = 3

  reading_cost :
      (h : CollectorEvent → List (Effect Double)) (pending : List CollectorEvent)
      → 0 < reader_cost h reading pending
  reading_cost h [] = omega arith
  reading_cost h (e ∷ pending) = omega arith

  module _ (count : ℕ) (handle : ℕ → CollectorEvent → List (Effect Double)) (node : Bytes) where
    abbrev readers_cost : (ℕ → Reader Double) → ℕ
    readers_cost f = total (λ i. reader_cost (handle i) (f i).phase (f i).pending) count

    abbrev pub cost : State Double → ℕ
    cost s = readers_cost s.readers + (sys_cost s.sys_phase + main_cost s.main)

    -- Any step but a call of `stop`.
    abbrev pub IsWork : {s t : State Double} → Step count handle node s t → Type 0
    IsWork stop = ⊥
    IsWork _ = Unit

    readers_cost-update :
        (f : ℕ → Reader Double) (k : ℕ) (r : Reader Double)
        → k < count
        → reader_cost (handle k) r.phase r.pending
          < reader_cost (handle k) (f k).phase (f k).pending
        → readers_cost (update f k r) < readers_cost f
    readers_cost-update f k r lt less =
        total-less _ _ k count lt (λ i e. rw e refl) (rw ((==_iff k k).1 refl) less)

    -- A step of reader `k` that makes its cost smaller.
    reader_step :
        (s : State Double) (k : ℕ) (r : Reader Double)
        → k < count
        → reader_cost (handle k) r.phase r.pending
          < reader_cost (handle k) (s.readers k).phase (s.readers k).pending
        → readers_cost (update s.readers k r) + (sys_cost s.sys_phase + main_cost s.main) < cost s
    reader_step s k r lt less = omega (arith, readers_cost-update s.readers k r lt less)

    pub Step-cost :
        {s t : State Double} (st : Step count handle node s t)
        → IsWork st
        → s.running ≡ false
        → s.main ≢ starting
        → (cost t < cost s) × (t.running ≡ false) × (t.main ≢ starting)
    Step-cost (start m) w h ne = absurd (ne m)
    Step-cost {s} (check k lt m p) w h ne = (reader_step s k _ lt (rw (p, h) (omega arith)), h, ne)
    Step-cost {s} (read k e rest lt p q) w h ne =
        (reader_step s k _ lt (rw (p, q) (omega arith)), h, ne)
    Step-cost {s} (read_nothing k lt p) w h ne =
        (reader_step s k _ lt (rw p (reading_cost (handle k) (s.readers k).pending)), h, ne)
    Step-cost {s} (act k x xs lt p) w h ne = (reader_step s k _ lt (rw p (omega arith)), h, ne)
    Step-cost {s} (handled k lt p) w h ne = (reader_step s k _ lt (rw p (omega arith)), h, ne)
    Step-cost (sys_check m p) w h ne = (rw (p, h) (omega arith), h, ne)
    Step-cost (sys_wake p) w h ne = (rw (p, h) (omega arith), h, ne)
    Step-cost (sys_collected m p) w h ne = (rw p (omega arith), h, ne)
    Step-cost (sys_send m p) w h ne = (rw p (omega arith), h, ne)
    Step-cost (join_readers m f) w h ne = (rw m (omega arith), refl, λ e. cc)
    Step-cost (join_sys m p) w h ne = (rw m (omega arith), h, λ e. cc)
    Step-cost stop w h ne = absurd w
