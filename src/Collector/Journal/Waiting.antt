-- ===== src/Collector/Journal/Waiting.antt =====
-- When the loop of `JournalCollector::readEvent` ends, and with what.
use time_agent.Base.{ℕ, suc, true, false, List, [], ◌∷◌, ◌++◌, ◌≡◌, All, arith}
use time_agent.Base.Int.{pos, negsuc}
use time_agent.Collector.Journal.{Round, Outcome, entry, ended, await_entry}

-- What one round of the loop comes to.
pub data Verdict (r : Round) : Type 0 where
  -- No entry, no request to stop, no error: the loop goes on.
  idle : (n : ℕ) → r.next ≡ pos 0 → r.stop_requested ≡ false → r.wait ≡ pos n → Verdict r
  -- An entry is there, also if a stop has been requested.
  ready : (n : ℕ) → r.next ≡ pos (suc n) → Verdict r
  next_failed : (n : ℕ) → r.next ≡ negsuc n → Verdict r
  stopped : r.next ≡ pos 0 → r.stop_requested ≡ true → Verdict r
  wait_failed : (n : ℕ) → r.next ≡ pos 0 → r.stop_requested ≡ false → r.wait ≡ negsuc n → Verdict r

abbrev pub outcome_of : {r : Round} → Verdict r → Outcome → Outcome
outcome_of (idle n p q s) later = later
outcome_of (ready n p) later = entry
outcome_of (next_failed n p) later = ended
outcome_of (stopped p q) later = ended
outcome_of (wait_failed n p q s) later = ended

-- The loop returns by the first round that is not idle, and goes on waiting through any number of
-- idle ones: an entry at hand is delivered even after `stop`; otherwise `stop` and errors end the
-- call with nothing.
pub await_entry-first :
    (before after : List Round) (r : Round) (v : Verdict r)
    → All (λ q. (q.next ≡ pos 0) × (q.stop_requested ≡ false) × ((n : ℕ) × (q.wait ≡ pos n))) before
    → await_entry (before ++ r ∷ after) ≡ outcome_of v (await_entry after)
unfolding await_entry
await_entry-first [] after r (idle n p q s) h = ground arith
await_entry-first [] after r (ready n p) h = ground arith
await_entry-first [] after r (next_failed n p) h = ground arith
await_entry-first [] after r (stopped p q) h = ground arith
await_entry-first [] after r (wait_failed n p q s) h = ground arith
await_entry-first (b ∷ bs) after r v h = ground (arith, await_entry-first bs after r v h.1, h.0)
