-- ===== src/Tests/Files.antt =====
-- Runs on files and descriptors.
use time_agent.Base.{
  ℕ, suc, ◌+◌, ◌<◌, Bool, true, false, not, ◌&&◌, ◌||◌, List, [], ◌∷◌, ◌++◌, ◌≡◌, some, codes, ◌==◌,
  arith, if◌then◌else◌, inl, inr, Bool-cases,
}
use time_agent.Os.{Os, IsPosix}
use time_agent.Network.{NetworkCollector, new_collector, set_interface}
use time_agent.Network.{tx_errors}
use time_agent.Metrics.{NetworkStats}
use time_agent.Procfs.{find_line_prefix}
use time_agent.Procfs.Prefix.{Finds, find_line_prefix-Finds}

find_line_prefix-Finds_example :
    Finds
      (codes "cpu 1" ++ b'\n' ∷ codes "ctxt 5")
      (codes "ctxt ")
      (find_line_prefix (codes "cpu 1" ++ b'\n' ∷ codes "ctxt 5") (codes "ctxt "))
find_line_prefix-Finds_example =
    find_line_prefix-Finds (codes "cpu 1" ++ b'\n' ∷ codes "ctxt 5") (codes "ctxt ") (λ h. cc)

-- A system whose state is the list of open descriptors; a new one is larger than all of them.
abbrev member : ℕ → List ℕ → Bool
member fd [] = false
member fd (x ∷ xs) = fd == x || member fd xs

abbrev above : List ℕ → ℕ
above [] = 1
above (x ∷ xs) = suc (x + above xs)

abbrev shut : List ℕ → ℕ → List ℕ
shut [] old = []
shut (x ∷ xs) old = let rest = shut xs old in if x == old then rest else x ∷ rest

abbrev pub small_os : Os
small_os = record {
  World = List ℕ;
  open_file = λ w path. (some (above w), above w ∷ w);
  close_file = shut;
  pread = λ w fd n. some (codes "5");
  is_open = λ w fd. member fd w;
}

member-above : (fd : ℕ) (w : List ℕ) → member fd w ≡ true → fd < above w
member-above fd [] h = cc
member-above fd (x ∷ w) h = ground (arith, member-above fd w)

above-fresh : (w : List ℕ) → member (above w) w ≡ false
above-fresh w = elim (Bool-cases (member (above w) w)) [
  | inr f ↦ f
  | inl t ↦ absurd (omega (arith, member-above (above w) w t))
]

member-shut : (w : List ℕ) (old fd : ℕ) → member fd (shut w old) ≡ (not (fd == old) && member fd w)
member-shut [] old fd = ground arith
member-shut (x ∷ w) old fd = ground (arith, member-shut w old fd)

pub small_os-IsPosix : IsPosix small_os
small_os-IsPosix = record {
  open_none = λ w path fd h. cc;
  open_some = λ w path new fd h. ground arith;
  open_fresh = λ w path new h. ground (arith, above-fresh w);
  close_shuts = member-shut;
}

abbrev collector : NetworkCollector
collector = new_collector (codes "/sys/class/net")

abbrev watching : NetworkCollector
watching = (set_interface small_os [] collector (codes "eth0")).0

abbrev fives : NetworkStats
fives = record {
  rx_packets = 5;
  tx_packets = 5;
  rx_dropped = 5;
  tx_dropped = 5;
  rx_errors = 5;
  tx_errors = 5;
  collisions = 5;
}
