-- ===== src/Network.antt =====
-- `NetworkCollector`, src/system_metrics.cpp lines 15 to 28 and 208 to 265.
pub mod Ownership
pub mod Counters
pub mod Paths
use time_agent.Base.{
  ℕ, List, [], ◌∷◌, ◌++◌, Option, none, some, Bytes, codes, map, if◌then◌else◌, is_empty, ◌>>=◌,
}
use time_agent.Number.{from_chars_u64}
use time_agent.Metrics.{NetworkStats}
use time_agent.Os.{Os, close_fd}

-- A member of `NetworkStats`, for the pointers to members of `kNetworkMetrics`.
pub data Field : Type 0 where
  rx_packets tx_packets rx_dropped tx_dropped rx_errors tx_errors collisions : Field

abbrev pub network_metrics : List (Bytes × Field)
network_metrics =
    (codes "rx_packets", rx_packets)
    ∷ (codes "tx_packets", tx_packets)
    ∷ (codes "rx_dropped", rx_dropped)
    ∷ (codes "tx_dropped", tx_dropped)
    ∷ (codes "rx_errors", rx_errors)
    ∷ (codes "tx_errors", tx_errors)
    ∷ (codes "collisions", collisions)
    ∷ []

pub record MetricEntry : Type 0 where
  pub path : Bytes
  pub fd : Option ℕ
  pub field : Option Field

pub record NetworkCollector : Type 0 where
  pub interface : Bytes
  pub net_stats_base : Bytes
  pub metric_entries : List MetricEntry

abbrev empty_entry : MetricEntry
empty_entry = record { path = []; fd = none; field = none }

unfoldable pub new_collector : Bytes → NetworkCollector
new_collector base = record {
  interface = [];
  net_stats_base = base;
  metric_entries = map (λ d. empty_entry) network_metrics;
}

abbrev pub zero_stats : NetworkStats
zero_stats = record {
  rx_packets = 0;
  tx_packets = 0;
  rx_dropped = 0;
  tx_dropped = 0;
  rx_errors = 0;
  tx_errors = 0;
  collisions = 0;
}

-- A store through a null member pointer would be undefined; no entry that `set_interface` opened has
-- one.
unfoldable pub store : Option Field → ℕ → NetworkStats → NetworkStats
store none n s = s
store (some rx_packets) n s = record s { rx_packets = n }
store (some tx_packets) n s = record s { tx_packets = n }
store (some rx_dropped) n s = record s { rx_dropped = n }
store (some tx_dropped) n s = record s { tx_dropped = n }
store (some rx_errors) n s = record s { rx_errors = n }
store (some tx_errors) n s = record s { tx_errors = n }
store (some collisions) n s = record s { collisions = n }

-- `sizeof(buf) - 1`
abbrev pub network_buffer : ℕ
network_buffer = 31

module _ (os : Os) where
  open os use {World, open_file, close_file, pread}

  unfoldable pub close_entries : World → List MetricEntry → List MetricEntry × World
  close_entries w [] = ([], w)
  close_entries w (e ∷ es) =
      let (es', w') = close_entries (close_fd os w e.fd) es in (record e { fd = none } ∷ es', w')

  -- Also what the destructor does.
  unfoldable pub close_fds : World → NetworkCollector → NetworkCollector × World
  unfolding close_entries
  close_fds w c =
      let (es, w') = close_entries w c.metric_entries in (record c { metric_entries = es }, w')

  -- The loop over `kNetworkMetrics`, which overwrites every entry.
  unfoldable pub open_entries : World → Bytes → List (Bytes × Field) → List MetricEntry × World
  open_entries w stats_path [] = ([], w)
  open_entries w stats_path ((name, field) ∷ ds) =
      let path = stats_path ++ (codes "/" ++ name) in
      let (fd, w') = open_file w path in
      let (es, w'') = open_entries w' stats_path ds in
      (record { path = path; fd = fd; field = some field } ∷ es, w'')

  unfoldable pub set_interface : World → NetworkCollector → Bytes → NetworkCollector × World
  unfolding close_entries open_entries
  set_interface w c interface =
      let (closed, w') = close_entries w c.metric_entries in
      let stats_path = c.net_stats_base ++ (codes "/" ++ (interface ++ codes "/statistics")) in
      let (es, w'') = open_entries w' stats_path network_metrics in
      (record c { interface = interface; metric_entries = es }, w'')

  some_bytes : Bytes → Option Bytes
  some_bytes s = if is_empty s then none else some s

  -- The number in the file of one entry; `none` for each of the three early returns.
  unfoldable pub read_counter : World → MetricEntry → Option ℕ
  unfolding some_bytes
  read_counter w e = do
    fd ← e.fd
    delivered ← pread w fd network_buffer
    buf ← some_bytes delivered
    (n, rest) ← from_chars_u64 buf
    some n

  unfoldable pub collect_entries : World → List MetricEntry → NetworkStats → Option NetworkStats
  collect_entries w [] s = some s
  collect_entries w (e ∷ es) s = do n ← read_counter w e; collect_entries w es (store e.field n s)

  unfoldable pub collect : World → NetworkCollector → Option NetworkStats
  unfolding collect_entries
  collect w c = if is_empty c.interface then none else collect_entries w c.metric_entries zero_stats
