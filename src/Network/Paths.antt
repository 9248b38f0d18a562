-- ===== src/Network/Paths.antt =====
-- Which file `NetworkCollector::collect` reads for each member, after `setInterface`.
use time_agent.Base.{ℕ, List, [], ◌∷◌, ◌++◌, ◌≡◌, none, some, Bytes, codes}
use time_agent.Os.{Os}
use time_agent.Network.{
  Field, rx_packets, tx_packets, rx_dropped, tx_dropped, rx_errors, tx_errors, collisions,
  MetricEntry, read_counter,
}

-- The name of the file of a member.
abbrev pub file_of : Field → Bytes
file_of rx_packets = codes "rx_packets"
file_of tx_packets = codes "tx_packets"
file_of rx_dropped = codes "rx_dropped"
file_of tx_dropped = codes "tx_dropped"
file_of rx_errors = codes "rx_errors"
file_of tx_errors = codes "tx_errors"
file_of collisions = codes "collisions"

-- Where the kernel keeps the counters of an interface.
abbrev pub counter_path : Bytes → Bytes → Field → Bytes
counter_path base interface f =
    (base ++ (codes "/" ++ (interface ++ codes "/statistics"))) ++ (codes "/" ++ file_of f)

-- The table names a file for the member.
data IsNamed (f : Field) (name : Bytes) : List (Bytes × Field) → Type 0 where
  first : {ds : List (Bytes × Field)} → IsNamed f name ((name, f) ∷ ds)
  later :
      {d : Bytes × Field} {ds : List (Bytes × Field)} → IsNamed f name ds → IsNamed f name (d ∷ ds)

module _ (os : Os) where
  open os use {World}

  -- The number in the file with this path, read through a descriptor that was opened from it.
  pub record IsRead (now : World) (path : Bytes) (n : ℕ) : Type 0 where
    pub opened_in : World
    pub fd : ℕ
    pub opened : (os.open_file opened_in path).0 ≡ some fd
    pub counted : read_counter os now (record { path = path; fd = some fd; field = none }) ≡ some n

  -- Each entry was opened from the file that the table names in this directory.
  data AllOpened (dir : Bytes) : List MetricEntry → List (Bytes × Field) → Type 0 where
    none_opened : AllOpened dir [] []
    opened :
        {e : MetricEntry} {es : List MetricEntry} {d : Bytes × Field} {ds : List (Bytes × Field)}
        (w : World)
        → e.fd ≡ (os.open_file w (dir ++ (codes "/" ++ d.0))).0
        → AllOpened dir es ds
        → AllOpened dir (e ∷ es) (d ∷ ds)
