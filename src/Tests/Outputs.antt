-- ===== src/Tests/Outputs.antt =====
-- Runs of the conversion and the adapter.
use time_agent.Base.{
  ℕ, ◌+◌, ◌*◌, ◌<◌, true, false, [], ◌≡◌, ◌⊎◌, Option, none, some, Bytes, codes, arith,
}
use time_agent.Base.Int.{pos}
use time_agent.Metrics.{SystemStats}
use time_agent.Adapter.{sys, convert, ZmqAdapter, accepted, send}
use time_agent.Adapter.Delivery.{
  convert_faithful, send_outcome, Carries, type_of, time_of, Sends, Fails,
}
use time_agent.Convert.{MetricsWrapper, stamp}
use time_agent.Convert.Timestamp.{stamp_lem}

abbrev statistics : SystemStats Unit
statistics = record {
  timestamp_us = 2000001;
  temperature_stats = none;
  network_stats = none;
  cpu_stats = none;
  memory_stats = some (record {
    mem_available_kb = 5;
    mem_free_kb = 4;
    swap_total_kb = 3;
    swap_free_kb = 2;
    buffers_kb = 1;
  });
}

convert_faithful_example :
    ((convert (sys statistics) (codes "n1")).message_type
      ≡ type_of (convert (sys statistics) (codes "n1")).payload)
    × ((convert (sys statistics) (codes "n1")).node_name ≡ codes "n1")
    × ((convert (sys statistics) (codes "n1")).timestamp ≡ stamp (time_of (sys statistics)))
    × Carries (sys statistics) (convert (sys statistics) (codes "n1")).payload
convert_faithful_example = convert_faithful (sys statistics) (codes "n1")

abbrev serialize : MetricsWrapper Unit → Option Bytes
serialize m = some m.node_name

abbrev adapter : ZmqAdapter
adapter = record { has_sender = true; wire = [] }

send_outcome_example :
    (((send serialize adapter accepted (sys statistics) (codes "n1")).0 ≡ true)
      × Sends serialize adapter accepted
          (convert (sys statistics) (codes "n1"))
          (send serialize adapter accepted (sys statistics) (codes "n1")).1)
    ⊎ (((send serialize adapter accepted (sys statistics) (codes "n1")).0 ≡ false)
        × Fails serialize adapter accepted
            (convert (sys statistics) (codes "n1"))
            (send serialize adapter accepted (sys statistics) (codes "n1")).1)
send_outcome_example = send_outcome serialize adapter accepted (sys statistics) (codes "n1")

stamp_lem_example :
    (s : ℕ) × (n : ℕ) × ((stamp 1500000).seconds ≡ pos s)
    × ((stamp 1500000).nanos ≡ pos (n * 1000))
    × (s * 1000000 + n ≡ 1500000)
    × (n * 1000 < 1000000000)
stamp_lem_example = stamp_lem 1500000 (omega arith)
