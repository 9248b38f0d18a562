-- ===== src/Agent/Setup.antt =====
-- The constructor of `Agent` and the start of its readers by `run`, src/agent.cpp lines 16 to 25
-- and 163 to 170.
use time_agent.Base.{ℕ, zero, suc, Bool, List, [], ◌∷◌, Option, none, some, Bytes}
use time_agent.Base.Int.{ℤ}
use time_agent.Config.{AgentConfig, PtpTopologyConfig}
use time_agent.Collector.{CollectorEvent}
use time_agent.Os.{Os}
use time_agent.Temperature.{HwmonEntry}
use time_agent.SysMetrics
use time_agent.SysMetrics.{SysMetricsCollector, default_paths}
use time_agent.Agent.{Context, Effect, handler}

-- The members that the constructor sets, over the collectors `C`. The table of handlers is
-- `handler`; the adapter is the caller's.
pub record AgentParts (C : Type 0) : Type 0 where
  pub node : Bytes
  pub collectors : List (Bytes × C)
  pub sys_metrics_collector : SysMetricsCollector
  pub ptp_topology_collector : PtpTopologyConfig
  pub poll_timeout_ms : Option ℤ

module _ (os : Os) {C : Type 0} where
  open os use {World}

  abbrev with_sys_metrics :
      List (Bytes × C)
      → AgentConfig
      → Option (SysMetricsCollector × World)
      → Option (AgentParts C × World)
  with_sys_metrics collectors config none = none
  with_sys_metrics collectors config (some (s, w)) = some (
    record {
      node = config.global_config.node;
      collectors = collectors;
      sys_metrics_collector = s;
      ptp_topology_collector = config.config_ptp_topology;
      poll_timeout_ms = config.monitor_config.poll_timeout_ms;
    },
    w,
  )

  -- `none` where the collector of system metrics throws.
  unfoldable pub construct :
      (Bytes → Bool)
      → (Bytes → Option (List HwmonEntry))
      → World
      → List (Bytes × C)
      → AgentConfig
      → Option (AgentParts C × World)
  construct exists hwmon w collectors config =
      with_sys_metrics collectors config
        (SysMetrics.construct os exists hwmon w config default_paths)

abbrev pub Handler : Type 0 → Type 0
Handler Double = Context → CollectorEvent → List (Effect Double)

module _ {C Double : Type 0} where
  abbrev add_reader :
      C → Option (Handler Double) → List (C × Handler Double) → List (C × Handler Double)
  add_reader c none rs = rs
  add_reader c (some h) rs = (c, h) ∷ rs

  -- The loop of `run` over the collectors: a collector with no handler is passed over. The order is
  -- that of the map's iteration.
  unfoldable pub start_readers : List (Bytes × C) → List (C × Handler Double)
  start_readers [] = []
  start_readers ((name, c) ∷ m) = add_reader c (handler name) (start_readers m)

  -- The handler of the thread of this number.
  unfoldable pub handle_of : List (C × Handler Double) → ℕ → Handler Double
  handle_of [] i = λ x e. []
  handle_of (r ∷ rs) zero = r.1
  handle_of (r ∷ rs) (suc i) = handle_of rs i
