-- ===== src/Topology/Pmc.antt =====
-- `PtpTopologyCollector`, src/ptp_topology.cpp lines 174 to 237. What a run of `pmc` does with its
-- arguments is a parameter.
pub mod Answers
use time_agent.Base.{
  ℕ, Bool, List, [], ◌∷◌, ◌++◌, Option, none, some, Bytes, String, codes, ◌==◌, if◌then◌else◌,
  is_empty, ◌>>=◌,
}
use time_agent.Base.Int.{ℤ, pos}
use time_agent.Number.{to_string}
use time_agent.Floating.{Floating}
use time_agent.Config.{PtpTopologyConfig}
use time_agent.Topology.{PtpTopologySnapshot}
use time_agent.Topology.Parser.{parse}

unfoldable pub enabled : PtpTopologyConfig → Bool
enabled config = config.on

abbrev optional_arg : String → Bytes → List Bytes
optional_arg flag value = if is_empty value then [] else codes flag ∷ value ∷ []

unfoldable pub build_args : PtpTopologyConfig → Bytes → List Bytes
build_args config command =
    (codes "-u"
      ∷ codes "-b"
      ∷ to_string config.boundary_hops
      ∷ codes "-d"
      ∷ to_string config.domain_number
      ∷ [])
    ++ (optional_arg "-f" config.config_path ++ (optional_arg "-s" config.uds_path ++ command ∷ []))

-- A run of a process: it throws, or writes lines and exits with a code.
pub data ProcessRun : Type 0 where
  throws : ProcessRun
  exits : List Bytes → ℤ → ProcessRun

abbrev pub join_lines : List Bytes → Bytes
join_lines [] = []
join_lines (l ∷ ls) = l ++ b'\n' ∷ join_lines ls

output_of : ProcessRun → Option Bytes
output_of throws = none
output_of (exits out (pos n)) = if n == 0 then some (join_lines out) else none
output_of (exits out code) = none

abbrev pub value_or {ℓ} : {A : Type ℓ} → A → Option A → A
value_or d none = d
value_or d (some a) = a

-- `pmc path args` is what the child process does.
module _ (pmc : Bytes → List Bytes → ProcessRun) (config : PtpTopologyConfig) where
  unfoldable pub run_command : Bytes → Option Bytes
  unfolding output_of
  run_command command = output_of (pmc config.pmc_path (build_args config command))

  unfoldable pub collect : Floating → ℕ → Option PtpTopologySnapshot
  collect fl now = do
    default_data_set ← run_command (codes "GET DEFAULT_DATA_SET")
    parent_data_set ← run_command (codes "GET PARENT_DATA_SET")
    let current_data_set = run_command (codes "GET CURRENT_DATA_SET")
    let port_data_set = run_command (codes "GET PORT_DATA_SET")
    parse fl now default_data_set parent_data_set (value_or [] current_data_set)
        (value_or [] port_data_set)
