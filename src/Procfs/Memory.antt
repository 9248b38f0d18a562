-- ===== src/Procfs/Memory.antt =====
-- `MemoryCollector`, src/system_metrics.cpp lines 335 to 380.
pub mod Fields
use time_agent.Base.{ℕ, Option, none, some, Bytes, codes, ◌>>=◌}
use time_agent.Os.{Os, close_fd}
use time_agent.Metrics.{MemoryStats}
use time_agent.Procfs.{Source, find_line_prefix, parse_next, read_source}

pub record MemoryCollector : Type 0 where
  pub fd : Option ℕ

module _ (os : Os) where
  unfoldable pub construct : os.World → Bytes → MemoryCollector × os.World
  construct w proc_meminfo = let (fd, w') = os.open_file w proc_meminfo in (record { fd = fd }, w')

  -- The destructor.
  unfoldable pub destroy : os.World → MemoryCollector → os.World
  destroy w c = close_fd os w c.fd

-- `sizeof(buf_) - 1`
abbrev pub memory_buffer : ℕ
memory_buffer = 4095

-- A field keeps its initial 0 unless a number is read for it.
abbrev stored : Option (ℕ × Bytes) → ℕ
stored none = 0
stored (some (n, rest)) = n

unfoldable pub read_field : Bytes → Bytes → ℕ
read_field buf key = stored (do p ← find_line_prefix buf key; parse_next p)

unfoldable pub memory_stats : Bytes → MemoryStats
unfolding read_field
memory_stats buf = record {
  mem_available_kb = read_field buf (codes "MemAvailable:");
  mem_free_kb = read_field buf (codes "MemFree:");
  swap_total_kb = read_field buf (codes "SwapTotal:");
  swap_free_kb = read_field buf (codes "SwapFree:");
  buffers_kb = read_field buf (codes "Buffers:");
}

unfoldable pub collect : Source → Option MemoryStats
unfolding memory_stats
collect source = do buf ← read_source memory_buffer source; some (memory_stats buf)
