-- ===== src/Procfs/Memory/Fields.antt =====
-- What `MemoryCollector::collect` reads from its file.
use time_agent.Base.{ℕ, [], ◌∷◌, ◌++◌, ◌≡◌, Option, none, some, Bytes, codes, take}
use time_agent.Metrics.{MemoryStats}
use time_agent.Procfs.{Source, closed, failing, holds, parse_next}
use time_agent.Procfs.Memory.{memory_buffer}
use time_agent.Procfs.Prefix.{LineStart}

-- The value of a field: the number behind its key at the start of a line; 0 where there is no number
-- behind the key, and where no line starts with it.
pub data IsField (buf key : Bytes) (n : ℕ) : Type 0 where
  read :
      (behind_key rest : Bytes)
      → LineStart buf (key ++ behind_key)
      → parse_next behind_key ≡ some (n, rest)
      → IsField buf key n
  no_number :
      (behind_key : Bytes)
      → LineStart buf (key ++ behind_key)
      → parse_next behind_key ≡ none
      → n ≡ 0
      → IsField buf key n
  missing : ((rest : Bytes) → LineStart buf (key ++ rest) → ⊥) → n ≡ 0 → IsField buf key n

pub record AreFields (buf : Bytes) (m : MemoryStats) : Type 0 where
  pub available : IsField buf (codes "MemAvailable:") m.mem_available_kb
  pub free : IsField buf (codes "MemFree:") m.mem_free_kb
  pub swap_total : IsField buf (codes "SwapTotal:") m.swap_total_kb
  pub swap_free : IsField buf (codes "SwapFree:") m.swap_free_kb
  pub buffers : IsField buf (codes "Buffers:") m.buffers_kb

-- The result for what a file holds at one call.
pub data IsResult : Source → Option MemoryStats → Type 0 where
  no_file : IsResult closed none
  no_read : IsResult failing none
  empty_file : IsResult (holds []) none
  fields :
      {c : ℕ} {s : Bytes} {m : MemoryStats}
      → AreFields (take memory_buffer (c ∷ s)) m
      → IsResult (holds (c ∷ s)) (some m)
