-- ===== src/Procfs.antt =====
-- `findLinePrefix` and `parseNext` of src/system_metrics.cpp, lines 30 to 59, and what a collector
-- reads of its file. The collectors of /proc/stat and /proc/meminfo are the modules below.
pub mod Prefix
pub mod Cpu
pub mod Memory
use time_agent.Base.{
  ℕ, zero, suc, [], ◌∷◌, Option, none, some, Bytes, ◌==◌, if◌then◌else◌, take, drop, length,
  is_empty,
}
use time_agent.Text.{skip_while, starts_with}
use time_agent.Number.{from_chars_u64}
use time_agent.Os.{Os}

-- What `memchr` finds: the text behind the first newline.
unfoldable pub after_newline : Bytes → Option Bytes
after_newline [] = none
after_newline (c ∷ s) = if c == b'\n' then some s else after_newline s

-- The loop over the lines. Each round drops at least one byte, so the length is enough fuel.
unfoldable pub find_fuel : ℕ → Bytes → Bytes → Option Bytes
find_fuel zero needle s = none
find_fuel (suc f) needle [] = none
find_fuel (suc f) needle (c ∷ s) =
    if starts_with needle (c ∷ s)
    then some (drop (length needle) (c ∷ s))
    else elim (after_newline (c ∷ s)) [ none ↦ none | some rest ↦ find_fuel f needle rest ]

-- The text behind the needle, for a pointer into the buffer; `none` for `nullptr`.
unfoldable pub find_line_prefix : Bytes → Bytes → Option Bytes
unfolding find_fuel
find_line_prefix buf needle = find_fuel (length buf) needle buf

-- The number and what stands behind it; on failure no caller looks at the pointer again.
unfoldable pub parse_next : Bytes → Option (ℕ × Bytes)
parse_next p = from_chars_u64 (skip_while (λ c. c == b' ') p)

-- A file of a collector at one call: its descriptor is -1, or `pread` fails, or it could deliver
-- these bytes.
pub data Source : Type 0 where
  closed failing : Source
  holds : Bytes → Source

abbrev some_bytes : Bytes → Option Bytes
some_bytes s = if is_empty s then none else some s

-- The bytes in the buffer, `none` where the collector gives up: no descriptor, or `n <= 0`.
unfoldable pub read_source : ℕ → Source → Option Bytes
read_source size closed = none
read_source size failing = none
read_source size (holds s) = some_bytes (take size s)

-- What a collector finds through its descriptor at one call.
abbrev delivered : Option Bytes → Source
delivered none = failing
delivered (some s) = holds s

module _ (os : Os) where
  unfoldable pub source_of : os.World → ℕ → Option ℕ → Source
  source_of w size none = closed
  source_of w size (some fd) = delivered (os.pread w fd size)
