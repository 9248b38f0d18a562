-- ===== src/Collector/Phc2Sys/Metrics.antt =====
-- What `Phc2SysParser::parseMetrics` returns.
use time_agent.Base.{List, [], ◌∷◌, ◌≡◌, refl, Option, Bytes}
use time_agent.Base.Int.{ℤ}
use time_agent.Scanf.{lf, d64, d32, literal_byte, Value, real, int, sscanf, c_str, assign, literal}
use time_agent.Collector.Lines.{assign-preserves, Tells, two_calls-Tells}
use time_agent.Scanf.Kinds.{Fits, items, scan-Fits}
use time_agent.Metrics.{Phc2SysStats}
use time_agent.Collector.Phc2Sys.{
  parse_metrics, rms_format, offset_format, rms_stores, offset_stores, zero_stats, set_offset,
  set_freq, set_path_delay,
}

abbrev pub of_summary : ℤ → ℤ → ℤ → Phc2SysStats
of_summary max freq delay = record zero_stats { offset = max; freq = freq; path_delay = delay }

abbrev pub of_line : ℤ → ℤ → ℤ → ℤ → Phc2SysStats
of_line offset state freq delay = record zero_stats {
  offset = offset;
  state = state;
  freq = freq;
  path_delay = delay;
}

-- The result is what the line tells: the values of a summary, with the largest offset and no state;
-- of a full line; or nothing, where the line is neither.
abbrev pub Reports : Bytes → Option Phc2SysStats → Type 0
Reports msg r = Tells of_summary of_line (sscanf msg rms_format) (sscanf msg offset_format) r

rms_items : items rms_format ≡ lf ∷ d64 ∷ d64 ∷ d64 ∷ []
unfolding literal literal_byte
rms_items = refl

offset_items : items offset_format ≡ lf ∷ d64 ∷ d32 ∷ d64 ∷ d64 ∷ []
unfolding literal literal_byte
offset_items = refl

-- The unit and the time are not stored yet.
abbrev IsFresh : Phc2SysStats → Type 0
IsFresh s = (s.unit ≡ []) × (s.timestamp_us ≡ 0)

set_offset-IsFresh : (v : Value) (s : Phc2SysStats) → IsFresh s → IsFresh (set_offset v s)
set_offset-IsFresh (int z) s h = h
set_offset-IsFresh _ s h = h

set_freq-IsFresh : (v : Value) (s : Phc2SysStats) → IsFresh s → IsFresh (set_freq v s)
set_freq-IsFresh (int z) s h = h
set_freq-IsFresh _ s h = h

set_path_delay-IsFresh : (v : Value) (s : Phc2SysStats) → IsFresh s → IsFresh (set_path_delay v s)
set_path_delay-IsFresh (int z) s h = h
set_path_delay-IsFresh _ s h = h

rms_stores-IsFresh : (vs : List Value) → IsFresh (assign rms_stores vs zero_stats)
rms_stores-IsFresh vs =
    assign-preserves IsFresh rms_stores vs zero_stats
      (λ v s h. h, (set_offset-IsFresh, (set_freq-IsFresh, (set_path_delay-IsFresh, tt))))
      (refl, refl)

rms_stored :
    (o f d : ℤ)
    → assign rms_stores (real ∷ int o ∷ int f ∷ int d ∷ []) zero_stats ≡ of_summary o f d
unfolding assign
rms_stored o f d = refl

-- The stores of a full line leave nothing of what was stored before but the unit and the time.
full_stores :
    (o s f d : ℤ) (t : Phc2SysStats)
    → IsFresh t
    → assign offset_stores (real ∷ int o ∷ int s ∷ int f ∷ int d ∷ []) t ≡ of_line o s f d
unfolding assign
full_stores o s f d t k = λ i. record {
  unit = k.0 i;
  timestamp_us = k.1 i;
  offset = o;
  state = s;
  freq = f;
  path_delay = d;
}

rms-Fits : (msg : Bytes) → Fits (lf ∷ d64 ∷ d64 ∷ d64 ∷ []) (sscanf msg rms_format)
unfolding sscanf
rms-Fits msg = rw rms_items at (scan-Fits rms_format (c_str msg))

full-Fits : (msg : Bytes) → Fits (lf ∷ d64 ∷ d32 ∷ d64 ∷ d64 ∷ []) (sscanf msg offset_format)
unfolding sscanf
full-Fits msg = rw offset_items at (scan-Fits offset_format (c_str msg))

-- `parseMetrics` returns for every line what the line reports, and no value that the first `sscanf` has
-- stored before it failed is seen in the result of the second.
pub parse_metrics-Reports : (msg : Bytes) → Reports msg (parse_metrics msg)
unfolding parse_metrics
parse_metrics-Reports msg =
    let rms = sscanf msg rms_format in
    two_calls-Tells of_summary of_line rms_stores offset_stores zero_stats rms
      (sscanf msg offset_format) (rms-Fits msg) (full-Fits msg) rms_stored
      (λ o s f d. full_stores o s f d _ (rms_stores-IsFresh rms))
