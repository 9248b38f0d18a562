-- ===== src/Collector/Phc2Sys/Printed.antt =====
-- The lines of phc2sys as it prints them, with the numbers padded to a width, for
-- `Phc2SysParser::parseMetrics` of src/collector.cpp, lines 26 to 41.
pub mod Reads
use time_agent.Base.{
  ℕ, true, List, [], ◌∷◌, ◌++◌, ◌≡◌, ◌≢◌, refl, ap, ◌∙◌, some, Bytes, codes, arith, AllPass, ◌==◌,
  length,
}
use time_agent.Base.Int.{pos, fits_32}
use time_agent.Text.{is_space, not_space, skip_while}
use time_agent.Text.Split.{StopsAt}
use time_agent.Number.{is_digit, show}
use time_agent.Number.Digits.{plain, sign_text}
use time_agent.Number.Decimal.{show-IsNumeral}
use time_agent.Scanf.{
  Directive, item, skip, word, d64, d32, int, lit, real, lf, sscanf, scan, literal, literal_byte,
  assign,
}
use time_agent.Scanf.Steps.{
  has_no_nul, has_no_nul-append, padded-has_no_nul, scan_item-d32, unsigned_text-IsTextOf,
}
use time_agent.Scanf.Tokens.{timed, sscanf-timed, IsWholeWord, skip_space-word, scan_item-word}
use time_agent.Scanf.Padded.{
  Padded, Fits, print_unsigned, print_explicit, scan-unsigned, scan-explicit, unsigned-has_no_nul,
  explicit-has_no_nul,
}
use time_agent.Collector.Figures.{
  Figures, AreFitting, figures_part, figures_format, figures_rest, scan-figures,
  figures_part-has_no_nul,
}
use time_agent.Metrics.{Phc2SysStats}
use time_agent.Collector.Phc2Sys.{parse_metrics, zero_stats}

-- A line with one offset: the clock, the source, the offset, the state of the servo, the frequency
-- and the path delay.
pub record Measured : Type 0 where
  pub source : Bytes
  pub offset : Padded
  pub state : ℕ
  pub freq : Padded
  pub delay : Padded

-- The two lines with figures.
pub data Content : Type 0 where
  measured : Measured → Content
  summary : Figures → Content

pub record Printed : Type 0 where
  pub seconds : ℕ
  pub fraction : Bytes
  pub clock : Bytes
  pub content : Content

abbrev pub delay_part : Measured → Bytes
delay_part m = codes " delay " ++ print_unsigned m.delay []

abbrev pub freq_part : Measured → Bytes
freq_part m = codes " freq " ++ print_explicit m.freq (delay_part m)

abbrev pub state_part : Measured → Bytes
state_part m = codes " s" ++ (sign_text (plain (show m.state)) ++ freq_part m)

abbrev pub offset_part : Measured → Bytes
offset_part m = codes " offset " ++ print_unsigned m.offset (state_part m)

abbrev pub content_part : Content → Bytes
content_part (measured m) = codes " " ++ (m.source ++ offset_part m)
content_part (summary f) = figures_part f

abbrev pub clock_part : Bytes → Content → Bytes
clock_part clock c = codes " " ++ (clock ++ content_part c)

abbrev pub print_line : Printed → Bytes
print_line p = timed p.seconds p.fraction (clock_part p.clock p.content)

-- The numbers fit their types. The source is not taken for the start of a summary.
pub record IsMeasured (m : Measured) : Type 0 where
  pub source_word : IsWholeWord m.source
  pub source_begins : StopsAt (λ c. c == b'r') m.source
  pub offset_fits : Fits m.offset
  pub state_fits : fits_32 (pos m.state) ≡ true
  pub freq_fits : Fits m.freq
  pub delay_fits : Fits m.delay

abbrev pub IsContent : Content → Type 0
IsContent (measured m) = IsMeasured m
IsContent (summary f) = AreFitting f

pub record IsPrintable (p : Printed) : Type 0 where
  pub fraction_digits : AllPass is_digit p.fraction
  pub clock_word : IsWholeWord p.clock
  pub fitting : IsContent p.content

-- What `parseMetrics` makes of it.
abbrev pub told : Content → Phc2SysStats
told (measured m) = record zero_stats {
  offset = m.offset.value;
  state = pos m.state;
  freq = m.freq.value;
  path_delay = m.delay.value;
}
told (summary f) = record zero_stats {
  offset = f.max.value;
  freq = f.freq.value;
  path_delay = f.delay.value;
}
