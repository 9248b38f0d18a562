-- ===== src/Collector/Pps/Printed.antt =====
-- The line of ppswatch as it prints it, and what `PPSParser::parseMetrics` of src/collector.cpp,
-- lines 99 to 108, makes of it.
use time_agent.Base.{ℕ, true, List, [], ◌∷◌, ◌++◌, ◌≡◌, refl, ap, ◌∙◌, some, Bytes, codes}
use time_agent.Text.{is_space, skip_while}
use time_agent.Number.{is_digit}
use time_agent.Scanf.{Directive, item, d64, int, scan, sscanf, literal, literal_byte, assign}
use time_agent.Scanf.Steps.{has_no_nul, c_str_id}
use time_agent.Scanf.Padded.{Padded, Fits, print_unsigned, scan-unsigned, unsigned-has_no_nul}
use time_agent.Collector.Pps.{parse_metrics, pps_format, fresh}

pub record Printed : Type 0 where
  pub timestamp : Padded
  pub sequence : Padded
  pub offset : Padded

abbrev offset_part : Printed → Bytes
offset_part p = codes ", offset: " ++ print_unsigned p.offset []

abbrev sequence_part : Printed → Bytes
sequence_part p = codes ", sequence: " ++ print_unsigned p.sequence (offset_part p)

abbrev pub print_line : Printed → Bytes
print_line p = codes "timestamp: " ++ print_unsigned p.timestamp (sequence_part p)

pub record IsPrintable (p : Printed) : Type 0 where
  pub timestamp_fits : Fits p.timestamp
  pub sequence_fits : Fits p.sequence
  pub offset_fits : Fits p.offset

abbrev offset_format : List Directive
offset_format = literal ", offset: " ++ item d64 ∷ []

abbrev sequence_format : List Directive
sequence_format = literal ", sequence: " ++ item d64 ∷ offset_format

module _ (p : Printed) (h : IsPrintable p) where
  scan-sequence :
      scan sequence_format (sequence_part p) ≡ int p.sequence.value ∷ int p.offset.value ∷ []
  unfolding scan literal literal_byte skip_while is_space is_digit
  scan-sequence =
      scan-unsigned offset_format p.sequence (offset_part p) h.sequence_fits refl
      ∙ ap (◌∷◌ (int p.sequence.value)) (scan-unsigned [] p.offset [] h.offset_fits tt)

  scan-line :
      scan pps_format (print_line p)
      ≡ int p.timestamp.value ∷ int p.sequence.value ∷ int p.offset.value ∷ []
  unfolding scan literal literal_byte skip_while is_space is_digit
  scan-line =
      scan-unsigned sequence_format p.timestamp (sequence_part p) h.timestamp_fits refl
      ∙ ap (◌∷◌ (int p.timestamp.value)) scan-sequence

  line-has_no_nul : has_no_nul (print_line p) ≡ true
  line-has_no_nul =
      unsigned-has_no_nul p.timestamp _
        (unsigned-has_no_nul p.sequence _ (unsigned-has_no_nul p.offset [] refl))

  pub parse_metrics-print_pps :
      (unset : ℕ)
      → parse_metrics unset (print_line p) ≡ some (record (fresh unset) { offset = p.offset.value })
  unfolding parse_metrics sscanf assign
  parse_metrics-print_pps unset = rw (c_str_id (print_line p) line-has_no_nul, scan-line) refl
