-- ===== src/Collector/Ptp4l/Line/Summary.antt =====
-- A summary over several offsets, src/collector.cpp lines 11 to 18.
use time_agent.Base.{ℕ, ◌≡◌, refl, some, Bytes, AllPass}
use time_agent.Number.{is_digit}
use time_agent.Scanf.{literal, literal_byte, assign, scan}
use time_agent.Scanf.Tokens.{timed, sscanf-timed}
use time_agent.Collector.Figures.{
  Figures, AreFitting, figures_part, scan-figures, figures_part-has_no_nul,
}
use time_agent.Collector.Ptp4l.{parse_metrics, zero_stats}
use time_agent.Collector.Ptp4l.Line

-- What ptp4l prints: the time and the figures.
pub record SummaryLine : Type 0 where
  pub seconds : ℕ
  pub fraction : Bytes
  pub figures : Figures

abbrev pub print_line : SummaryLine → Bytes
print_line p = timed p.seconds p.fraction (figures_part p.figures)

pub record IsPrintable (p : SummaryLine) : Type 0 where
  pub fraction_digits : AllPass is_digit p.fraction
  pub fitting : AreFitting p.figures

module _ (p : SummaryLine) (h : IsPrintable p) where
  -- The maximum goes into the field of the offset.
  pub parse_metrics-print_summary :
      parse_metrics (print_line p)
      ≡ some (record zero_stats {
        offset = p.figures.max.value;
        freq = p.figures.freq.value;
        path_delay = p.figures.delay.value;
      })
  unfolding parse_metrics scan literal literal_byte assign
  parse_metrics-print_summary =
      rw
        (
          sscanf-timed p.seconds p.fraction (figures_part p.figures) h.fraction_digits Line.rms_tail
              (figures_part-has_no_nul p.figures),
          scan-figures p.figures h.fitting,
        )
        refl
