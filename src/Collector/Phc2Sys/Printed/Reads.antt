-- ===== src/Collector/Phc2Sys/Printed/Reads.antt =====
-- How `Phc2SysParser::parseMetrics` of src/collector.cpp reads the lines that phc2sys prints.
use time_agent.Base.{
  ℕ, true, List, [], ◌∷◌, ◌++◌, ◌≡◌, ◌≢◌, refl, ap, ◌∙◌, some, Bytes, arith, AllPass, ◌==◌, length,
}
use time_agent.Base.Int.{pos}
use time_agent.Text.{is_space, not_space, skip_while}
use time_agent.Text.Split.{StopsAt}
use time_agent.Number.{is_digit, show}
use time_agent.Number.Digits.{plain}
use time_agent.Number.Decimal.{show-IsNumeral}
use time_agent.Scanf.{
  Directive, item, skip, word, d64, d32, int, lit, real, lf, sscanf, scan, literal, literal_byte,
  assign,
}
use time_agent.Scanf.Steps.{
  has_no_nul, has_no_nul-append, padded-has_no_nul, scan_item-d32, unsigned_text-IsTextOf,
}
use time_agent.Scanf.Tokens.{timed, sscanf-timed, IsWholeWord, skip_space-word, scan_item-word}
use time_agent.Scanf.Padded.{scan-unsigned, scan-explicit, unsigned-has_no_nul, explicit-has_no_nul}
use time_agent.Collector.Figures.{
  figures_format, figures_rest, scan-figures, figures_part-has_no_nul,
}
use time_agent.Collector.Phc2Sys.{parse_metrics}
use time_agent.Collector.Phc2Sys.Printed.{
  Measured, Content, measured, summary, Printed, delay_part, freq_part, state_part, offset_part,
  content_part, clock_part, print_line, IsMeasured, IsContent, IsPrintable, told,
}

abbrev delay_format : List Directive
delay_format = literal " delay " ++ item d64 ∷ []

abbrev freq_format : List Directive
freq_format = literal " freq " ++ item d64 ∷ delay_format

abbrev state_format : List Directive
state_format = literal " s" ++ item d32 ∷ freq_format

abbrev measured_format : List Directive
measured_format = literal " offset " ++ item d64 ∷ state_format

-- A format that goes on with another byte takes nothing.
scan-other :
    (c : ℕ) (ds : List Directive) (s rest : Bytes)
    → s ≢ []
    → StopsAt (λ d. d == c) s
    → scan (lit c ∷ ds) (s ++ rest) ≡ []
unfolding scan
scan-other c ds [] rest n h = absurd (n refl)
scan-other c ds (d ∷ s) rest n h = rw h refl

module _ (m : Measured) (h : IsMeasured m) where
  scan-freq : scan freq_format (freq_part m) ≡ int m.freq.value ∷ int m.delay.value ∷ []
  unfolding scan literal literal_byte skip_while is_space is_digit
  scan-freq =
      scan-explicit delay_format m.freq (delay_part m) h.freq_fits refl
      ∙ ap (◌∷◌ (int m.freq.value)) (scan-unsigned [] m.delay [] h.delay_fits tt)

  scan-state :
      scan state_format (state_part m)
      ≡ int (pos m.state) ∷ int m.freq.value ∷ int m.delay.value ∷ []
  unfolding scan literal literal_byte skip_while is_space is_digit
  scan-state =
      rw
        (scan_item-d32 (plain (show m.state)) (freq_part m) (unsigned_text-IsTextOf (pos m.state))
          h.state_fits (ground (arith, h.state_fits)) refl)
        (ap (◌∷◌ (int (pos m.state))) scan-freq)

  scan-offset :
      scan measured_format (offset_part m)
      ≡ int m.offset.value ∷ int (pos m.state) ∷ int m.freq.value ∷ int m.delay.value ∷ []
  unfolding scan literal literal_byte skip_while is_space is_digit
  scan-offset =
      scan-unsigned state_format m.offset (state_part m) h.offset_fits refl
      ∙ ap (◌∷◌ (int m.offset.value)) scan-state

  offset_part-has_no_nul : has_no_nul (offset_part m) ≡ true
  offset_part-has_no_nul = unsigned-has_no_nul m.offset _ (
      padded-has_no_nul 0 (plain (show m.state)) _ (show-IsNumeral m.state)
        (explicit-has_no_nul m.freq _ (unsigned-has_no_nul m.delay [] refl)))

  -- A summary would have "rms" for the source.
  scan-not_figures : scan figures_format (content_part (measured m)) ≡ []
  unfolding scan literal literal_byte skip_while is_space
  scan-not_figures =
      ap (scan (lit b'r' ∷ figures_rest))
        (skip_space-word (length m.source) m.source (offset_part m) h.source_word)
      ∙ scan-other b'r' figures_rest m.source (offset_part m) h.source_word.some_byte
          h.source_begins

  scan-measured :
      scan (literal " " ++ skip word ∷ measured_format) (content_part (measured m))
      ≡ int m.offset.value ∷ int (pos m.state) ∷ int m.freq.value ∷ int m.delay.value ∷ []
  unfolding scan literal literal_byte skip_while is_space
  scan-measured =
      rw
        (
          skip_space-word (length m.source) m.source (offset_part m) h.source_word,
          scan,
          scan_item-word m.source (offset_part m) h.source_word refl,
        )
        scan-offset

content_part-has_no_nul : (c : Content) → IsContent c → has_no_nul (content_part c) ≡ true
content_part-has_no_nul (measured m) h =
    has_no_nul-append m.source _ h.source_word.no_nul (offset_part-has_no_nul m h)
content_part-has_no_nul (summary f) h = figures_part-has_no_nul f

content_part-StopsAt : (c : Content) → StopsAt not_space (content_part c)
unfolding is_space
content_part-StopsAt (measured m) = refl
content_part-StopsAt (summary f) = refl

module _ (seconds : ℕ) (fraction clock : Bytes) (digits : AllPass is_digit fraction)
    (clock_word : IsWholeWord clock) where
  scan-clock :
      (ds : List Directive) (c : Content)
      → scan (literal "] " ++ skip word ∷ ds) (b']' ∷ clock_part clock c) ≡ scan ds (content_part c)
  unfolding scan literal literal_byte skip_while is_space
  scan-clock ds c =
      rw
        (
          skip_space-word (length clock) clock (content_part c) clock_word,
          scan,
          scan_item-word clock (content_part c) clock_word (content_part-StopsAt c),
        )
        refl

  sscanf-clock :
      (ds : List Directive) (c : Content)
      → IsContent c
      → sscanf
          (timed seconds fraction (clock_part clock c))
          (lit b'[' ∷ item lf ∷ (literal "] " ++ skip word ∷ ds))
        ≡ real ∷ scan ds (content_part c)
  sscanf-clock ds c h =
      sscanf-timed seconds fraction (clock_part clock c) digits (literal "] " ++ skip word ∷ ds)
        (has_no_nul-append clock _ clock_word.no_nul (content_part-has_no_nul c h))
      ∙ ap (◌∷◌ real) (scan-clock ds c)

  parse_metrics-timed :
      (c : Content)
      → IsContent c
      → parse_metrics (timed seconds fraction (clock_part clock c)) ≡ some (told c)
  unfolding parse_metrics literal literal_byte assign
  parse_metrics-timed (summary f) h =
      rw (sscanf-clock figures_format (summary f) h, scan-figures f h) refl
  parse_metrics-timed (measured m) h =
      rw
        (
          sscanf-clock figures_format (measured m) h,
          sscanf-clock (literal " " ++ skip word ∷ measured_format) (measured m) h,
          scan-not_figures m h,
          scan-measured m h,
        )
        refl

module _ (p : Printed) (h : IsPrintable p) where
  pub parse_metrics-print_phc2sys : parse_metrics (print_line p) ≡ some (told p.content)
  parse_metrics-print_phc2sys =
      parse_metrics-timed p.seconds p.fraction p.clock h.fraction_digits h.clock_word p.content
        h.fitting
