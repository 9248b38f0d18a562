-- ===== src/Collector/Ptp4l/Line/Port.antt =====
-- A line about the change of a port's state, src/collector.cpp lines 43 to 60.
use time_agent.Base.{ℕ, true, List, [], ◌∷◌, ◌++◌, ◌≡◌, refl, some, none, Bytes, codes, AllPass}
use time_agent.Base.Int.{pos, fits_32}
use time_agent.Text.{is_space, skip_while, contains}
use time_agent.Text.Contains.{contains-append, contains-prefix}
use time_agent.Text.Split.{StopsAt}
use time_agent.Number.{is_digit, show}
use time_agent.Scanf.{Directive, item, str, until, text, scan, literal, literal_byte}
use time_agent.Scanf.Steps.{has_no_nul, has_no_nul-append}
use time_agent.Scanf.Tokens.{
  timed, IsShortWord, IsUntil, skip_space-word, scan_item-str, scan_item-until_end,
  skip_space-solid,
}
use time_agent.Collector.Ptp4l.{parse_metrics, parse_port_event, empty_port_event}
use time_agent.Collector.Ptp4l.Line

-- What ptp4l prints: the time, the port's number and name, the two states and what caused the
-- change.
pub record PortLine : Type 0 where
  pub seconds : ℕ
  pub fraction : Bytes
  pub number : ℕ
  pub name : Bytes
  pub from : Bytes
  pub to : Bytes
  pub trigger : Bytes

abbrev states_part : PortLine → Bytes
states_part p = codes ": " ++ (p.from ++ (codes " to " ++ (p.to ++ (codes " on " ++ p.trigger))))

abbrev pub print_line : PortLine → Bytes
print_line p = timed p.seconds p.fraction (Line.port_part p.number p.name (states_part p))

-- The texts that the buffers of the parser hold.
pub record IsPrintable (p : PortLine) : Type 0 where
  pub fraction_digits : AllPass is_digit p.fraction
  pub number_fits : fits_32 (pos p.number) ≡ true
  pub name_short : IsUntil b')' 127 p.name
  pub from_short : IsShortWord 63 p.from
  pub to_short : IsShortWord 63 p.to
  pub trigger_short : IsUntil b'\n' 127 p.trigger
  pub trigger_begins : StopsAt is_space p.trigger

abbrev states_format : List Directive
states_format =
    literal "): "
    ++ item (str 63)
      ∷ (literal " to " ++ item (str 63) ∷ (literal " on " ++ item (until b'\n' 127) ∷ []))

module _ (p : PortLine) (h : IsPrintable p) where
  scan-states :
      scan states_format (b')' ∷ states_part p) ≡ text p.from ∷ text p.to ∷ text p.trigger ∷ []
  unfolding scan literal literal_byte skip_while is_space
  scan-states =
      let on = codes " on " ++ p.trigger in
      let target = codes " to " ++ (p.to ++ on) in
      rw
        (
          skip_space-word 63 p.from target h.from_short,
          scan_item-str 63 p.from target h.from_short refl,
          skip_space-word 63 p.to on h.to_short,
          scan_item-str 63 p.to on h.to_short refl,
          skip_space-solid p.trigger h.trigger_begins,
          scan_item-until_end b'\n' 127 p.trigger h.trigger_short,
        )
        refl

  states_part-has_no_nul : has_no_nul (states_part p) ≡ true
  states_part-has_no_nul =
      has_no_nul-append p.from _ h.from_short.no_nul
        (has_no_nul-append p.to _ h.to_short.no_nul h.trigger_short.no_nul)

  pub parse_metrics-print_port : parse_metrics (print_line p) ≡ none
  parse_metrics-print_port =
      Line.parse_metrics-port_part p.number p.name (states_part p) h.number_fits h.name_short
        p.seconds p.fraction h.fraction_digits states_part-has_no_nul

  states_part-to : contains (codes " to ") (Line.port_part p.number p.name (states_part p)) ≡ true
  states_part-to =
      let part = codes " to " in
      contains-append part (codes " port " ++ show p.number) _ (
        contains-append part (codes " (" ++ p.name) _
          (contains-append part (codes "): " ++ p.from) _ (contains-prefix part _)))

  pub parse_port_event-print_line :
      parse_port_event (print_line p)
      ≡ some (record empty_port_event {
        port_number = pos p.number;
        port_name = p.name;
        from_state = p.from;
        to_state = p.to;
        trigger = p.trigger;
      })
  unfolding parse_port_event literal literal_byte
  parse_port_event-print_line =
      let rest = Line.port_part p.number p.name (states_part p) in
      rw
        (
          Line.contains-timed p.seconds p.fraction (codes "port ") rest
              (contains-append (codes "port ") (codes " ") _ (contains-prefix (codes "port ") _)),
          Line.contains-timed p.seconds p.fraction (codes " to ") rest states_part-to,
          Line.sscanf-port_part p.number p.name (states_part p) h.number_fits h.name_short p.seconds
              p.fraction h.fraction_digits states_part-has_no_nul states_format,
          scan-states,
        )
        refl
