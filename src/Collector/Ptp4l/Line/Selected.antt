-- ===== src/Collector/Ptp4l/Line/Selected.antt =====
-- A line about the best master, src/collector.cpp lines 80 to 98.
use time_agent.Base.{
  ℕ, Bool, true, false, List, [], ◌∷◌, ◌++◌, ◌≡◌, refl, some, none, Bytes, codes, arith, AllPass,
}
use time_agent.Text.{is_space, skip_while, take_while, contains}
use time_agent.Text.Contains.{contains-append, contains-prefix}
use time_agent.Number.{is_digit}
use time_agent.Scanf.{
  Directive, item, str, until, d32, text, scan, scan_item, literal, literal_byte,
}
use time_agent.Scanf.Steps.{has_no_nul, has_no_nul-append}
use time_agent.Scanf.Tokens.{
  timed, sscanf-timed, IsShortWord, skip_space-word, scan_item-str, scan_item-str_end,
  skip_space-word_end,
}
use time_agent.Collector.Ptp4l.{
  parse_metrics, parse_port_event, parse_foreign_master_event, parse_best_master_event,
}
use time_agent.Collector.Ptp4l.Line

-- What ptp4l prints: the time, whether the clock chosen is its own, and the clock's identity.
pub record SelectedLine : Type 0 where
  pub seconds : ℕ
  pub fraction : Bytes
  pub is_local : Bool
  pub identity : Bytes

abbrev selected_part : Bool → Bytes → Bytes
selected_part false identity = codes " selected best master clock " ++ identity
selected_part true identity =
    codes " selected local clock " ++ (identity ++ codes " as best master")

abbrev pub print_line : SelectedLine → Bytes
print_line p = timed p.seconds p.fraction (selected_part p.is_local p.identity)

pub record IsPrintable (p : SelectedLine) : Type 0 where
  pub fraction_digits : AllPass is_digit p.fraction
  pub identity_short : IsShortWord 63 p.identity

abbrev best_tail : List Directive
best_tail = literal "] selected best master clock " ++ item (str 63) ∷ []

abbrev local_tail : List Directive
local_tail = literal "] selected local clock " ++ item (str 63) ∷ literal " as best master"

abbrev port_tail : List Directive
port_tail = Line.port_front (
    literal "): "
    ++ item (str 63)
      ∷ (literal " to " ++ item (str 63) ∷ (literal " on " ++ item (until b'\n' 127) ∷ [])))

abbrev foreign_tail : List Directive
foreign_tail =
    Line.port_front
      (literal "): new foreign master " ++ item (until b'-' 63) ∷ (literal "-" ++ item d32 ∷ []))

module _ (identity : Bytes) (short : IsShortWord 63 identity) where
  selected_part-has_no_nul : (b : Bool) → has_no_nul (selected_part b identity) ≡ true
  selected_part-has_no_nul false = short.no_nul
  selected_part-has_no_nul true =
      has_no_nul-append identity (codes " as best master") short.no_nul refl

  scan-best : scan best_tail (b']' ∷ selected_part false identity) ≡ text identity ∷ []
  unfolding scan literal literal_byte skip_while is_space
  scan-best = rw (skip_space-word_end 63 identity short, scan_item-str_end 63 identity short) refl

  scan-local : scan local_tail (b']' ∷ selected_part true identity) ≡ text identity ∷ []
  unfolding scan literal literal_byte skip_while is_space
  scan-local =
      let behind = codes " as best master" in
      rw (skip_space-word 63 identity behind short, scan_item-str 63 identity behind short refl)
        refl

  -- The formats of the other lines, and of the other choice, stop early.
  scan-best_local : scan best_tail (b']' ∷ selected_part true identity) ≡ []
  unfolding scan literal literal_byte skip_while is_space
  scan-best_local = refl

  scan-port : (b : Bool) → scan port_tail (b']' ∷ selected_part b identity) ≡ []
  unfolding scan literal literal_byte skip_while is_space
  scan-port false = refl
  scan-port true = refl

  scan-foreign : (b : Bool) → scan foreign_tail (b']' ∷ selected_part b identity) ≡ []
  unfolding scan literal literal_byte skip_while is_space
  scan-foreign false = refl
  scan-foreign true = refl

  selected_part-selected :
      (b : Bool) → contains (codes "selected") (selected_part b identity) ≡ true
  selected_part-selected false =
      contains-append (codes "selected") (codes " ") _ (contains-prefix (codes "selected") _)
  selected_part-selected true =
      contains-append (codes "selected") (codes " ") _ (contains-prefix (codes "selected") _)

  scan-word : (b : Bool) → scan Line.offset_tail (b']' ∷ selected_part b identity) ≡ []
  unfolding scan literal literal_byte skip_while is_space scan_item take_while
  scan-word false = refl
  scan-word true = refl

  scan-rms : (b : Bool) → scan Line.rms_tail (b']' ∷ selected_part b identity) ≡ []
  unfolding scan literal literal_byte skip_while is_space
  scan-rms false = refl
  scan-rms true = refl

  -- Either of the two formats takes its line.
  selected :
      (seconds : ℕ) (fraction : Bytes)
      → AllPass is_digit fraction
      → (b : Bool)
      → parse_best_master_event (timed seconds fraction (selected_part b identity))
        ≡ some (record { unit = []; timestamp_us = 0; master_clock_identity = identity })
  unfolding parse_best_master_event literal literal_byte
  selected seconds fraction digits false =
      let rest = selected_part false identity in
      rw
        (
          Line.contains-timed seconds fraction (codes "selected") rest
              (selected_part-selected false),
          sscanf-timed seconds fraction rest digits best_tail (selected_part-has_no_nul false),
          scan-best,
        )
        refl
  selected seconds fraction digits true =
      let rest = selected_part true identity in
      rw
        (
          Line.contains-timed seconds fraction (codes "selected") rest
              (selected_part-selected true),
          sscanf-timed seconds fraction rest digits best_tail (selected_part-has_no_nul true),
          sscanf-timed seconds fraction rest digits local_tail (selected_part-has_no_nul true),
          scan-best_local,
          scan-local,
        )
        refl

module _ (p : SelectedLine) (h : IsPrintable p) where
  abbrev rest : Bytes
  rest = selected_part p.is_local p.identity

  rest-has_no_nul : has_no_nul rest ≡ true
  rest-has_no_nul = selected_part-has_no_nul p.identity h.identity_short p.is_local

  pub parse_metrics-print_selected : parse_metrics (print_line p) ≡ none
  parse_metrics-print_selected =
      Line.parse_metrics-timed p.seconds p.fraction rest h.fraction_digits rest-has_no_nul
        (scan-rms p.identity h.identity_short p.is_local)
        (scan-word p.identity h.identity_short p.is_local)

  pub parse_port_event-print_selected : parse_port_event (print_line p) ≡ none
  unfolding parse_port_event literal literal_byte
  parse_port_event-print_selected =
      rw
        (
          sscanf-timed p.seconds p.fraction rest h.fraction_digits port_tail rest-has_no_nul,
          scan-port p.identity h.identity_short p.is_local,
        )
        (ground arith)

  pub parse_foreign_master_event-print_selected : parse_foreign_master_event (print_line p) ≡ none
  unfolding parse_foreign_master_event literal literal_byte
  parse_foreign_master_event-print_selected =
      rw
        (
          sscanf-timed p.seconds p.fraction rest h.fraction_digits foreign_tail rest-has_no_nul,
          scan-foreign p.identity h.identity_short p.is_local,
        )
        (ground arith)

  pub parse_best_master_event-print_line :
      parse_best_master_event (print_line p)
      ≡ some (record { unit = []; timestamp_us = 0; master_clock_identity = p.identity })
  parse_best_master_event-print_line =
      selected p.identity h.identity_short p.seconds p.fraction h.fraction_digits p.is_local
