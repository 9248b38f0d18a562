-- ===== src/Collector/Ptp4l/Line/Foreign.antt =====
-- A line about a new foreign master, src/collector.cpp lines 62 to 78.
use time_agent.Base.{
  ℕ, true, List, [], ◌∷◌, ◌++◌, ◌≡◌, refl, some, none, Bytes, codes, arith, AllPass,
}
use time_agent.Base.Int.{pos, fits_32}
use time_agent.Text.{is_space, skip_while, take_while, contains}
use time_agent.Text.Contains.{contains-append, contains-prefix}
use time_agent.Text.Split.{StopsAt}
use time_agent.Number.{is_digit, show}
use time_agent.Number.Digits.{plain, sign_text}
use time_agent.Number.Decimal.{show-IsNumeral}
use time_agent.Scanf.{
  Directive, item, str, until, d32, int, text, scan, scan_item, literal, literal_byte,
}
use time_agent.Scanf.Steps.{
  has_no_nul, has_no_nul-append, padded-has_no_nul, scan_item-d32, unsigned_text-IsTextOf,
}
use time_agent.Scanf.Tokens.{timed, IsUntil, scan_item-until, skip_space-solid}
use time_agent.Collector.Ptp4l.{parse_metrics, parse_port_event, parse_foreign_master_event}
use time_agent.Collector.Ptp4l.Line

-- What ptp4l prints: the time, the port's number and name, and the identity of the foreign master
-- with the number of its port.
pub record ForeignLine : Type 0 where
  pub seconds : ℕ
  pub fraction : Bytes
  pub number : ℕ
  pub name : Bytes
  pub identity : Bytes
  pub master_port : ℕ

abbrev port_tail : ForeignLine → Bytes
port_tail p = sign_text (plain (show p.master_port)) ++ []

abbrev master_part : ForeignLine → Bytes
master_part p = codes ": new foreign master " ++ (p.identity ++ b'-' ∷ port_tail p)

abbrev pub print_line : ForeignLine → Bytes
print_line p = timed p.seconds p.fraction (Line.port_part p.number p.name (master_part p))

-- The texts that the buffers of the parser hold.
pub record IsPrintable (p : ForeignLine) : Type 0 where
  pub fraction_digits : AllPass is_digit p.fraction
  pub number_fits : fits_32 (pos p.number) ≡ true
  pub name_short : IsUntil b')' 127 p.name
  pub identity_short : IsUntil b'-' 63 p.identity
  pub identity_begins : StopsAt is_space (p.identity ++ b'-' ∷ port_tail p)
  pub master_port_fits : fits_32 (pos p.master_port) ≡ true

abbrev master_format : List Directive
master_format =
    literal "): new foreign master " ++ item (until b'-' 63) ∷ (literal "-" ++ item d32 ∷ [])

-- The format of a change of state, behind the port's name.
abbrev states_format : List Directive
states_format =
    literal "): "
    ++ item (str 63)
      ∷ (literal " to " ++ item (str 63) ∷ (literal " on " ++ item (until b'\n' 127) ∷ []))

module _ (p : ForeignLine) (h : IsPrintable p) where
  scan-master :
      scan master_format (b')' ∷ master_part p) ≡ text p.identity ∷ int (pos p.master_port) ∷ []
  unfolding scan literal literal_byte skip_while is_space
  scan-master =
      rw
        (
          skip_space-solid (p.identity ++ b'-' ∷ port_tail p) h.identity_begins,
          scan_item-until b'-' 63 p.identity (b'-' ∷ port_tail p) h.identity_short refl,
          scan_item-d32 (plain (show p.master_port)) [] (unsigned_text-IsTextOf (pos p.master_port))
              h.master_port_fits (ground (arith, h.master_port_fits)) tt,
        )
        refl

  -- Where a change of state has " to ", this line has " foreign ".
  scan-states : scan states_format (b')' ∷ master_part p) ≡ text (codes "new") ∷ []
  unfolding scan literal literal_byte skip_while is_space scan_item take_while
  scan-states = refl

  master_part-has_no_nul : has_no_nul (master_part p) ≡ true
  master_part-has_no_nul =
      has_no_nul-append p.identity _ h.identity_short.no_nul
        (padded-has_no_nul 0 (plain (show p.master_port)) [] (show-IsNumeral p.master_port) refl)

  pub parse_metrics-print_foreign : parse_metrics (print_line p) ≡ none
  parse_metrics-print_foreign =
      Line.parse_metrics-port_part p.number p.name (master_part p) h.number_fits h.name_short
        p.seconds p.fraction h.fraction_digits master_part-has_no_nul

  pub parse_port_event-print_foreign : parse_port_event (print_line p) ≡ none
  unfolding parse_port_event literal literal_byte
  parse_port_event-print_foreign =
      rw
        (
          Line.sscanf-port_part p.number p.name (master_part p) h.number_fits h.name_short p.seconds
              p.fraction h.fraction_digits master_part-has_no_nul states_format,
          scan-states,
        )
        (ground arith)

  master_part-new :
      contains (codes "new foreign master") (Line.port_part p.number p.name (master_part p)) ≡ true
  master_part-new =
      let part = codes "new foreign master" in
      contains-append part (codes " port " ++ show p.number) _ (
        contains-append part (codes " (" ++ p.name) _
          (contains-append part (codes "): ") _ (contains-prefix part _)))

  pub parse_foreign_master_event-print_line :
      parse_foreign_master_event (print_line p)
      ≡ some (record {
        unit = [];
        timestamp_us = 0;
        port_number = pos p.number;
        port_name = p.name;
        master_clock_identity = p.identity;
        master_port_number = pos p.master_port;
      })
  unfolding parse_foreign_master_event literal literal_byte
  parse_foreign_master_event-print_line =
      rw
        (
          Line.contains-timed p.seconds p.fraction (codes "new foreign master")
              (Line.port_part p.number p.name (master_part p)) master_part-new,
          Line.sscanf-port_part p.number p.name (master_part p) h.number_fits h.name_short p.seconds
              p.fraction h.fraction_digits master_part-has_no_nul master_format,
          scan-master,
        )
        refl
