-- ===== src/Collector/Ptp4l/Line.antt =====
-- The lines of ptp4l that `Ptp4lParser` of src/collector.cpp is about, as ptp4l prints them. What
-- stands behind the time decides which parser takes the line.
pub mod Port
pub mod Foreign
pub mod Selected
pub mod Summary
use time_agent.Base.{
  ℕ, true, false, List, [], ◌∷◌, ◌++◌, ◌≡◌, refl, ap, ◌∙◌, none, Bytes, codes, arith, AllPass,
  String, ◌==◌,
}
use time_agent.Base.Int.{pos, fits_32}
use time_agent.Text.{is_space, skip_while, take_while, contains}
use time_agent.Text.Contains.{contains-append}
use time_agent.Number.{is_digit, show}
use time_agent.Number.Digits.{IsNumeral, plain, sign_text}
use time_agent.Number.Decimal.{show-IsNumeral}
use time_agent.Scanf.{
  Directive, item, skip, lf, d64, d32, word, str, until, int, text, lit, scan, scan_item, sscanf,
  real, literal, literal_byte,
}
use time_agent.Scanf.Steps.{
  has_no_nul, has_no_nul-append, digits-has_no_nul, skip_spaces-Signed, scan_item-d32,
  unsigned_text-IsTextOf,
}
use time_agent.Scanf.Tokens.{timed, sscanf-timed, IsUntil, scan_item-until}
use time_agent.Collector.Ptp4l.{parse_metrics, rms_format, offset_format}

-- The formats behind the time.
abbrev pub rms_tail : List Directive
rms_tail =
    literal "] rms "
    ++ skip d64
      ∷ (literal " max "
          ++ item d64
            ∷ (literal " freq "
                ++ item d64
                  ∷ (literal " +/- "
                      ++ skip d64
                        ∷ (literal " delay " ++ item d64 ∷ (literal " +/- " ++ skip d64 ∷ [])))))

abbrev numbers_tail : List Directive
numbers_tail =
    literal "ffset "
    ++ item d64
      ∷ (literal " s"
          ++ item d32 ∷ (literal " freq " ++ item d64 ∷ (literal " path delay " ++ item d64 ∷ [])))

abbrev pub offset_tail : List Directive
offset_tail = literal "] " ++ skip word ∷ (literal " o" ++ numbers_tail)

module _ (seconds : ℕ) (fraction rest : Bytes) (digits : AllPass is_digit fraction)
    (no_nul : has_no_nul rest ≡ true) where
  -- A line that neither format takes further than the time has no metrics.
  pub parse_metrics-timed :
      scan rms_tail (b']' ∷ rest) ≡ []
      → scan offset_tail (b']' ∷ rest) ≡ []
      → parse_metrics (timed seconds fraction rest) ≡ none
  unfolding parse_metrics literal literal_byte
  parse_metrics-timed r o =
      rw
        (
          sscanf-timed seconds fraction rest digits rms_tail no_nul,
          sscanf-timed seconds fraction rest digits offset_tail no_nul,
          r,
          o,
        )
        refl

-- What stands behind the time stands in the line.
pub contains-timed :
    (seconds : ℕ) (fraction part rest : Bytes)
    → contains part rest ≡ true
    → contains part (timed seconds fraction rest) ≡ true
contains-timed seconds fraction part rest h =
    contains-append part (codes "[" ++ show seconds) _
      (contains-append part (b'.' ∷ fraction) _ (contains-append part (b']' ∷ []) rest h))

-- A format that goes on with another byte than a digit takes nothing of a numeral.
scan-numeral :
    (c : ℕ) (ds : List Directive) (s rest : Bytes)
    → IsNumeral s
    → is_digit c ≡ false
    → scan (lit c ∷ ds) (s ++ rest) ≡ []
unfolding scan
scan-numeral c ds [] rest n h = absurd (n.some_digit refl)
scan-numeral c ds (d ∷ s) rest n h = ground (arith, n.digits.0)

-- The number of a port and its name in brackets, with what follows.
abbrev pub port_part : ℕ → Bytes → Bytes → Bytes
port_part number name rest =
    codes " port " ++ (sign_text (plain (show number)) ++ (codes " (" ++ (name ++ b')' ∷ rest)))

-- The formats of the events of a port, up to the bracket behind the name.
abbrev pub port_front : List Directive → List Directive
port_front ds = literal "] port " ++ item d32 ∷ (literal " (" ++ item (until b')' 127) ∷ ds)

module _ (number : ℕ) (name rest : Bytes) (fits : fits_32 (pos number) ≡ true)
    (named : IsUntil b')' 127 name) where
  scan-port_part :
      (ds : List Directive)
      → scan (port_front ds) (b']' ∷ port_part number name rest)
        ≡ int (pos number) ∷ text name ∷ scan ds (b')' ∷ rest)
  unfolding scan literal literal_byte skip_while is_space is_digit
  scan-port_part ds =
      let t = unsigned_text-IsTextOf (pos number) in
      rw
        (
          skip_spaces-Signed 0 (plain (show number)) (codes " (" ++ (name ++ b')' ∷ rest)) t,
          scan_item-d32 (plain (show number)) (codes " (" ++ (name ++ b')' ∷ rest)) t fits
              (ground (arith, fits)) refl,
          scan_item-until b')' 127 name (b')' ∷ rest) named refl,
        )
        refl

  port_part-has_no_nul : has_no_nul rest ≡ true → has_no_nul (port_part number name rest) ≡ true
  port_part-has_no_nul h =
      has_no_nul-append (show number) _ (digits-has_no_nul _ (show-IsNumeral number).digits)
        (has_no_nul-append name _ named.no_nul h)

  pub sscanf-port_part :
      (seconds : ℕ) (fraction : Bytes)
      → AllPass is_digit fraction
      → has_no_nul rest ≡ true
      → (ds : List Directive)
      → sscanf
          (timed seconds fraction (port_part number name rest))
          (lit b'[' ∷ item lf ∷ port_front ds)
        ≡ real ∷ int (pos number) ∷ text name ∷ scan ds (b')' ∷ rest)
  sscanf-port_part seconds fraction digits h ds =
      sscanf-timed seconds fraction (port_part number name rest) digits (port_front ds)
        (port_part-has_no_nul h)
      ∙ ap (◌∷◌ real) (scan-port_part ds)

  -- A line about a port has no metrics.
  pub parse_metrics-port_part :
      (seconds : ℕ) (fraction : Bytes)
      → AllPass is_digit fraction
      → has_no_nul rest ≡ true
      → parse_metrics (timed seconds fraction (port_part number name rest)) ≡ none
  unfolding scan literal literal_byte skip_while is_space is_digit scan_item take_while
  parse_metrics-port_part seconds fraction digits h =
      parse_metrics-timed seconds fraction (port_part number name rest) digits
        (port_part-has_no_nul h) refl
        (rw
          (skip_spaces-Signed 0 (plain (show number)) (codes " (" ++ (name ++ b')' ∷ rest))
            (unsigned_text-IsTextOf (pos number)))
          (scan-numeral b'o' numbers_tail (show number) _ (show-IsNumeral number) refl))
