-- ===== src/Collector/Ptp4l/Printed.antt =====
-- A line with the offset as ptp4l prints it, with its numbers padded to a width.
use time_agent.Base.{
  ℕ, true, List, [], ◌∷◌, ◌++◌, ◌≡◌, refl, ap, some, Bytes, codes, arith, AllPass,
}
use time_agent.Base.Int.{ℤ, pos, fits_32, fits_64}
use time_agent.Text.{is_space, skip_while, take_while}
use time_agent.Number.{is_digit, show}
use time_agent.Number.Digits.{sign_text, plain}
use time_agent.Number.Decimal.{show-IsNumeral}
use time_agent.Scanf.{
  Directive, item, d64, d32, lf, int, real, scan, scan_item, sscanf, literal, literal_byte, assign,
}
use time_agent.Scanf.Steps.{
  spaces, unsigned_text, explicit_text, unsigned_text-IsTextOf, explicit_text-IsTextOf,
  skip_spaces-Signed, scan_item-d64, scan_item-d32, scan_item-lf, has_no_nul, has_no_nul-append,
  padded-has_no_nul, c_str_id, digits-has_no_nul,
}
use time_agent.Collector.Ptp4l.{parse_metrics, rms_format, offset_format, zero_stats}

-- What ptp4l prints: the seconds with a fraction, the offset, the state of the servo, the frequency
-- and the path delay; and how many spaces it puts in front of the numbers.
pub record Printed : Type 0 where
  pub seconds : ℕ
  pub fraction : Bytes
  pub offset : ℤ
  pub state : ℕ
  pub freq : ℤ
  pub path_delay : ℤ
  pub offset_pad : ℕ
  pub freq_pad : ℕ
  pub delay_pad : ℕ

abbrev delay_part : Printed → Bytes
delay_part p =
    codes " path delay " ++ (spaces p.delay_pad ++ (sign_text (unsigned_text p.path_delay) ++ []))

abbrev freq_part : Printed → Bytes
freq_part p =
    codes " freq " ++ (spaces p.freq_pad ++ (sign_text (explicit_text p.freq) ++ delay_part p))

abbrev state_part : Printed → Bytes
state_part p = codes " s" ++ (sign_text (plain (show p.state)) ++ freq_part p)

abbrev offset_part : Printed → Bytes
offset_part p =
    codes " offset "
    ++ (spaces p.offset_pad ++ (sign_text (unsigned_text p.offset) ++ state_part p))

abbrev pub print_line : Printed → Bytes
print_line p =
    codes "["
    ++ (show p.seconds ++ b'.' ∷ (p.fraction ++ b']' ∷ (codes " master" ++ offset_part p)))

abbrev delay_format : List Directive
delay_format = literal " path delay " ++ item d64 ∷ []

abbrev freq_format : List Directive
freq_format = literal " freq " ++ item d64 ∷ delay_format

abbrev state_format : List Directive
state_format = literal " s" ++ item d32 ∷ freq_format

abbrev tail_format : List Directive
tail_format = literal " offset " ++ item d64 ∷ state_format

pub record IsPrintable (p : Printed) : Type 0 where
  pub fraction_digits : AllPass is_digit p.fraction
  pub offset_fits : fits_64 p.offset ≡ true
  pub state_fits : fits_32 (pos p.state) ≡ true
  pub freq_fits : fits_64 p.freq ≡ true
  pub delay_fits : fits_64 p.path_delay ≡ true

module _ (p : Printed) (h : IsPrintable p) where
  scan-delay : scan delay_format (delay_part p) ≡ int p.path_delay ∷ []
  unfolding scan literal literal_byte skip_while is_space
  scan-delay =
      let t = unsigned_text-IsTextOf p.path_delay in
      rw
        (
          skip_spaces-Signed p.delay_pad (unsigned_text p.path_delay) [] t,
          scan_item-d64 (unsigned_text p.path_delay) [] t h.delay_fits tt,
        )
        refl

  scan-freq : scan freq_format (freq_part p) ≡ int p.freq ∷ int p.path_delay ∷ []
  unfolding scan literal literal_byte skip_while is_space is_digit
  scan-freq =
      let t = explicit_text-IsTextOf p.freq in
      rw
        (
          skip_spaces-Signed p.freq_pad (explicit_text p.freq) (delay_part p) t,
          scan_item-d64 (explicit_text p.freq) (delay_part p) t h.freq_fits refl,
        )
        (ap (◌∷◌ (int p.freq)) scan-delay)

  scan-state :
      scan state_format (state_part p) ≡ int (pos p.state) ∷ int p.freq ∷ int p.path_delay ∷ []
  unfolding scan literal literal_byte skip_while is_space is_digit
  scan-state =
      rw
        (scan_item-d32 (plain (show p.state)) (freq_part p) (unsigned_text-IsTextOf (pos p.state))
          h.state_fits (ground (arith, h.state_fits)) refl)
        (ap (◌∷◌ (int (pos p.state))) scan-freq)

  scan-offset :
      scan tail_format (offset_part p)
      ≡ int p.offset ∷ int (pos p.state) ∷ int p.freq ∷ int p.path_delay ∷ []
  unfolding scan literal literal_byte skip_while is_space is_digit
  scan-offset =
      let t = unsigned_text-IsTextOf p.offset in
      rw
        (
          skip_spaces-Signed p.offset_pad (unsigned_text p.offset) (state_part p) t,
          scan_item-d64 (unsigned_text p.offset) (state_part p) t h.offset_fits refl,
        )
        (ap (◌∷◌ (int p.offset)) scan-state)

  time :
      scan_item lf
        (show p.seconds ++ b'.' ∷ (p.fraction ++ b']' ∷ (codes " master" ++ offset_part p)))
      ≡ some (real, b']' ∷ (codes " master" ++ offset_part p))
  time =
      scan_item-lf (show p.seconds) p.fraction (codes " master" ++ offset_part p)
        (show-IsNumeral p.seconds) h.fraction_digits

  scan-line :
      scan offset_format (print_line p)
      ≡ real ∷ int p.offset ∷ int (pos p.state) ∷ int p.freq ∷ int p.path_delay ∷ []
  unfolding scan literal literal_byte skip_while is_space take_while scan_item
  scan-line = rw time (ap (◌∷◌ real) scan-offset)

  -- The format of a summary stops behind the time.
  scan-rms : scan rms_format (print_line p) ≡ real ∷ []
  unfolding scan literal literal_byte skip_while is_space
  scan-rms = rw time refl

  line-has_no_nul : has_no_nul (print_line p) ≡ true
  line-has_no_nul =
      let offset = unsigned_text-IsTextOf p.offset in
      let freq = explicit_text-IsTextOf p.freq in
      let delay = unsigned_text-IsTextOf p.path_delay in
      has_no_nul-append (show p.seconds) _ (digits-has_no_nul _ (show-IsNumeral p.seconds).digits) (
        has_no_nul-append p.fraction _ (digits-has_no_nul _ h.fraction_digits) (
          padded-has_no_nul p.offset_pad (unsigned_text p.offset) _ offset.numeral (
            padded-has_no_nul 0 (plain (show p.state)) _ (show-IsNumeral p.state) (
              padded-has_no_nul p.freq_pad (explicit_text p.freq) _ freq.numeral (
                padded-has_no_nul p.delay_pad (unsigned_text p.path_delay) [] delay.numeral
                  refl)))))

  -- For every line with the offset as ptp4l prints it, with any padding, `parseMetrics` gives back
  -- the offset, the state, the frequency and the path delay, where these fit their types.
  pub parse_metrics-print_line :
      parse_metrics (print_line p)
      ≡ some (record zero_stats {
        offset = p.offset;
        state = pos p.state;
        freq = p.freq;
        path_delay = p.path_delay;
      })
  unfolding parse_metrics sscanf assign
  parse_metrics-print_line = rw (c_str_id (print_line p) line-has_no_nul, scan-rms, scan-line) refl
