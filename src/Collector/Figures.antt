-- ===== src/Collector/Figures.antt =====
-- The figures of a summary, which ptp4l and phc2sys print in the same form, and how the formats of
-- src/collector.cpp, lines 14 to 16 and 30 to 32, read them.
use time_agent.Base.{true, List, [], ◌∷◌, ◌++◌, ◌≡◌, refl, ap, ◌∙◌, Bytes, codes}
use time_agent.Text.{is_space, skip_while}
use time_agent.Number.{is_digit}
use time_agent.Scanf.{Directive, item, skip, d64, int, scan, literal, literal_byte}
use time_agent.Scanf.Steps.{has_no_nul}
use time_agent.Scanf.Padded.{
  Padded, Fits, print_unsigned, print_explicit, scan-unsigned, scan-explicit, scan-skipped,
  unsigned-has_no_nul, explicit-has_no_nul,
}

-- The root mean square and the maximum of the offset; the mean and the deviation of the frequency
-- and of the path delay.
pub record Figures : Type 0 where
  pub rms : Padded
  pub max : Padded
  pub freq : Padded
  pub freq_deviation : Padded
  pub delay : Padded
  pub delay_deviation : Padded

abbrev delay_deviation_part : Figures → Bytes
delay_deviation_part p = codes " +/- " ++ print_unsigned p.delay_deviation []

abbrev delay_part : Figures → Bytes
delay_part p = codes " delay " ++ print_unsigned p.delay (delay_deviation_part p)

abbrev freq_deviation_part : Figures → Bytes
freq_deviation_part p = codes " +/- " ++ print_unsigned p.freq_deviation (delay_part p)

abbrev freq_part : Figures → Bytes
freq_part p = codes " freq " ++ print_explicit p.freq (freq_deviation_part p)

abbrev max_part : Figures → Bytes
max_part p = codes " max " ++ print_unsigned p.max (freq_part p)

abbrev pub figures_part : Figures → Bytes
figures_part p = codes " rms " ++ print_unsigned p.rms (max_part p)

pub record AreFitting (p : Figures) : Type 0 where
  pub rms_fits : Fits p.rms
  pub max_fits : Fits p.max
  pub freq_fits : Fits p.freq
  pub freq_deviation_fits : Fits p.freq_deviation
  pub delay_fits : Fits p.delay
  pub delay_deviation_fits : Fits p.delay_deviation

abbrev delay_deviation_format : List Directive
delay_deviation_format = literal " +/- " ++ skip d64 ∷ []

abbrev delay_format : List Directive
delay_format = literal " delay " ++ item d64 ∷ delay_deviation_format

abbrev freq_deviation_format : List Directive
freq_deviation_format = literal " +/- " ++ skip d64 ∷ delay_format

abbrev freq_format : List Directive
freq_format = literal " freq " ++ item d64 ∷ freq_deviation_format

abbrev max_format : List Directive
max_format = literal " max " ++ item d64 ∷ freq_format

abbrev pub figures_rest : List Directive
figures_rest = literal "ms " ++ skip d64 ∷ max_format

abbrev pub figures_format : List Directive
figures_format = literal " r" ++ figures_rest

module _ (p : Figures) (h : AreFitting p) where
  scan-delay : scan delay_format (delay_part p) ≡ int p.delay.value ∷ []
  unfolding scan literal literal_byte skip_while is_space is_digit
  scan-delay =
      scan-unsigned delay_deviation_format p.delay (delay_deviation_part p) h.delay_fits refl
      ∙ ap (◌∷◌ (int p.delay.value))
          (scan-skipped [] p.delay_deviation [] h.delay_deviation_fits tt)

  scan-freq : scan freq_format (freq_part p) ≡ int p.freq.value ∷ int p.delay.value ∷ []
  unfolding scan literal literal_byte skip_while is_space is_digit
  scan-freq =
      scan-explicit freq_deviation_format p.freq (freq_deviation_part p) h.freq_fits refl
      ∙ ap (◌∷◌ (int p.freq.value)) (
          scan-skipped delay_format p.freq_deviation (delay_part p) h.freq_deviation_fits refl
          ∙ scan-delay)

  -- The root mean square and the deviations are skipped.
  pub scan-figures :
      scan figures_format (figures_part p)
      ≡ int p.max.value ∷ int p.freq.value ∷ int p.delay.value ∷ []
  unfolding scan literal literal_byte skip_while is_space is_digit
  scan-figures =
      scan-skipped max_format p.rms (max_part p) h.rms_fits refl
      ∙ scan-unsigned freq_format p.max (freq_part p) h.max_fits refl
      ∙ ap (◌∷◌ (int p.max.value)) scan-freq

pub figures_part-has_no_nul : (p : Figures) → has_no_nul (figures_part p) ≡ true
figures_part-has_no_nul p = unsigned-has_no_nul p.rms _ (
    unsigned-has_no_nul p.max _ (
      explicit-has_no_nul p.freq _ (
        unsigned-has_no_nul p.freq_deviation _
          (unsigned-has_no_nul p.delay _ (unsigned-has_no_nul p.delay_deviation [] refl)))))
