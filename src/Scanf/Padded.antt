-- ===== src/Scanf/Padded.antt =====
-- Numbers padded with spaces, as `printf` prints them with a width, and how `sscanf` reads them.
use time_agent.Base.{ℕ, true, List, ◌∷◌, ◌++◌, ◌≡◌, refl, Bytes}
use time_agent.Base.Int.{ℤ, fits_64}
use time_agent.Text.{is_space, skip_while}
use time_agent.Text.Split.{StopsAt}
use time_agent.Number.{is_digit}
use time_agent.Number.Digits.{sign_text}
use time_agent.Scanf.{Directive, item, skip, d64, int, scan}
use time_agent.Scanf.Steps.{
  spaces, unsigned_text, explicit_text, unsigned_text-IsTextOf, explicit_text-IsTextOf,
  skip_spaces-Signed, scan_item-d64, has_no_nul, padded-has_no_nul,
}

-- A number with the spaces in front of it.
pub record Padded : Type 0 where
  pub pad : ℕ
  pub value : ℤ

-- `%4.0f` and `%+6.0f`, say.
abbrev pub print_unsigned : Padded → Bytes → Bytes
print_unsigned n rest = spaces n.pad ++ (sign_text (unsigned_text n.value) ++ rest)

abbrev pub print_explicit : Padded → Bytes → Bytes
print_explicit n rest = spaces n.pad ++ (sign_text (explicit_text n.value) ++ rest)

abbrev pub Fits : Padded → Type 0
Fits n = fits_64 n.value ≡ true

module _ (ds : List Directive) (n : Padded) (rest : Bytes) (fits : Fits n)
    (k : StopsAt is_digit rest) where
  -- A padded number is read, and what follows decides the rest.
  pub scan-unsigned :
      scan (item d64 ∷ ds) (skip_while is_space (print_unsigned n rest))
      ≡ int n.value ∷ scan ds rest
  unfolding scan
  scan-unsigned =
      let h = unsigned_text-IsTextOf n.value in
      rw
        (
          skip_spaces-Signed n.pad (unsigned_text n.value) rest h,
          scan,
          scan_item-d64 (unsigned_text n.value) rest h fits k,
        )
        refl

  pub scan-explicit :
      scan (item d64 ∷ ds) (skip_while is_space (print_explicit n rest))
      ≡ int n.value ∷ scan ds rest
  unfolding scan
  scan-explicit =
      let h = explicit_text-IsTextOf n.value in
      rw
        (
          skip_spaces-Signed n.pad (explicit_text n.value) rest h,
          scan,
          scan_item-d64 (explicit_text n.value) rest h fits k,
        )
        refl

  pub scan-skipped :
      scan (skip d64 ∷ ds) (skip_while is_space (print_unsigned n rest)) ≡ scan ds rest
  unfolding scan
  scan-skipped =
      let h = unsigned_text-IsTextOf n.value in
      rw
        (
          skip_spaces-Signed n.pad (unsigned_text n.value) rest h,
          scan,
          scan_item-d64 (unsigned_text n.value) rest h fits k,
        )
        refl

pub unsigned-has_no_nul :
    (n : Padded) (rest : Bytes) → has_no_nul rest ≡ true → has_no_nul (print_unsigned n rest) ≡ true
unsigned-has_no_nul n rest h =
    padded-has_no_nul n.pad (unsigned_text n.value) rest (unsigned_text-IsTextOf n.value).numeral h

pub explicit-has_no_nul :
    (n : Padded) (rest : Bytes) → has_no_nul rest ≡ true → has_no_nul (print_explicit n rest) ≡ true
explicit-has_no_nul n rest h =
    padded-has_no_nul n.pad (explicit_text n.value) rest (explicit_text-IsTextOf n.value).numeral h
