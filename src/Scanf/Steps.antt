-- ===== src/Scanf/Steps.antt =====
-- How `sscanf` reads numbers that are printed, one step of `scan` each.
use time_agent.Base.{
  ℕ, zero, suc, Bool, true, false, not, ◌&&◌, ◌||◌, [], ◌∷◌, ◌++◌, ◌≡◌, refl, ap, ◌∙◌, none, some,
  Bytes, ◌==◌, arith, AllPass,
}
use time_agent.Base.Int.{ℤ, pos, negsuc, signed, fits_32, fits_64, saturate_64_id, to_int_32_id}
use time_agent.Text.{is_space, skip_while, take_while}
use time_agent.Text.Split.{StopsAt, take_while-append, skip_while-append}
use time_agent.Number.{is_digit, show}
use time_agent.Number.Digits.{
  IsNumeral, Signed, plain, plus, minus, sign_text, sign_digits, sign_value, read_int-Signed,
  digit-solid,
}
use time_agent.Number.Decimal.{show-IsNumeral, decimal-show}
use time_agent.Scanf.{d64, d32, lf, int, real, scan_item, c_str}
use time_agent.Scanf.Real.{read_real, read_unsigned, read_decimal, mantissa, lower, begins_hex}

abbrev pub spaces : ℕ → Bytes
spaces zero = []
spaces (suc n) = b' ' ∷ spaces n

-- The text of an integer, as `%lld` prints it, and as `%+lld` does.
abbrev pub unsigned_text : ℤ → Signed
unsigned_text (pos n) = plain (show n)
unsigned_text (negsuc n) = minus (show (suc n))

abbrev pub explicit_text : ℤ → Signed
explicit_text (pos n) = plus (show n)
explicit_text (negsuc n) = minus (show (suc n))

-- A text of an integer whose value it is.
pub record IsTextOf (z : ℤ) (t : Signed) : Type 0 where
  pub numeral : IsNumeral (sign_digits t)
  pub value : sign_value t ≡ z

pub unsigned_text-IsTextOf : (z : ℤ) → IsTextOf z (unsigned_text z)
unsigned_text-IsTextOf (pos n) = record {
  numeral = show-IsNumeral n;
  value = ap pos (decimal-show n);
}
unsigned_text-IsTextOf (negsuc n) = record {
  numeral = show-IsNumeral (suc n);
  value = ap (signed true) (decimal-show (suc n));
}

pub explicit_text-IsTextOf : (z : ℤ) → IsTextOf z (explicit_text z)
explicit_text-IsTextOf (pos n) = record {
  numeral = show-IsNumeral n;
  value = ap pos (decimal-show n);
}
explicit_text-IsTextOf (negsuc n) = record {
  numeral = show-IsNumeral (suc n);
  value = ap (signed true) (decimal-show (suc n));
}

skip_spaces : (n : ℕ) (s : Bytes) → skip_while is_space (spaces n ++ s) ≡ skip_while is_space s
unfolding skip_while is_space
skip_spaces zero s = refl
skip_spaces (suc n) s = skip_spaces n s

numeral_solid : (ds s : Bytes) → IsNumeral ds → skip_while is_space (ds ++ s) ≡ ds ++ s
unfolding skip_while
numeral_solid [] s n = absurd (n.some_digit refl)
numeral_solid (d ∷ ds) s n = rw (digit-solid d n.digits.0)

Signed-solid :
    (t : Signed) (s : Bytes)
    → IsNumeral (sign_digits t)
    → skip_while is_space (sign_text t ++ s) ≡ sign_text t ++ s
Signed-solid (plain ds) s n = numeral_solid ds s n
Signed-solid (plus ds) s n = unfold skip_while is_space in refl
Signed-solid (minus ds) s n = unfold skip_while is_space in refl

-- White space in the format takes the spaces in front of a number.
pub skip_spaces-Signed :
    (n : ℕ) {z : ℤ} (t : Signed) (s : Bytes)
    → IsTextOf z t
    → skip_while is_space (spaces n ++ (sign_text t ++ s)) ≡ sign_text t ++ s
skip_spaces-Signed n t s h = skip_spaces n (sign_text t ++ s) ∙ Signed-solid t s h.numeral

pub scan_item-d64 :
    {z : ℤ} (t : Signed) (s : Bytes)
    → IsTextOf z t
    → fits_64 z ≡ true
    → StopsAt is_digit s
    → scan_item d64 (sign_text t ++ s) ≡ some (int z, s)
unfolding scan_item
scan_item-d64 {z} t s h fits k =
    rw (read_int-Signed t s h.numeral k, h.value, saturate_64_id z fits) refl

pub scan_item-d32 :
    {z : ℤ} (t : Signed) (s : Bytes)
    → IsTextOf z t
    → fits_32 z ≡ true
    → fits_64 z ≡ true
    → StopsAt is_digit s
    → scan_item d32 (sign_text t ++ s) ≡ some (int z, s)
unfolding scan_item
scan_item-d32 {z} t s h fits fits' k =
    rw (read_int-Signed t s h.numeral k, h.value, saturate_64_id z fits', to_int_32_id z fits) refl

digit_plain :
    (d : ℕ)
    → is_digit d ≡ true
    → ((d == b'-' || d == b'+') ≡ false)
      × ((lower d == b'i') ≡ false)
      × ((lower d == b'n') ≡ false)
      × ((lower d == b'x') ≡ false)
unfolding is_digit
digit_plain d h = (ground arith, ground arith, ground arith, ground arith)

-- A numeral with a point behind it begins no hexadecimal number.
not_hex : (d : ℕ) (ds s : Bytes) → AllPass is_digit ds → begins_hex (d ∷ (ds ++ b'.' ∷ s)) ≡ none
not_hex d [] s h = ground arith
not_hex d (e ∷ ds) s h = let (_, _, _, x) = digit_plain e h.0 in ground (arith, x)

read_decimal-point :
    (a b s : Bytes)
    → IsNumeral a
    → AllPass is_digit b
    → read_decimal (a ++ b'.' ∷ (b ++ b']' ∷ s)) ≡ some (b']' ∷ s)
unfolding read_decimal mantissa is_digit
read_decimal-point [] b s n h = absurd (n.some_digit refl)
read_decimal-point (d ∷ ds) b s n h =
    rw
      (
        take_while-append is_digit (d ∷ ds) (b'.' ∷ (b ++ b']' ∷ s)) n.digits refl,
        skip_while-append is_digit (d ∷ ds) (b'.' ∷ (b ++ b']' ∷ s)) n.digits refl,
        skip_while-append is_digit b (b']' ∷ s) h refl,
      )
      refl

-- A number with a fraction in front of a bracket.
pub scan_item-lf :
    (a b s : Bytes)
    → IsNumeral a
    → AllPass is_digit b
    → scan_item lf (a ++ b'.' ∷ (b ++ b']' ∷ s)) ≡ some (real, b']' ∷ s)
unfolding scan_item read_real read_unsigned
scan_item-lf [] b s n h = absurd (n.some_digit refl)
scan_item-lf (d ∷ ds) b s n h =
    let (sign, i, nan, x) = digit_plain d n.digits.0 in
    rw
      (
        numeral_solid (d ∷ ds) (b'.' ∷ (b ++ b']' ∷ s)) n,
        sign,
        i,
        nan,
        not_hex d ds (b ++ b']' ∷ s) n.digits.1,
        read_decimal-point (d ∷ ds) b s n h,
      )
      refl

-- Whether a text has no NUL.
abbrev pub has_no_nul : Bytes → Bool
has_no_nul [] = true
has_no_nul (c ∷ s) = not (c == 0) && has_no_nul s

pub has_no_nul-append :
    (s t : Bytes) → has_no_nul s ≡ true → has_no_nul t ≡ true → has_no_nul (s ++ t) ≡ true
has_no_nul-append [] t h k = k
has_no_nul-append (c ∷ s) t h k = ground (arith, has_no_nul-append s t)

pub c_str_id : (s : Bytes) → has_no_nul s ≡ true → c_str s ≡ s
unfolding c_str take_while
c_str_id [] h = refl
c_str_id (c ∷ s) h = ground (arith, c_str_id s)

pub digits-has_no_nul : (s : Bytes) → AllPass is_digit s → has_no_nul s ≡ true
unfolding is_digit
digits-has_no_nul [] h = refl
digits-has_no_nul (c ∷ s) h = ground (arith, digits-has_no_nul s h.1)

pub spaces-has_no_nul : (n : ℕ) → has_no_nul (spaces n) ≡ true
spaces-has_no_nul zero = refl
spaces-has_no_nul (suc n) = spaces-has_no_nul n

pub Signed-has_no_nul : (t : Signed) → IsNumeral (sign_digits t) → has_no_nul (sign_text t) ≡ true
Signed-has_no_nul (plain ds) n = digits-has_no_nul ds n.digits
Signed-has_no_nul (plus ds) n = digits-has_no_nul ds n.digits
Signed-has_no_nul (minus ds) n = digits-has_no_nul ds n.digits

-- A padded number in front of a text.
pub padded-has_no_nul :
    (n : ℕ) (t : Signed) (s : Bytes)
    → IsNumeral (sign_digits t)
    → has_no_nul s ≡ true
    → has_no_nul (spaces n ++ (sign_text t ++ s)) ≡ true
padded-has_no_nul n t s h k =
    has_no_nul-append (spaces n) (sign_text t ++ s) (spaces-has_no_nul n)
      (has_no_nul-append (sign_text t) s (Signed-has_no_nul t h) k)
