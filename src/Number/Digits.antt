-- ===== src/Number/Digits.antt =====
-- Runs of digits, and the conversions that read them.
use time_agent.Base.{
  ℕ, Bool, true, false, [], ◌∷◌, ◌++◌, ◌≡◌, ◌≢◌, refl, none, some, arith, Bytes, AllPass, NonePass,
  ltb, ◌==◌, if◌then◌else◌, Bool-cases, inl, inr,
}
use time_agent.Base.Int.{ℤ, pos, signed, two_64}
use time_agent.Text.{is_space, skip_while}
use time_agent.Text.Split.{StopsAt, take_while-append, skip_while-append}
use time_agent.Number.{is_digit, decimal, read_digits, from_chars_u64, read_int, any_sign}

-- A run of decimal digits that is not empty.
pub record IsNumeral (ds : Bytes) : Type 0 where
  pub digits : AllPass is_digit ds
  pub some_digit : ds ≢ []

pub digit-solid : (c : ℕ) → is_digit c ≡ true → is_space c ≡ false
unfolding is_digit is_space
digit-solid c h = ground arith

pub digit-no_sign : (c : ℕ) → is_digit c ≡ true → ((c == b'-') ≡ false) × ((c == b'+') ≡ false)
unfolding is_digit
digit-no_sign c h = ground arith

-- A numeral is read whole, up to the first byte that is no digit.
pub read_digits-numeral :
    (ds s : Bytes) → IsNumeral ds → StopsAt is_digit s → read_digits (ds ++ s) ≡ some (ds, s)
unfolding read_digits
read_digits-numeral [] s n k = absurd (n.some_digit refl)
read_digits-numeral (d ∷ ds) s n k =
    rw (take_while-append is_digit (d ∷ ds) s n.digits k)
      (rw (skip_while-append is_digit (d ∷ ds) s n.digits k))

pub from_chars_u64-numeral :
    (ds s : Bytes)
    → IsNumeral ds
    → StopsAt is_digit s
    → from_chars_u64 (ds ++ s) ≡ (if ltb (decimal ds) two_64 then some (decimal ds, s) else none)
unfolding from_chars_u64
from_chars_u64-numeral ds s n k = rw (read_digits-numeral ds s n k)

pub skip_space-numeral : (ds s : Bytes) → IsNumeral ds → skip_while is_space (ds ++ s) ≡ ds ++ s
unfolding skip_while
skip_space-numeral [] s n = absurd (n.some_digit refl)
skip_space-numeral (d ∷ ds) s n = rw (digit-solid d n.digits.0)

-- A numeral without a sign is read as a number that is not negative.
pub read_int-numeral :
    (ds s : Bytes)
    → IsNumeral ds
    → StopsAt is_digit s
    → read_int (ds ++ s) ≡ some (pos (decimal ds), s)
unfolding read_int
read_int-numeral [] s n k = absurd (n.some_digit refl)
read_int-numeral (d ∷ ds) s n k =
    let (m, p) = digit-no_sign d n.digits.0 in
    rw (skip_space-numeral (d ∷ ds) s n) (rw m (rw p (rw (read_digits-numeral (d ∷ ds) s n k))))

-- The text of an integer: digits, with a sign or without one.
pub data Signed : Type 0 where
  plain plus minus : Bytes → Signed

abbrev pub sign_text : Signed → Bytes
sign_text (plain ds) = ds
sign_text (plus ds) = b'+' ∷ ds
sign_text (minus ds) = b'-' ∷ ds

abbrev pub sign_digits : Signed → Bytes
sign_digits (plain ds) = ds
sign_digits (plus ds) = ds
sign_digits (minus ds) = ds

abbrev pub sign_value : Signed → ℤ
sign_value (plain ds) = pos (decimal ds)
sign_value (plus ds) = pos (decimal ds)
sign_value (minus ds) = signed true (decimal ds)

pub read_int-Signed :
    (t : Signed) (s : Bytes)
    → IsNumeral (sign_digits t)
    → StopsAt is_digit s
    → read_int (sign_text t ++ s) ≡ some (sign_value t, s)
read_int-Signed (plain ds) s n k = read_int-numeral ds s n k
read_int-Signed (plus ds) s n k =
    unfold read_int skip_while is_space in rw (read_digits-numeral ds s n k)
read_int-Signed (minus ds) s n k =
    unfold read_int skip_while is_space in rw (read_digits-numeral ds s n k)

skip_while-NonePass : (p q : ℕ → Bool) (s : Bytes) → NonePass p s → NonePass p (skip_while q s)
unfolding skip_while
skip_while-NonePass p q [] h = tt
skip_while-NonePass p q (c ∷ s) h = elim (Bool-cases (q c)) [
  | inl t ↦ rw t (skip_while-NonePass p q s h.1)
  | inr f ↦ rw f h
]

any_sign-plain : (t : Bytes) → NonePass (λ c. c == b'-') t → (any_sign t).0 ≡ false
any_sign-plain [] h = refl
any_sign-plain (c ∷ t) h = ground arith

-- A number that is read from a text without a minus sign is not negative.
pub read_int-nonneg :
    (s : Bytes) {z : ℤ} {rest : Bytes}
    → NonePass (λ c. c == b'-') s
    → read_int s ≡ some (z, rest)
    → (n : ℕ) × (z ≡ pos n)
unfolding read_int
read_int-nonneg s h e = ground (
  arith,
  any_sign-plain (skip_while is_space s) (skip_while-NonePass (λ c. c == b'-') is_space s h),
)
