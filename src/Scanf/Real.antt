-- ===== src/Scanf/Real.antt =====
-- The extent of a floating-point number for `%lf`, by the C standard: the longest prefix of the
-- text that could begin a number has to be a number.
use time_agent.Base.{
  ℕ, Bool, true, false, ◌&&◌, ◌||◌, [], ◌∷◌, Option, none, some, Bytes, codes, ◌==◌, leb, ◌+◌,
  if◌then◌else◌, is_empty, ◌>>=◌,
}
use time_agent.Text.{skip_while, take_while}
use time_agent.Number.{is_digit, is_hex, read_digits}

abbrev pub drop_sign : Bytes → Bytes
drop_sign [] = []
drop_sign (c ∷ s) = if c == b'-' || c == b'+' then s else c ∷ s

-- Digits before and behind an optional point, at least one, and what stands behind them.
abbrev pub fraction : (ℕ → Bool) → Bool → Bytes → Option Bytes
fraction p seen [] = if seen then some [] else none
fraction p seen (c ∷ s) =
    if c == b'.'
    then (if seen
        then some (skip_while p s)
        else if is_empty (take_while p s)
        then none
        else some (skip_while p s))
    else if seen
    then some (c ∷ s)
    else none

unfoldable pub mantissa : (ℕ → Bool) → Bytes → Option Bytes
mantissa p s = fraction p (if is_empty (take_while p s) then false else true) (skip_while p s)

-- An exponent behind its mark, one of two letters; without a mark there is none.
abbrev pub exponent : ℕ → ℕ → Bytes → Option Bytes
exponent e e' [] = some []
exponent e e' (c ∷ s) =
    if c == e || c == e'
    then (do (ds, rest) ← read_digits (drop_sign s); some rest)
    else some (c ∷ s)

unfoldable pub read_decimal : Bytes → Option Bytes
unfolding mantissa
read_decimal s = mantissa is_digit s >>= exponent b'e' b'E'

read_hexadecimal : Bytes → Option Bytes
unfolding mantissa
read_hexadecimal s = mantissa is_hex s >>= exponent b'p' b'P'

abbrev pub lower : ℕ → ℕ
lower c = if leb b'A' c && leb c b'Z' then c + 32 else c

-- The text behind a word, without regard to case.
expect : Bytes → Bytes → Option Bytes
expect [] s = some s
expect (c ∷ w) [] = none
expect (c ∷ w) (d ∷ s) = if lower d == c then expect w s else none

abbrev is_letter : ℕ → Bool
is_letter c = leb b'a' (lower c) && leb (lower c) b'z'

read_infinity : Bytes → Option Bytes
unfolding expect
read_infinity [] = some []
read_infinity (c ∷ s) = if lower c == b'i' then expect (codes "nity") s else some (c ∷ s)

close_payload : Bytes → Option Bytes
close_payload [] = none
close_payload (c ∷ s) = if c == b')' then some s else none

read_payload : Bytes → Option Bytes
unfolding close_payload
read_payload [] = some []
read_payload (c ∷ s) =
    if c == b'('
    then close_payload (skip_while (λ d. is_letter d || is_digit d || d == b'_') s)
    else some (c ∷ s)

abbrev pub begins_hex : Bytes → Option Bytes
begins_hex (z ∷ x ∷ s) = if z == b'0' && lower x == b'x' then some s else none
begins_hex s = none

-- A number without its sign, told apart by its first bytes.
unfoldable pub read_unsigned : Bytes → Option Bytes
unfolding read_decimal read_hexadecimal read_infinity read_payload expect
read_unsigned [] = none
read_unsigned (c ∷ s) =
    if lower c == b'i'
    then (expect (codes "nf") s >>= read_infinity)
    else if lower c == b'n'
    then (expect (codes "an") s >>= read_payload)
    else elim (begins_hex (c ∷ s)) [
      | none ↦ read_decimal (c ∷ s)
      | some body ↦ read_hexadecimal body
    ]

-- What stands behind the number, if there is one; a sign may stand in front.
unfoldable pub read_real : Bytes → Option Bytes
unfolding read_unsigned
read_real s = read_unsigned (drop_sign s)
