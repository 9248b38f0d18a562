-- ===== src/Number.antt =====
-- The number conversions of the standard library that the sources call: `std::from_chars`,
-- `std::stoi`, `std::to_string`, and the integer and floating-point items of `sscanf`.
pub mod Digits
pub mod Decimal
pub mod Hex
use time_agent.Base.{
  ℕ, zero, suc, ◌+◌, ◌-◌, ◌*◌, ◌/◌, ◌%◌, Bool, true, false, ◌&&◌, ◌||◌, [], ◌∷◌, ◌++◌, Option, none,
  some, Bytes, ltb, leb, ◌==◌, if◌then◌else◌, is_empty, ◌>>=◌,
}
use time_agent.Base.Int.{ℤ, pos, negsuc, signed, fits_32, two_32, two_64}
use time_agent.Text.{is_space, skip_while, take_while}

unfoldable pub is_digit : ℕ → Bool
is_digit c = leb b'0' c && leb c b'9'

unfoldable pub decimal_from : ℕ → Bytes → ℕ
decimal_from acc [] = acc
decimal_from acc (d ∷ ds) = decimal_from (acc * 10 + (d - b'0')) ds

-- The value of a run of decimal digits.
unfoldable pub decimal : Bytes → ℕ
unfolding decimal_from
decimal ds = decimal_from 0 ds

-- A run of digits, at least one, and what stands behind it.
unfoldable pub read_digits : Bytes → Option (Bytes × Bytes)
read_digits s =
    let ds = take_while is_digit s in if is_empty ds then none else some (ds, skip_while is_digit s)

-- `std::from_chars` into a `uint64_t`: no sign, no leading space, refused out of range.
unfoldable pub from_chars_u64 : Bytes → Option (ℕ × Bytes)
from_chars_u64 s = do
  (ds, rest) ← read_digits s
  if ltb (decimal ds) two_64 then some (decimal ds, rest) else none

-- A minus sign, or none, and what stands behind it.
abbrev minus_sign : Bytes → Bool × Bytes
minus_sign [] = (false, [])
minus_sign (c ∷ s) = if c == b'-' then (true, s) else (false, c ∷ s)

abbrev pub any_sign : Bytes → Bool × Bytes
any_sign [] = (false, [])
any_sign (c ∷ s) = if c == b'-' then (true, s) else if c == b'+' then (false, s) else (false, c ∷ s)

-- `std::from_chars` into an `int`: a minus sign may stand in front, a plus sign may not.
unfoldable pub from_chars_int : Bytes → Option ℤ
from_chars_int s =
    let signed_part = minus_sign s in
    do
      (ds, rest) ← read_digits signed_part.1
      let z = signed signed_part.0 (decimal ds)
      if fits_32 z then some z else none

-- The subject sequence of `strtol`: white space, a sign, digits; unbounded here.
unfoldable pub read_int : Bytes → Option (ℤ × Bytes)
read_int s =
    let signed_part = any_sign (skip_while is_space s) in
    do (ds, rest) ← read_digits signed_part.1; some (signed signed_part.0 (decimal ds), rest)

-- `std::stoi`; `none` for the exceptions `invalid_argument` and `out_of_range`.
unfoldable pub stoi : Bytes → Option ℤ
stoi s = do (z, rest) ← read_int s; if fits_32 z then some z else none

is_lower_hex : ℕ → Bool
is_lower_hex c = leb b'a' c && leb c b'f'

is_upper_hex : ℕ → Bool
is_upper_hex c = leb b'A' c && leb c b'F'

unfoldable pub is_hex : ℕ → Bool
unfolding is_lower_hex is_upper_hex
is_hex c = is_digit c || is_lower_hex c || is_upper_hex c

abbrev pub hex_digit : ℕ → ℕ
hex_digit c = if leb c b'9' then c - b'0' else if leb c b'F' then c - b'A' + 10 else c - b'a' + 10

unfoldable pub hex_from : ℕ → Bytes → ℕ
hex_from acc [] = acc
hex_from acc (d ∷ ds) = hex_from (acc * 16 + hex_digit d) ds

abbrev pub skip_0x : Bytes → Bytes
skip_0x (z ∷ x ∷ s) = if z == b'0' && (x == b'x' || x == b'X') then s else z ∷ x ∷ s
skip_0x s = s

-- `strtoul` saturates, negates modulo 2^64, and `%x` keeps the low 32 bits.
abbrev pub hex_word : Bool → ℕ → ℕ
hex_word negative n =
    let magnitude = if ltb n two_64 then n else two_64 - 1 in
    if negative && ltb n two_64 then (two_64 - magnitude) % two_32 else magnitude % two_32

-- The item `%x` into an `unsigned int`.
unfoldable pub read_hex : Bytes → Option (ℕ × Bytes)
unfolding hex_from
read_hex s =
    let signed_part = any_sign (skip_while is_space s) in
    let body = skip_0x signed_part.1 in
    let ds = take_while is_hex body in
    if is_empty ds
    then none
    else some (hex_word signed_part.0 (hex_from 0 ds), skip_while is_hex body)

-- The digits of `n`, most significant first, with fuel for their number.
unfoldable pub digits_fuel : ℕ → ℕ → Bytes
digits_fuel zero n = []
digits_fuel (suc f) n =
    let front = digits_fuel f (n / 10) in
    if ltb n 10 then (n + b'0') ∷ [] else front ++ (n % 10 + b'0') ∷ []

-- `std::to_string` of a number that is not negative; the fuel is enough by Number/Decimal.
unfoldable pub show : ℕ → Bytes
unfolding digits_fuel
show n = digits_fuel (suc n) n

-- `std::to_string` of an `int`.
unfoldable pub to_string : ℤ → Bytes
unfolding show
to_string (pos n) = show n
to_string (negsuc n) = b'-' ∷ show (suc n)
