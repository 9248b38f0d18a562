-- ===== src/Number/Hex.antt =====
-- Hexadecimal numbers of a fixed width, as `printf` prints them with `%04x`, and how `sscanf` reads
-- them.
use time_agent.Base.{
  Bool, ℕ, zero, suc, ◌+◌, ◌-◌, ◌*◌, ◌/◌, ◌%◌, ◌^◌, ◌<◌, true, false, [], ◌∷◌, ◌++◌, ◌≡◌, ◌≢◌, refl,
  arith, Bytes, AllPass, All-append, ltb, ◌==◌, ◌||◌, if◌then◌else◌, some,
}
use time_agent.Base.Int.{two_32}
use time_agent.Text.{is_space, skip_while}
use time_agent.Text.Split.{StopsAt, take_while-append, skip_while-append}
use time_agent.Number.Decimal.{append-cons-ne-nil}
use time_agent.Number.{is_digit, is_hex, hex_digit, hex_from, skip_0x, hex_word, read_hex}

abbrev pub hex_char : ℕ → ℕ
hex_char d = if ltb d 10 then d + b'0' else d - 10 + b'a'

-- The last digits of the number, this many.
unfoldable pub hex : ℕ → ℕ → Bytes
hex zero n = []
hex (suc w) n = hex w (n / 16) ++ hex_char (n % 16) ∷ []

hex_char-is_hex : (d : ℕ) → d < 16 → is_hex (hex_char d) ≡ true
unfolding is_hex is_digit
hex_char-is_hex d h = ground (arith, h)

hex_digit-hex_char : (d : ℕ) → d < 16 → hex_digit (hex_char d) ≡ d
hex_digit-hex_char d h = ground (arith, h)

pub hex-digits : (w n : ℕ) → AllPass is_hex (hex w n)
unfolding hex
hex-digits zero n = tt
hex-digits (suc w) n =
    All-append _ _ _ (hex-digits w (n / 16)) (hex_char-is_hex (n % 16) (omega arith), tt)

hex_from-append :
    (acc : ℕ) (xs : Bytes) (d : ℕ)
    → hex_from acc (xs ++ d ∷ []) ≡ hex_from acc xs * 16 + hex_digit d
unfolding hex_from
hex_from-append acc [] d = refl
hex_from-append acc (x ∷ xs) d = hex_from-append (acc * 16 + hex_digit x) xs d

hex_from-hex : (w n : ℕ) → n < 16 ^ w → hex_from 0 (hex w n) ≡ n
unfolding hex hex_from
hex_from-hex zero n h = omega (arith, h)
hex_from-hex (suc w) n h =
    rw
      (
        hex_from-append 0 (hex w (n / 16)) (hex_char (n % 16)),
        hex_digit-hex_char (n % 16) (omega arith),
        hex_from-hex w (n / 16) (omega (arith, h)),
      )
      (omega arith)

-- A digit is no space, no sign and no 'x'.
hex-plain :
    (c : ℕ)
    → is_hex c ≡ true
    → (is_space c ≡ false)
      × ((c == b'-') ≡ false)
      × ((c == b'+') ≡ false)
      × ((c == b'x' || c == b'X') ≡ false)
unfolding is_hex is_digit is_space
hex-plain c h = (ground arith, ground arith, ground arith, ground arith)

abbrev is_x : ℕ → Bool
is_x c = c == b'x' || c == b'X'

skip_0x-plain : (d : ℕ) (s : Bytes) → StopsAt is_x s → skip_0x (d ∷ s) ≡ d ∷ s
skip_0x-plain d [] k = refl
skip_0x-plain d (x ∷ s) k = ground (arith, k)

-- What ends a numeral.
abbrev pub goes_on : ℕ → Bool
goes_on c = is_hex c || is_x c

digits-StopsAt_x :
    (ds rest : Bytes) → AllPass is_hex ds → StopsAt goes_on rest → StopsAt is_x (ds ++ rest)
digits-StopsAt_x [] [] a k = tt
digits-StopsAt_x [] (r ∷ rest) a k = ground (arith, k)
digits-StopsAt_x (d ∷ ds) rest a k = (let (_, _, _, x) = hex-plain d a.0 in x)

StopsAt-goes_on : (rest : Bytes) → StopsAt goes_on rest → StopsAt is_hex rest
StopsAt-goes_on [] k = tt
StopsAt-goes_on (r ∷ rest) k = ground (arith, k)

-- A numeral is read whole where what follows is no digit and no 'x'.
read_hex-digits :
    (ds rest : Bytes)
    → AllPass is_hex ds
    → ds ≢ []
    → StopsAt goes_on rest
    → read_hex (ds ++ rest) ≡ some (hex_word false (hex_from 0 ds), rest)
unfolding read_hex skip_while
read_hex-digits [] rest a n k = absurd (n refl)
read_hex-digits (d ∷ ds) rest a n k =
    let (space, minus, plus, x) = hex-plain d a.0 in
    rw
      (
        space,
        minus,
        plus,
        skip_0x-plain d (ds ++ rest) (digits-StopsAt_x ds rest a.1 k),
        take_while-append is_hex (d ∷ ds) rest a (StopsAt-goes_on rest k),
        skip_while-append is_hex (d ∷ ds) rest a (StopsAt-goes_on rest k),
      )
      refl

hex-some : (w n : ℕ) → hex (suc w) n ≢ []
unfolding hex
hex-some w n = append-cons-ne-nil (hex w (n / 16)) (hex_char (n % 16))

-- A number that fits the width is read back.
pub read_hex-hex :
    (w n : ℕ) (rest : Bytes)
    → n < 16 ^ suc w
    → n < two_32
    → StopsAt goes_on rest
    → read_hex (hex (suc w) n ++ rest) ≡ some (n, rest)
read_hex-hex w n rest h fits k =
    rw
      (
        read_hex-digits (hex (suc w) n) rest (hex-digits (suc w) n) (hex-some w n) k,
        hex_from-hex (suc w) n h,
      )
      (ground (arith, fits))
