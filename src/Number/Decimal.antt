-- ===== src/Number/Decimal.antt =====
-- `to_string` prints numerals whose value is the number.
use time_agent.Base.{
  ℕ, zero, suc, ◌+◌, ◌-◌, ◌*◌, ◌/◌, ◌%◌, ◌<◌, true, [], ◌∷◌, ◌++◌, ◌≡◌, ◌≢◌, refl, arith, Bytes,
  AllPass, ltb, Bool-cases, inl, inr, All-append,
}
use time_agent.Number.{is_digit, decimal, decimal_from, digits_fuel, show}
use time_agent.Number.Digits.{IsNumeral}

decimal_from-append :
    (acc : ℕ) (xs : Bytes) (d : ℕ)
    → decimal_from acc (xs ++ d ∷ []) ≡ decimal_from acc xs * 10 + (d - b'0')
unfolding decimal_from
decimal_from-append acc [] d = refl
decimal_from-append acc (x ∷ xs) d = decimal_from-append (acc * 10 + (x - b'0')) xs d

digit-mod : (n : ℕ) → is_digit (n % 10 + b'0') ≡ true
unfolding is_digit
digit-mod n = ground arith

digits_fuel-digits : (f n : ℕ) → AllPass is_digit (digits_fuel f n)
unfolding digits_fuel
digits_fuel-digits zero n = tt
digits_fuel-digits (suc f) n = elim (Bool-cases (ltb n 10)) [
  | inl small ↦ rw small (unfold is_digit in ground arith, tt)
  | inr large ↦ rw large (All-append _ _ _ (digits_fuel-digits f (n / 10)) (digit-mod n, tt))
]

pub append-cons-ne-nil : (xs : Bytes) (d : ℕ) → xs ++ d ∷ [] ≢ []
append-cons-ne-nil [] d e = cc
append-cons-ne-nil (x ∷ xs) d e = cc

digits_fuel-some : (f n : ℕ) → digits_fuel (suc f) n ≢ []
unfolding digits_fuel
digits_fuel-some f n = elim (Bool-cases (ltb n 10)) [
  | inl small ↦ rw small (λ e. cc)
  | inr large ↦ rw large (append-cons-ne-nil (digits_fuel f (n / 10)) (n % 10 + b'0'))
]

digits_fuel-decimal : (f n : ℕ) → n < f → decimal (digits_fuel f n) ≡ n
unfolding digits_fuel decimal
digits_fuel-decimal zero n h = elim h [ ]
digits_fuel-decimal (suc f) n h = elim (Bool-cases (ltb n 10)) [
  | inl small ↦ rw small (omega arith)
  | inr large ↦
      rw large
        (rw decimal_from-append (omega (arith, digits_fuel-decimal f (n / 10) (ground arith))))
]

-- What `to_string` prints of a number is a numeral, and has that number for its value.
pub show-IsNumeral : (n : ℕ) → IsNumeral (show n)
unfolding show
show-IsNumeral n = record {
  digits = digits_fuel-digits (suc n) n;
  some_digit = digits_fuel-some n n;
}

pub decimal-show : (n : ℕ) → decimal (show n) ≡ n
unfolding show
decimal-show n = digits_fuel-decimal (suc n) n (omega arith)
