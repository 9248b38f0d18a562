-- ===== src/Topology/Identity.antt =====
-- Port identities, as `pmc` prints them: the clock identity, a dash and the port number.
use native.Mathlib.Numerals.{add-one}
use time_agent.Base.{
  ℕ, suc, ◌+◌, ◌<◌, false, [], ◌∷◌, ◌++◌, ◌≡◌, ◌≢◌, refl, ap, ◌∙◌, none, some, inl, inr, arith,
  Bytes, AllPass, NonePass, leb, length, take, drop, Bool-cases, Option-cases, length-append,
  append-nil, All-append,
}
use time_agent.Base.Int.{ℤ, pos, two_31}
use time_agent.Text.{find_last, is_space}
use time_agent.Text.Token.{IsWord, first_token_id}
use time_agent.Number.{is_digit, decimal, read_int, stoi, show}
use time_agent.Number.Digits.{IsNumeral, read_int-numeral, read_int-nonneg, digit-solid}
use time_agent.Number.Decimal.{show-IsNumeral, decimal-show}
use time_agent.Topology.{
  is_dash, parse_port_number, parse_clock_identity, port_behind, clock_before,
}

find_last-none : (s : Bytes) → find_last is_dash s ≡ none → NonePass is_dash s
unfolding find_last
find_last-none [] h = tt
find_last-none (c ∷ s) h = ground (arith, find_last-none s)

find_last-no_dash : (b : Bytes) → NonePass is_dash b → find_last is_dash b ≡ none
unfolding find_last
find_last-no_dash [] h = refl
find_last-no_dash (c ∷ b) h = rw (find_last-no_dash b h.1) (rw (h.0))

-- The last dash of a text, with none behind it.
find_last-dash :
    (a b : Bytes) → NonePass is_dash b → find_last is_dash (a ++ b'-' ∷ b) ≡ some (length a)
unfolding find_last
find_last-dash [] b h = rw (find_last-no_dash b h)
find_last-dash (c ∷ a) b h = rw (find_last-dash a b h) (ground arith)

take-length : (a b : Bytes) → take (length a) (a ++ b) ≡ a
take-length [] b = refl
take-length (c ∷ a) b = ap (◌∷◌ c) (take-length a b)

drop-length : (a b : Bytes) (c : ℕ) → drop (suc (length a)) (a ++ c ∷ b) ≡ b
drop-length [] b c = refl
drop-length (d ∷ a) b c = drop-length a b c

digits-no_dash : (ds : Bytes) → AllPass is_digit ds → NonePass is_dash ds
unfolding is_digit
digits-no_dash [] h = tt
digits-no_dash (d ∷ ds) h = (ground arith, digits-no_dash ds h.1)

digits-IsWord : (ds : Bytes) → AllPass is_digit ds → IsWord ds
digits-IsWord [] h = tt
digits-IsWord (d ∷ ds) h = (rw (digit-solid d h.0), digits-IsWord ds h.1)

stoi-numeral : (ds : Bytes) → IsNumeral ds → decimal ds < two_31 → stoi ds ≡ some (pos (decimal ds))
unfolding stoi
stoi-numeral ds n h =
    rw (← append-nil ds) (rw (read_int-numeral ds [] n tt) (rw append-nil (ground arith)))

long_enough : (a b : Bytes) → b ≢ [] → leb (length (a ++ b'-' ∷ b)) (length a + 1) ≡ false
long_enough a [] h = absurd (h refl)
long_enough a (d ∷ b) h = ground (arith, length-append a (b'-' ∷ d ∷ b))

clock-of :
    (clock ds : Bytes)
    → IsWord clock
    → IsWord ds
    → find_last is_dash (clock ++ b'-' ∷ ds) ≡ some (length clock)
    → parse_clock_identity (clock ++ b'-' ∷ ds) ≡ clock
unfolding parse_clock_identity is_space
clock-of clock ds w v e =
    rw (first_token_id (clock ++ b'-' ∷ ds) (All-append _ clock _ w (refl, v)))
      (rw (e, clock_before) (take-length clock (b'-' ∷ ds)))

port-of :
    (clock : Bytes) (port : ℕ)
    → find_last is_dash (clock ++ b'-' ∷ show port) ≡ some (length clock)
    → port < two_31
    → parse_port_number (clock ++ b'-' ∷ show port) ≡ some (pos port)
unfolding parse_port_number
port-of clock port e h =
    let n = show-IsNumeral port in
    rw (e, port_behind)
      (rw (long_enough clock (show port) n.some_digit) (
        rw (add-one, drop-length clock (show port) b'-')
          (stoi-numeral (show port) n (omega (arith, decimal-show port)) ∙ rw decimal-show)))

-- The identity of a port gives back its clock and its number, for every clock identity without
-- white space, dashes included, and every port number below 2^31.
pub parse_identity :
    (clock : Bytes) (port : ℕ)
    → IsWord clock
    → port < two_31
    → (parse_clock_identity (clock ++ b'-' ∷ show port) ≡ clock)
      × (parse_port_number (clock ++ b'-' ∷ show port) ≡ some (pos port))
parse_identity clock port w h =
    let n = show-IsNumeral port in
    let dash = find_last-dash clock (show port) (digits-no_dash (show port) n.digits) in
    (
      clock-of clock (show port) w (digits-IsWord (show port) n.digits) dash,
      port-of clock port dash h,
    )

behind_dash : (s : Bytes) (i : ℕ) → find_last is_dash s ≡ some i → NonePass is_dash (drop (suc i) s)
unfolding find_last
behind_dash [] i h = absurd (cc)
behind_dash (c ∷ s) i h = elim (Option-cases (find_last is_dash s)) [
  | inl e ↦ ground (arith, find_last-none s e)
  | inr (j, e) ↦ ground (arith, behind_dash s j e)
]

-- A number that `stoi` reads from a text without a dash is not negative, and fits an `int`.
stoi_range :
    (s : Bytes) {z : ℤ}
    → NonePass is_dash s
    → stoi s ≡ some z
    → (n : ℕ) × (z ≡ pos n) × (n < two_31)
unfolding stoi
stoi_range s h e = elim (Option-cases (read_int s)) [
  | inl f ↦ ground arith
  | inr ((y, rest), f) ↦ let (n, g) = read_int-nonneg s h f in (n, ground arith, ground arith)
]

port_behind_range :
    (s : Bytes) (i : ℕ) {z : ℤ}
    → find_last is_dash s ≡ some i
    → port_behind s (some i) ≡ some z
    → (n : ℕ) × (z ≡ pos n) × (n < two_31)
unfolding port_behind
port_behind_range s i f h = elim (Bool-cases (leb (length s) (i + 1))) [
  | inl e ↦ ground arith
  | inr e ↦ stoi_range (drop (i + 1) s) (rw add-one (behind_dash s i f)) (rw e at h)
]

-- A port number that was read is never negative, and fits an `int`.
pub parse_port_number_range :
    (s : Bytes) {z : ℤ} → parse_port_number s ≡ some z → (n : ℕ) × (z ≡ pos n) × (n < two_31)
unfolding parse_port_number
parse_port_number_range s h = elim (Option-cases (find_last is_dash s)) [
  | inl f ↦ absurd (unfold port_behind in ground arith)
  | inr (i, f) ↦ port_behind_range s i f (rw f at h)
]
