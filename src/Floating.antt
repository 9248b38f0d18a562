-- ===== src/Floating.antt =====
-- `double` is not modelled: its type and the operations that the sources use are a parameter, with
-- what is documented of them as laws.
use Prim.Native.Nat.{◌<◌}
use time_agent.Base.{ℕ, ◌∷◌, ◌++◌, ◌≡◌, Option, some, Bytes, AllPass, ◌==◌}
use time_agent.Base.Int.{ℤ, pos}
use time_agent.Number.{decimal}
use time_agent.Number.Digits.{IsNumeral}

pub record Floating : Type 1 where
  pub Double : Type 0
  -- `std::stod`; `none` for the exceptions that it throws.
  pub stod : Bytes → Option Double
  pub llround : Double → ℤ
  -- Conversion of a `uint64_t`.
  pub of_u64 : ℕ → Double
  pub sub : Double → Double → Double
  pub mul : Double → Double → Double
  pub div : Double → Double → Double

abbrev pub two_53 : ℕ
two_53 = 9007199254740992

-- Numbers below 2^53 are exact, read with no fraction or with a fraction of zeros.
pub record IsExact (fl : Floating) : Type 0 where
  pub llround-of_u64 : (n : ℕ) → n < two_53 → fl.llround (fl.of_u64 n) ≡ pos n
  pub stod-numeral :
      (ds : Bytes) → IsNumeral ds → decimal ds < two_53 → fl.stod ds ≡ some (fl.of_u64 (decimal ds))
  pub stod-zeros :
      (ds zs : Bytes)
      → IsNumeral ds
      → AllPass (λ c. c == b'0') zs
      → decimal ds < two_53
      → fl.stod (ds ++ b'.' ∷ zs) ≡ some (fl.of_u64 (decimal ds))
