-- ===== src/Text.antt =====
-- What the sources use of `std::string`, `std::string_view` and `std::istringstream`, over bytes:
-- the searches, `substr`, `>>` into a string, `std::getline`, and `trim` and `firstToken` of
-- src/ptp_topology.cpp, which are made of them.
pub mod Split
pub mod Trim
pub mod Token
pub mod Contains
use time_agent.Base.{
  ℕ, suc, ◌+◌, ◌-◌, Bool, true, false, not, ◌&&◌, ◌||◌, List, [], ◌∷◌, Option, none, some, Bytes,
  leb, ◌==◌, if◌then◌else◌, take, drop,
}

-- `std::isspace` in the C locale.
unfoldable pub is_space : ℕ → Bool
is_space c = c == b' ' || (leb 9 c && leb c 13)

-- The set " \t\r\n" that `trim` strips.
unfoldable pub is_blank : ℕ → Bool
is_blank c = c == b' ' || c == b'\t' || c == b'\r' || c == b'\n'

abbrev pub shift : Option ℕ → Option ℕ
shift none = none
shift (some i) = some (suc i)

abbrev or_here : Bool → Option ℕ → Option ℕ
or_here true none = some 0
or_here false none = none
or_here b (some i) = some (suc i)

-- The index of the first byte that passes the test, `none` for `npos`.
unfoldable pub find_first : (ℕ → Bool) → Bytes → Option ℕ
find_first p [] = none
find_first p (c ∷ s) = if p c then some 0 else shift (find_first p s)

-- The index of the last byte that passes the test: `rfind`, `find_last_not_of`.
unfoldable pub find_last : (ℕ → Bool) → Bytes → Option ℕ
find_last p [] = none
find_last p (c ∷ s) = or_here (p c) (find_last p s)

abbrev pub substr : Bytes → ℕ → ℕ → Bytes
substr s i n = take n (drop i s)

-- `find_last` is never `none` where `find_first` is not: see Text/Trim.
trim_from : Bytes → ℕ → Option ℕ → Bytes
trim_from s first none = drop first s
trim_from s first (some last) = substr s first (last - first + 1)

trim_found : Bytes → Option ℕ → Bytes
unfolding trim_from
trim_found s none = []
trim_found s (some first) = trim_from s first (find_last (λ c. not (is_blank c)) s)

unfoldable pub trim : Bytes → Bytes
unfolding trim_found
trim s = trim_found s (find_first (λ c. not (is_blank c)) s)

unfoldable pub skip_while : (ℕ → Bool) → Bytes → Bytes
skip_while p [] = []
skip_while p (c ∷ s) = if p c then skip_while p s else c ∷ s

unfoldable pub take_while : (ℕ → Bool) → Bytes → Bytes
take_while p [] = []
take_while p (c ∷ s) = if p c then c ∷ take_while p s else []

abbrev pub not_space : ℕ → Bool
not_space c = not (is_space c)

-- `stream >> token`, and what is left in the stream; the extraction fails if the token is empty.
unfoldable pub read_token : Bytes → Bytes × Bytes
read_token s = let t = skip_while is_space s in (take_while not_space t, skip_while not_space t)

unfoldable pub first_token : Bytes → Bytes
unfolding read_token
first_token s = (read_token s).0

-- `value.rfind(prefix, 0) == 0`
unfoldable pub starts_with : Bytes → Bytes → Bool
starts_with [] s = true
starts_with (c ∷ p) [] = false
starts_with (c ∷ p) (d ∷ s) = c == d && starts_with p s

-- `value.find(part) != npos`
unfoldable pub contains : Bytes → Bytes → Bool
contains part [] = starts_with part []
contains part (c ∷ s) = starts_with part (c ∷ s) || contains part s

push_byte : ℕ → List Bytes → List Bytes
push_byte c [] = (c ∷ []) ∷ []
push_byte c (l ∷ ls) = (c ∷ l) ∷ ls

-- The lines that a loop over `std::getline` reads.
unfoldable pub lines : Bytes → List Bytes
unfolding push_byte
lines [] = []
lines (c ∷ s) = let rest = lines s in if c == b'\n' then [] ∷ rest else push_byte c rest
