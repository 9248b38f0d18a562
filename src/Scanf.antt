-- ===== src/Scanf.antt =====
-- `sscanf` with the directives that the sources use, on the text up to its first NUL byte.
-- A conversion that overflows is undefined in C; this is what glibc does: `strtol` saturates, and
-- an `int` takes the low 32 bits. The number that `%lf` reads is never used by the sources, so
-- only its extent in the text is modelled.
pub mod Real
pub mod Kinds
pub mod Stores
pub mod Steps
pub mod Tokens
pub mod Padded
use time_agent.Base.{
  ℕ, not, List, [], ◌∷◌, Option, none, some, Bytes, String, codes, map, ◌==◌, if◌then◌else◌, take,
  drop, is_empty, length, ◌>>=◌,
}
use time_agent.Base.Int.{ℤ, saturate_64, to_int_32}
use time_agent.Text.{is_space, not_space, skip_while, take_while}
use time_agent.Number.{read_int, read_hex}
use time_agent.Scanf.Real.{read_real}

-- `%lf`, `%lld`, `%d`, `%x`, `%s`, `%<width>s` and `%<width>[^<byte>]`.
pub data Item : Type 0 where
  lf d64 d32 x32 word : Item
  str : ℕ → Item
  until : ℕ → ℕ → Item

-- White space in the format, any other byte of it, `%…` and `%*…`.
pub data Directive : Type 0 where
  ws : Directive
  lit : ℕ → Directive
  item skip : Item → Directive

pub data Value : Type 0 where
  real : Value
  int : ℤ → Value
  unsigned : ℕ → Value
  text : Bytes → Value

-- What `c_str()` shows to a C function.
unfoldable pub c_str : Bytes → Bytes
c_str = take_while (λ c. not (c == 0))

-- A text that was read, which must not be empty, and what stands behind it.
abbrev pub cut : Bytes → Bytes → Option (Value × Bytes)
cut token s = if is_empty token then none else some (text token, drop (length token) s)

unfoldable pub scan_item : Item → Bytes → Option (Value × Bytes)
scan_item lf s = do rest ← read_real (skip_while is_space s); some (real, rest)
scan_item d64 s = do (z, rest) ← read_int s; some (int (saturate_64 z), rest)
scan_item d32 s = do (z, rest) ← read_int s; some (int (to_int_32 (saturate_64 z)), rest)
scan_item x32 s = do (n, rest) ← read_hex s; some (unsigned n, rest)
scan_item word s = let t = skip_while is_space s in cut (take_while not_space t) t
scan_item (str w) s = let t = skip_while is_space s in cut (take w (take_while not_space t)) t
scan_item (until c w) s = cut (take w (take_while (λ d. not (d == c)) s)) s

-- The values converted, in order, up to the first directive that fails; `sscanf` returns their
-- number.
unfoldable pub scan : List Directive → Bytes → List Value
scan [] s = []
scan (ws ∷ ds) s = scan ds (skip_while is_space s)
scan (lit c ∷ ds) [] = []
scan (lit c ∷ ds) (d ∷ s) = if d == c then scan ds s else []
scan (item i ∷ ds) s = elim (scan_item i s) [ none ↦ [] | some (v, rest) ↦ v ∷ scan ds rest ]
scan (skip i ∷ ds) s = elim (scan_item i s) [ none ↦ [] | some (v, rest) ↦ scan ds rest ]

unfoldable pub sscanf : Bytes → List Directive → List Value
unfolding scan c_str
sscanf s ds = scan ds (c_str s)

unfoldable pub literal_byte : ℕ → Directive
literal_byte c = if c == b' ' then ws else lit c

-- The part of a format that has no conversion in it.
unfoldable pub literal : String → List Directive
unfolding literal_byte
literal s = map literal_byte (codes s)

-- The stores that `sscanf` makes through its pointer arguments, one for each value.
unfoldable pub assign {ℓ} : {S : Type ℓ} → List (Value → S → S) → List Value → S → S
assign [] vs s = s
assign (f ∷ fs) [] s = s
assign (f ∷ fs) (v ∷ vs) s = assign fs vs (f v s)
