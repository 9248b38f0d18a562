-- ===== src/Scanf/Stores.antt =====
-- How many bytes the stores of `sscanf` take.
use time_agent.Base.{
  ℕ, zero, suc, is_empty, Bool-cases, Bool, ◌+◌, ◌≤◌, ◌<◌, true, List, [], ◌∷◌, Option, none, some,
  Bytes, ◌≡◌, ◌⊎◌, inl, inr, arith, refl, length, take,
}
use time_agent.Base.Int.{
  fits_32, fits_64, saturate_64, to_int_32, saturate_64-fits_64, to_int_32-fits_32, two_32,
}
use time_agent.Number.{read_int, read_hex, hex_word, skip_0x, any_sign, is_hex, hex_from}
use time_agent.Text.{take_while, skip_while, is_space}
use time_agent.Scanf.{
  Item, lf, d64, d32, x32, word, str, until, Directive, Value, real, int, unsigned, text, scan_item,
  sscanf, cut, c_str,
}
use time_agent.Scanf.Kinds.{FitsBy, over, also, Yields, items, scan-FitsBy, stored-Yields}

-- The value fits a variable of this many bytes: a text with its NUL, an integer in two's complement.
abbrev pub IsWithin : ℕ → Value → Type 0
IsWithin n real = n ≡ 8
IsWithin n (int z) = ((n ≡ 4) × (fits_32 z ≡ true)) ⊎ ((n ≡ 8) × (fits_64 z ≡ true))
IsWithin n (unsigned k) = (n ≡ 4) × (k < two_32)
IsWithin n (text s) = length s + 1 ≤ n

-- The values, one after the other, fit the first of these variables.
pub data AllWithin : List ℕ → List Value → Type 0 where
  stored_none : {ns : List ℕ} → AllWithin ns []
  stored :
      {n : ℕ} {v : Value} {ns : List ℕ} {vs : List Value}
      → IsWithin n v
      → AllWithin ns vs
      → AllWithin (n ∷ ns) (v ∷ vs)

-- The bytes that a directive may store; `%s` without a width may store any number.
abbrev pub width : Item → Option ℕ
width lf = some 8
width d64 = some 8
width d32 = some 4
width x32 = some 4
width word = none
width (str w) = some (suc w)
width (until c w) = some (suc w)

abbrev IsWithinItem : Option ℕ → Value → Type 0
IsWithinItem none v = Unit
IsWithinItem (some n) v = IsWithin n v

abbrev OfItem : Item → Value → Type 0
OfItem i v = IsWithinItem (width i) v

length-take : (n : ℕ) (s : Bytes) → length (take n s) ≤ n
length-take zero s = omega arith
length-take (suc n) [] = omega arith
length-take (suc n) (c ∷ s) = omega (arith, length-take n s)

cut-Within :
    (i : Item) (w : ℕ) (token s : Bytes)
    → width i ≡ some (suc w)
    → length token ≤ w
    → Yields OfItem i (cut token s)
cut-Within i w [] s e le = tt
cut-Within i w (c ∷ token) s e le = rw e (omega (arith, le))

hex_word_bound : (negative : Bool) (n : ℕ) → hex_word negative n < two_32
hex_word_bound negative n = ground arith

abbrev Stored : Item → Option (Value × Bytes) → Type 0
Stored i o = Yields OfItem i o

read_hex-Stored : (s : Bytes) → Stored x32 (scan_item x32 s)
unfolding scan_item read_hex
read_hex-Stored s =
    elim (Bool-cases
      (is_empty (take_while is_hex (skip_0x (any_sign (skip_while is_space s)).1)))) [
        | inl t ↦ rw t tt
        | inr f ↦ rw f (
          refl,
          hex_word_bound (any_sign (skip_while is_space s)).0
              (hex_from 0 (take_while is_hex (skip_0x (any_sign (skip_while is_space s)).1))),
        )
      ]

cut-word : (token s : Bytes) → Stored word (cut token s)
cut-word [] s = tt
cut-word (c ∷ token) s = tt

scan_item-Stored : (i : Item) (s : Bytes) → Stored i (scan_item i s)
unfolding scan_item
scan_item-Stored lf s = stored-Yields OfItem lf _ (λ r. real) (λ r. r) (λ r. refl)
scan_item-Stored d64 s =
    stored-Yields OfItem d64 (read_int s) (λ x. int (saturate_64 x.0)) (λ x. x.1)
      (λ x. inr (refl, saturate_64-fits_64 x.0))
scan_item-Stored d32 s =
    stored-Yields OfItem d32 (read_int s) (λ x. int (to_int_32 (saturate_64 x.0))) (λ x. x.1)
      (λ x. inl (refl, to_int_32-fits_32 (saturate_64 x.0)))
scan_item-Stored x32 s = read_hex-Stored s
scan_item-Stored word s = cut-word _ _
scan_item-Stored (str w) s = cut-Within (str w) w _ _ refl (length-take w _)
scan_item-Stored (until c w) s = cut-Within (until c w) w _ _ refl (length-take w _)

-- The variables have the widths of the items, none of which is unbounded.
abbrev pub HaveWidths : List ℕ → List Item → Type 0
HaveWidths [] [] = Unit
HaveWidths [] (i ∷ is) = ⊥
HaveWidths (n ∷ ns) [] = ⊥
HaveWidths (n ∷ ns) (i ∷ is) = (width i ≡ some n) × HaveWidths ns is

FitsBy-AllWithin :
    (ns : List ℕ) (is : List Item) (vs : List Value)
    → HaveWidths ns is
    → FitsBy OfItem is vs
    → AllWithin ns vs
FitsBy-AllWithin ns is vs h over = stored_none
FitsBy-AllWithin [] (i ∷ is) (v ∷ vs) h (also p f) = absurd h
FitsBy-AllWithin (n ∷ ns) (i ∷ is) (v ∷ vs) h (also p f) =
    stored (rw h.0 at p) (FitsBy-AllWithin ns is vs h.1 f)

-- A format whose items have the widths of the variables never stores outside of them.
pub sscanf-AllWithin :
    (ns : List ℕ) (ds : List Directive) (s : Bytes)
    → HaveWidths ns (items ds)
    → AllWithin ns (sscanf s ds)
unfolding sscanf
sscanf-AllWithin ns ds s h =
    FitsBy-AllWithin ns (items ds) _ h (scan-FitsBy _ scan_item-Stored ds (c_str s))
