-- ===== src/Scanf/Kinds.antt =====
-- The kinds of the values that `sscanf` stores.
use time_agent.Base.{
  ℕ, List, [], ◌∷◌, Option, none, some, Bytes, inl, inr, Option-cases, ◌==◌, Bool-cases, ◌>>=◌,
}
use time_agent.Base.Int.{ℤ, saturate_64, to_int_32}
use time_agent.Scanf.{
  Item, lf, d64, d32, x32, word, str, until, Directive, ws, lit, item, skip, Value, real, int,
  unsigned, text, scan_item, scan, cut,
}

-- The value that a directive yields is of the kind that its pointer argument has.
pub data Kind : Item → Value → Type 0 where
  is_real : Kind lf real
  is_int64 : {z : ℤ} → Kind d64 (int z)
  is_int32 : {z : ℤ} → Kind d32 (int z)
  is_unsigned : {n : ℕ} → Kind x32 (unsigned n)
  is_word : {s : Bytes} → Kind word (text s)
  is_str : {w : ℕ} {s : Bytes} → Kind (str w) (text s)
  is_until : {c w : ℕ} {s : Bytes} → Kind (until c w) (text s)

-- The directives of a format that store a value.
abbrev pub items : List Directive → List Item
items [] = []
items (ws ∷ ds) = items ds
items (lit c ∷ ds) = items ds
items (item i ∷ ds) = i ∷ items ds
items (skip i ∷ ds) = items ds

-- Values of the first of these items, in order, each with this property of its item and itself.
pub data FitsBy (P : Item → Value → Type 0) : List Item → List Value → Type 0 where
  over : {is : List Item} → FitsBy P is []
  also :
      {i : Item} {v : Value} {is : List Item} {vs : List Value}
      → P i v
      → FitsBy P is vs
      → FitsBy P (i ∷ is) (v ∷ vs)

abbrev pub Fits : List Item → List Value → Type 0
Fits is vs = FitsBy Kind is vs

-- The value that was converted, if there is one.
abbrev pub Yields : (Item → Value → Type 0) → Item → Option (Value × Bytes) → Type 0
Yields P i none = Unit
Yields P i (some (v, rest)) = P i v

abbrev KindOf : Item → Option (Value × Bytes) → Type 0
KindOf i o = Yields Kind i o

pub stored-Yields {ℓ} :
    {A : Type ℓ} (P : Item → Value → Type 0) (i : Item) (o : Option A) (value : A → Value)
    (rest : A → Bytes)
    → ((a : A) → P i (value a))
    → Yields P i (o >>= λ a. some (value a, rest a))
stored-Yields P i none value rest h = tt
stored-Yields P i (some a) value rest h = h a

cut-Kind : (i : Item) (token s : Bytes) → Kind i (text token) → KindOf i (cut token s)
cut-Kind i [] s h = tt
cut-Kind i (c ∷ token) s h = h

scan_item-Kind : (i : Item) (s : Bytes) → KindOf i (scan_item i s)
unfolding scan_item
scan_item-Kind lf s = stored-Yields Kind lf _ (λ r. real) (λ r. r) (λ r. is_real)
scan_item-Kind d64 s =
    stored-Yields Kind d64 _ (λ x. int (saturate_64 x.0)) (λ x. x.1) (λ x. is_int64)
scan_item-Kind d32 s =
    stored-Yields Kind d32 _ (λ x. int (to_int_32 (saturate_64 x.0))) (λ x. x.1) (λ x. is_int32)
scan_item-Kind x32 s = stored-Yields Kind x32 _ (λ x. unsigned x.0) (λ x. x.1) (λ x. is_unsigned)
scan_item-Kind word s = cut-Kind word _ _ is_word
scan_item-Kind (str w) s = cut-Kind (str w) _ _ is_str
scan_item-Kind (until c w) s = cut-Kind (until c w) _ _ is_until

-- What holds of the items' values by themselves holds of all the values that `scan` delivers.
pub scan-FitsBy :
    (P : Item → Value → Type 0)
    → ((i : Item) (s : Bytes) → Yields P i (scan_item i s))
    → (ds : List Directive) (s : Bytes) → FitsBy P (items ds) (scan ds s)
unfolding scan
scan-FitsBy P h [] s = over
scan-FitsBy P h (ws ∷ ds) s = scan-FitsBy P h ds _
scan-FitsBy P h (lit c ∷ ds) [] = over
scan-FitsBy P h (lit c ∷ ds) (d ∷ s) = elim (Bool-cases (d == c)) [
  | inl t ↦ rw t (scan-FitsBy P h ds s)
  | inr f ↦ rw f over
]
scan-FitsBy P h (item i ∷ ds) s = elim (Option-cases (scan_item i s)) [
  | inl n ↦ rw (n, scan) over
  | inr ((v, rest), e) ↦ rw (e, scan) (also (rw e at (h i s)) (scan-FitsBy P h ds rest))
]
scan-FitsBy P h (skip i ∷ ds) s = elim (Option-cases (scan_item i s)) [
  | inl n ↦ rw (n, scan) over
  | inr ((v, rest), e) ↦ rw (e, scan) (scan-FitsBy P h ds rest)
]

pub scan-Fits : (ds : List Directive) (s : Bytes) → Fits (items ds) (scan ds s)
scan-Fits ds s = scan-FitsBy Kind scan_item-Kind ds s
