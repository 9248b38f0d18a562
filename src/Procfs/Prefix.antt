-- ===== src/Procfs/Prefix.antt =====
-- What `findLinePrefix` finds.
use time_agent.Base.{
  ℕ, zero, suc, ◌≤◌, true, false, [], ◌∷◌, ◌++◌, ◌≡◌, ◌≢◌, refl, sym, ap, ◌∙◌, Option, none, some,
  Bytes, ◌==◌, arith, inl, inr, Bool-cases, Option-cases, drop, length, length-append, NonePass,
}
use time_agent.Text.Contains.{starts_with-append}
use time_agent.Text.{starts_with}
use time_agent.Procfs.{after_newline, find_fuel, find_line_prefix}

-- A line of the buffer starts where this rest of it starts.
pub data LineStart : Bytes → Bytes → Type 0 where
  first : {s : Bytes} → LineStart s s
  later :
      (line : Bytes) {rest s : Bytes}
      → NonePass (λ c. c == b'\n') line
      → LineStart rest s
      → LineStart (line ++ b'\n' ∷ rest) s

pub starts_with-drop : (p s : Bytes) → starts_with p s ≡ true → s ≡ p ++ drop (length p) s
unfolding starts_with
starts_with-drop [] s h = refl
starts_with-drop (c ∷ p) [] h = cc
starts_with-drop (c ∷ p) (d ∷ s) h = ground (arith, starts_with-drop p s)

after_newline-some :
    (s rest : Bytes)
    → after_newline s ≡ some rest
    → (line : Bytes) × NonePass (λ c. c == b'\n') line × (s ≡ line ++ b'\n' ∷ rest)
unfolding after_newline
after_newline-some [] rest h = cc
after_newline-some (c ∷ s) rest h = elim (Bool-cases (c == b'\n')) [
  | inl t ↦ ([], tt, ground arith)
  | inr f ↦
      let (line, n, e) = after_newline-some s rest (ground arith) in
      (c ∷ line, (f, n), ap (◌∷◌ c) e)
]

after_newline-append :
    (line rest : Bytes)
    → NonePass (λ c. c == b'\n') line
    → after_newline (line ++ b'\n' ∷ rest) ≡ some rest
unfolding after_newline
after_newline-append [] rest n = refl
after_newline-append (c ∷ line) rest (f, n) = rw f (after_newline-append line rest n)

line_after :
    {s rest t : Bytes}
    → (line : Bytes) × NonePass (λ c. c == b'\n') line × (s ≡ line ++ b'\n' ∷ rest)
    → LineStart rest t
    → LineStart s t
line_after (line, n, e) l = rw e (later line n l)

abbrev continue : ℕ → Bytes → Option Bytes → Option Bytes
continue f needle none = none
continue f needle (some rest) = find_fuel f needle rest

-- One round of the loop.
find_fuel-here :
    (f c : ℕ) (needle s : Bytes)
    → starts_with needle (c ∷ s) ≡ true
    → find_fuel (suc f) needle (c ∷ s) ≡ some (drop (length needle) (c ∷ s))
unfolding find_fuel
find_fuel-here f c needle s t = rw t refl

find_fuel-next :
    (f c : ℕ) (needle s : Bytes)
    → starts_with needle (c ∷ s) ≡ false
    → find_fuel (suc f) needle (c ∷ s) ≡ continue f needle (after_newline (c ∷ s))
unfolding find_fuel
find_fuel-next f c needle s n = rw n refl

none≢some : {rest : Bytes} → none ≢ some rest
none≢some h = cc

first_at : {s t : Bytes} → s ≡ t → LineStart s t
first_at e = rw e first

find_fuel-some :
    (f : ℕ) (needle s : Bytes) {rest : Bytes}
    → find_fuel f needle s ≡ some rest
    → LineStart s (needle ++ rest)
unfolding find_fuel
find_fuel-some zero needle s h = cc
find_fuel-some (suc f) needle [] h = cc
find_fuel-some (suc f) needle (c ∷ s) {rest} h = elim (Bool-cases (starts_with needle (c ∷ s))) [
  | inl t ↦
      let here = sym (find_fuel-here f c needle s t) ∙ h in
      first_at (ground (arith, starts_with-drop needle (c ∷ s) t))
  | inr n ↦
      let next = sym (find_fuel-next f c needle s n) ∙ h in
      elim (Option-cases (after_newline (c ∷ s))) [
        | inl z ↦ absurd (none≢some (ap (continue f needle) (sym z) ∙ next))
        | inr (r, e) ↦
            line_after (after_newline-some (c ∷ s) r e)
              (find_fuel-some f needle r (ap (continue f needle) (sym e) ∙ next))
      ]
]

-- A line that does not start with the needle is passed over.
find_fuel-skips :
    (f x : ℕ) (needle tail rest : Bytes)
    → after_newline (x ∷ tail) ≡ some rest
    → find_fuel f needle rest ≢ none
    → find_fuel (suc f) needle (x ∷ tail) ≢ none
find_fuel-skips f x needle tail rest e k z = elim (Bool-cases (starts_with needle (x ∷ tail))) [
  | inl t ↦ none≢some (sym z ∙ find_fuel-here f x needle tail t)
  | inr n ↦ k (sym (find_fuel-next f x needle tail n ∙ ap (continue f needle) e) ∙ z)
]

find_fuel-line :
    (f : ℕ) (needle s rest : Bytes)
    → needle ≢ []
    → length s ≤ f
    → LineStart s (needle ++ rest)
    → find_fuel f needle s ≢ none
find_fuel-line f [] s rest h k l = absurd (h refl)
find_fuel-line zero (d ∷ needle) s rest h k first = absurd (omega (arith, k))
find_fuel-line zero (d ∷ needle) s rest h k (later line {rest = r} n l) =
    absurd (omega (arith, k, length-append line (b'\n' ∷ r)))
find_fuel-line (suc f) (d ∷ needle) s rest h k first = λ z. none≢some (
    sym z ∙ find_fuel-here f d (d ∷ needle) (needle ++ rest) (starts_with-append (d ∷ needle) rest))
find_fuel-line (suc f) (d ∷ needle) s rest h k (later [] {rest = r} n l) =
    find_fuel-skips f b'\n' (d ∷ needle) r r (after_newline-append [] r n)
      (find_fuel-line f (d ∷ needle) r rest h (omega (arith, k)) l)
find_fuel-line (suc f) (d ∷ needle) s rest h k (later (x ∷ line) {rest = r} n l) =
    find_fuel-skips f x (d ∷ needle) (line ++ b'\n' ∷ r) r (after_newline-append (x ∷ line) r n)
      (find_fuel-line f (d ∷ needle) r rest h (omega (arith, k, length-append line (b'\n' ∷ r))) l)

-- What a search may return: the rest behind the needle at the start of a line, or null where no
-- line starts with the needle.
pub data Finds (buf needle : Bytes) : Option Bytes → Type 0 where
  behind : {rest : Bytes} → LineStart buf (needle ++ rest) → Finds buf needle (some rest)
  nowhere : ((rest : Bytes) → LineStart buf (needle ++ rest) → ⊥) → Finds buf needle none

-- `findLinePrefix` is right, and its loop ends: the pointer that it returns stands behind the needle
-- at the start of a line of the buffer, and it is null only if no line starts with the needle (which
-- must not be empty).
pub find_line_prefix-Finds :
    (buf needle : Bytes) → needle ≢ [] → Finds buf needle (find_line_prefix buf needle)
unfolding find_line_prefix
find_line_prefix-Finds buf needle h = elim (Option-cases (find_fuel (length buf) needle buf)) [
  | inl n ↦
      rw n (nowhere (λ rest l. find_fuel-line (length buf) needle buf rest h (omega arith) l n))
  | inr (rest, e) ↦ rw e (behind (find_fuel-some (length buf) needle buf e))
]
