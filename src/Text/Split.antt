-- ===== src/Text/Split.antt =====
-- Where `take_while` and `skip_while` cut a text.
use time_agent.Base.{
  ℕ, Bool, false, [], ◌∷◌, ◌++◌, ◌≡◌, refl, ap, Bytes, AllPass, inl, inr, Bool-cases,
}
use time_agent.Text.{skip_while, take_while}

-- The text is empty, or its first byte fails the test.
abbrev pub StopsAt : (ℕ → Bool) → Bytes → Type 0
StopsAt p [] = Unit
StopsAt p (c ∷ s) = p c ≡ false

pub take_while-append-skip_while : (p : ℕ → Bool) (s : Bytes) → take_while p s ++ skip_while p s ≡ s
unfolding take_while skip_while
take_while-append-skip_while p [] = refl
take_while-append-skip_while p (c ∷ s) = elim (Bool-cases (p c)) [
  | inl t ↦ rw t (ap (◌∷◌ c) (take_while-append-skip_while p s))
  | inr f ↦ rw f
]

pub take_while-AllPass : (p : ℕ → Bool) (s : Bytes) → AllPass p (take_while p s)
unfolding take_while
take_while-AllPass p [] = tt
take_while-AllPass p (c ∷ s) = elim (Bool-cases (p c)) [
  | inl t ↦ rw t (t, take_while-AllPass p s)
  | inr f ↦ rw f tt
]

pub skip_while-StopsAt : (p : ℕ → Bool) (s : Bytes) → StopsAt p (skip_while p s)
unfolding skip_while
skip_while-StopsAt p [] = tt
skip_while-StopsAt p (c ∷ s) = elim (Bool-cases (p c)) [
  | inl t ↦ rw t (skip_while-StopsAt p s)
  | inr f ↦ rw f f
]

-- The prefix that passes is taken whole, if what follows stops the scan.
pub take_while-append :
    (p : ℕ → Bool) (a s : Bytes) → AllPass p a → StopsAt p s → take_while p (a ++ s) ≡ a
unfolding take_while
take_while-append p [] [] h k = refl
take_while-append p [] (c ∷ s) h k = rw k
take_while-append p (c ∷ a) s h k = rw (h.0) (ap (◌∷◌ c) (take_while-append p a s h.1 k))

pub skip_while-append :
    (p : ℕ → Bool) (a s : Bytes) → AllPass p a → StopsAt p s → skip_while p (a ++ s) ≡ s
unfolding skip_while
skip_while-append p [] [] h k = refl
skip_while-append p [] (c ∷ s) h k = rw k
skip_while-append p (c ∷ a) s h k = rw (h.0) (skip_while-append p a s h.1 k)
