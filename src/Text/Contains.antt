-- ===== src/Text/Contains.antt =====
-- Where `find` succeeds.
use time_agent.Base.{true, [], ◌∷◌, ◌++◌, ◌≡◌, refl, Bytes, arith}
use time_agent.Text.{starts_with, contains}

pub starts_with-append : (p s : Bytes) → starts_with p (p ++ s) ≡ true
unfolding starts_with
starts_with-append [] s = refl
starts_with-append (c ∷ p) s = ground (arith, starts_with-append p s)

contains-here : (part s : Bytes) → starts_with part s ≡ true → contains part s ≡ true
unfolding contains
contains-here part [] h = h
contains-here part (c ∷ s) h = rw h

-- A part stands in a text that begins with it.
pub contains-prefix : (part s : Bytes) → contains part (part ++ s) ≡ true
contains-prefix part s = contains-here part (part ++ s) (starts_with-append part s)

-- A part of a text stands in it whatever is in front.
pub contains-append : (part a s : Bytes) → contains part s ≡ true → contains part (a ++ s) ≡ true
unfolding contains
contains-append part [] s h = h
contains-append part (c ∷ a) s h = ground (arith, contains-append part a s h)
