-- ===== src/Text/Token.antt =====
-- What `>>` reads: the first run of bytes that are no white space.
use time_agent.Base.{
  ℕ, Bool, true, [], ◌∷◌, ◌++◌, ◌≡◌, ◌≢◌, refl, arith, Bytes, AllPass, append-nil,
}
use time_agent.Text.{is_space, not_space, first_token, skip_while, take_while}
use time_agent.Text.Split.{StopsAt, take_while-append, skip_while-append, take_while-AllPass}

-- A text of visible bytes only.
abbrev pub IsWord : Bytes → Type 0
IsWord s = AllPass not_space s

skip_while-stops : (p : ℕ → Bool) (s : Bytes) → StopsAt p s → skip_while p s ≡ s
skip_while-stops p s h = skip_while-append p [] s tt h

StopsAt-word : (w s : Bytes) → IsWord w → StopsAt is_space s → StopsAt is_space (w ++ s)
StopsAt-word [] s h k = k
StopsAt-word (c ∷ w) s h k = ground arith

StopsAt-not_space : (c : ℕ) (s : Bytes) → is_space c ≡ true → StopsAt not_space (c ∷ s)
StopsAt-not_space c s h = ground arith

-- A word behind white space, with nothing or a white space behind it, is read whole.
pub first_token-word :
    (w : Bytes) (c : ℕ) (s : Bytes)
    → IsWord w
    → w ≢ []
    → is_space c ≡ true
    → first_token (w ++ c ∷ s) ≡ w
unfolding first_token
first_token-word [] c s h ne k = absurd (ne refl)
first_token-word (d ∷ w) c s h ne k =
    rw (skip_while-stops is_space (d ∷ (w ++ c ∷ s)) (ground arith))
      (take_while-append not_space (d ∷ w) (c ∷ s) h (StopsAt-not_space c s k))

pub first_token_id : (w : Bytes) → IsWord w → first_token w ≡ w
unfolding first_token
first_token_id [] h = unfold skip_while take_while in refl
first_token_id (d ∷ w) h =
    rw (skip_while-stops is_space (d ∷ w) (ground arith))
      (rw append-nil at (take_while-append not_space (d ∷ w) [] h tt))

pub first_token-IsWord : (s : Bytes) → IsWord (first_token s)
unfolding first_token
first_token-IsWord s = take_while-AllPass not_space (skip_while is_space s)
