-- ===== src/Scanf/Tokens.antt =====
-- How `sscanf` reads words and texts up to a byte, one step of `scan` each.
use time_agent.Base.{
  ℕ, zero, suc, ◌≤◌, Bool, true, not, List, [], ◌∷◌, ◌++◌, ◌≡◌, ◌≢◌, refl, sym, ap, ◌∙◌, append-nil,
  some, Bytes, ◌==◌, arith, AllPass, length, take, drop,
}
use time_agent.Text.{is_space, not_space, skip_while}
use time_agent.Text.Split.{StopsAt, take_while-append, skip_while-append}
use time_agent.Number.{is_digit, show}
use time_agent.Number.Decimal.{show-IsNumeral}
use time_agent.Scanf.{
  word, str, until, lf, lit, item, Directive, text, real, scan, scan_item, sscanf, cut,
}
use time_agent.Scanf.Steps.{
  scan_item-lf, has_no_nul, has_no_nul-append, digits-has_no_nul, c_str_id,
}

-- A text that an item with this width reads whole: not empty, not too long, with no NUL, and the
-- bytes pass the test.
pub record IsToken (p : ℕ → Bool) (w : ℕ) (s : Bytes) : Type 0 where
  pub bytes : AllPass p s
  pub some_byte : s ≢ []
  pub short : length s ≤ w
  pub no_nul : has_no_nul s ≡ true

-- A word, which white space ends.
abbrev pub IsShortWord : ℕ → Bytes → Type 0
IsShortWord w s = IsToken not_space w s

-- A text that this byte ends.
abbrev pub IsUntil : ℕ → ℕ → Bytes → Type 0
IsUntil c w s = IsToken (λ d. not (d == c)) w s

take_all : (w : ℕ) (s : Bytes) → length s ≤ w → take w s ≡ s
take_all zero [] h = refl
take_all zero (c ∷ s) h = absurd (omega (arith, h))
take_all (suc w) [] h = refl
take_all (suc w) (c ∷ s) h = ap (◌∷◌ c) (take_all w s (omega (arith, h)))

drop-append : (s rest : Bytes) → drop (length s) (s ++ rest) ≡ rest
drop-append [] rest = refl
drop-append (c ∷ s) rest = drop-append s rest

cut-append : (s rest : Bytes) → s ≢ [] → cut s (s ++ rest) ≡ some (text s, rest)
cut-append [] rest h = absurd (h refl)
cut-append (c ∷ s) rest h = ap (λ r. some (text (c ∷ s), r)) (drop-append s rest)

-- The text begins with no white space.
pub skip_space-word :
    (w : ℕ) (s rest : Bytes) → IsShortWord w s → skip_while is_space (s ++ rest) ≡ s ++ rest
unfolding skip_while
skip_space-word w [] rest h = absurd (h.some_byte refl)
skip_space-word w (c ∷ s) rest h = ground (arith, h.bytes.0)

pub scan_item-str :
    (w : ℕ) (s rest : Bytes)
    → IsShortWord w s
    → StopsAt not_space rest
    → scan_item (str w) (s ++ rest) ≡ some (text s, rest)
unfolding scan_item
scan_item-str w s rest h k =
    rw
      (
        skip_space-word w s rest h,
        take_while-append not_space s rest h.bytes k,
        take_all w s h.short,
      )
      (cut-append s rest h.some_byte)

pub scan_item-until :
    (c w : ℕ) (s rest : Bytes)
    → IsUntil c w s
    → StopsAt (λ d. not (d == c)) rest
    → scan_item (until c w) (s ++ rest) ≡ some (text s, rest)
unfolding scan_item
scan_item-until c w s rest h k =
    rw (take_while-append (λ d. not (d == c)) s rest h.bytes k, take_all w s h.short)
      (cut-append s rest h.some_byte)

-- A text up to the end.
pub scan_item-until_end :
    (c w : ℕ) (s : Bytes) → IsUntil c w s → scan_item (until c w) s ≡ some (text s, [])
scan_item-until_end c w s h =
    ap (scan_item (until c w)) (sym (append-nil s)) ∙ scan_item-until c w s [] h tt

pub skip_space-word_end : (w : ℕ) (s : Bytes) → IsShortWord w s → skip_while is_space s ≡ s
unfolding skip_while
skip_space-word_end w [] h = refl
skip_space-word_end w (c ∷ s) h = ground (arith, h.bytes.0)

-- A word for an item with no width.
abbrev pub IsWholeWord : Bytes → Type 0
IsWholeWord s = IsShortWord (length s) s

pub scan_item-word :
    (s rest : Bytes)
    → IsWholeWord s
    → StopsAt not_space rest
    → scan_item word (s ++ rest) ≡ some (text s, rest)
unfolding scan_item
scan_item-word s rest h k =
    rw (skip_space-word (length s) s rest h, take_while-append not_space s rest h.bytes k)
      (cut-append s rest h.some_byte)

-- A word up to the end.
pub scan_item-str_end :
    (w : ℕ) (s : Bytes) → IsShortWord w s → scan_item (str w) s ≡ some (text s, [])
scan_item-str_end w s h = ap (scan_item (str w)) (sym (append-nil s)) ∙ scan_item-str w s [] h tt

pub skip_space-solid : (s : Bytes) → StopsAt is_space s → skip_while is_space s ≡ s
skip_space-solid s h = skip_while-append is_space [] s tt h

-- The time in brackets in front of every line: seconds, a point and a fraction.
abbrev pub timed : ℕ → Bytes → Bytes → Bytes
timed seconds fraction rest = b'[' ∷ (show seconds ++ b'.' ∷ (fraction ++ b']' ∷ rest))

module _ (seconds : ℕ) (fraction rest : Bytes) (digits : AllPass is_digit fraction) where
  pub scan-timed :
      (ds : List Directive)
      → scan (lit b'[' ∷ item lf ∷ ds) (timed seconds fraction rest) ≡ real ∷ scan ds (b']' ∷ rest)
  unfolding scan
  scan-timed ds =
      rw (scan_item-lf (show seconds) fraction rest (show-IsNumeral seconds) digits) refl

  pub timed-has_no_nul : has_no_nul rest ≡ true → has_no_nul (timed seconds fraction rest) ≡ true
  timed-has_no_nul h =
      has_no_nul-append (show seconds) _ (digits-has_no_nul _ (show-IsNumeral seconds).digits)
        (has_no_nul-append fraction _ (digits-has_no_nul _ digits) h)

  -- `sscanf` with a format that begins with the time.
  pub sscanf-timed :
      (ds : List Directive)
      → has_no_nul rest ≡ true
      → sscanf (timed seconds fraction rest) (lit b'[' ∷ item lf ∷ ds)
        ≡ real ∷ scan ds (b']' ∷ rest)
  unfolding sscanf
  sscanf-timed ds h =
      rw (c_str_id (timed seconds fraction rest) (timed-has_no_nul h)) (scan-timed ds)
