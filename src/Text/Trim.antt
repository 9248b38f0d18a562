-- ===== src/Text/Trim.antt =====
-- What `trim` returns, over the two searches that it is made of.
use time_agent.Base.{
  ℕ, zero, suc, ◌-◌, ◌≤◌, Bool, true, false, not, [], ◌∷◌, ◌++◌, ◌≡◌, refl, sym, ap, ◌∙◌, inl, inr,
  none, some, arith, Bytes, AllPass, take, drop, Bool-cases, Option-cases,
}
use time_agent.Text.{is_blank, find_first, find_last, trim, substr, trim_found, trim_from}
use time_agent.Text.Split.{StopsAt}

abbrev solid : ℕ → Bool
solid c = not (is_blank c)

-- The text is empty, or its last byte fails the test.
abbrev pub EndsAt : (ℕ → Bool) → Bytes → Type 0
EndsAt p [] = Unit
EndsAt p (c ∷ []) = p c ≡ false
EndsAt p (c ∷ d ∷ s) = EndsAt p (d ∷ s)

-- `middle` is `s` without the blanks around it.
pub record IsTrimmed (s middle : Bytes) : Type 0 where
  pub before : Bytes
  pub after : Bytes
  pub splits : s ≡ before ++ (middle ++ after)
  pub before_blank : AllPass is_blank before
  pub after_blank : AllPass is_blank after
  pub begins : StopsAt is_blank middle
  pub ends : EndsAt is_blank middle

find_last-none : (s : Bytes) → find_last solid s ≡ none → AllPass is_blank s
unfolding find_last
find_last-none [] h = tt
find_last-none (c ∷ s) h = ground (arith, find_last-none s)

-- The last hit is the head with none behind it, or one of the tail.
find_last-zero : (c : ℕ) (s : Bytes) → find_last solid (c ∷ s) ≡ some 0 → find_last solid s ≡ none
unfolding find_last
find_last-zero c s h = ground arith

find_last-zero_solid : (c : ℕ) (s : Bytes) → find_last solid (c ∷ s) ≡ some 0 → is_blank c ≡ false
unfolding find_last
find_last-zero_solid c s h = ground arith

find_last-suc :
    (c l : ℕ) (s : Bytes) → find_last solid (c ∷ s) ≡ some (suc l) → find_last solid s ≡ some l
unfolding find_last
find_last-suc c l s h = ground arith

record Cut (s : Bytes) (l : ℕ) : Type 0 where
  rest : Bytes
  whole : s ≡ take (suc l) s ++ rest
  rest_blank : AllPass is_blank rest
  ends : EndsAt is_blank (take (suc l) s)

find_last-Cut : (s : Bytes) (l : ℕ) → find_last solid s ≡ some l → Cut s l
find_last-Cut [] l h = absurd (unfold find_last in cc)
find_last-Cut (c ∷ []) zero h = record {
  rest = [];
  whole = refl;
  rest_blank = tt;
  ends = find_last-zero_solid c [] h;
}
find_last-Cut (c ∷ []) (suc l) h =
    absurd (unfold find_last in ground (arith, find_last-suc c l [] h))
find_last-Cut (c ∷ d ∷ s) zero h = record {
  rest = d ∷ s;
  whole = refl;
  rest_blank = find_last-none (d ∷ s) (find_last-zero c (d ∷ s) h);
  ends = find_last-zero_solid c (d ∷ s) h;
}
find_last-Cut (c ∷ d ∷ s) (suc l) h =
    let deeper = find_last-Cut (d ∷ s) l (find_last-suc c l (d ∷ s) h) in
    record {
      rest = deeper.rest;
      whole = ap (◌∷◌ c) deeper.whole;
      rest_blank = deeper.rest_blank;
      ends = deeper.ends;
    }

-- The two searches find together.
find_first-find_last :
    (s : Bytes) (i : ℕ)
    → find_first solid s ≡ some i
    → (l : ℕ) × (find_last solid s ≡ some l) × (i ≤ l)
unfolding find_first find_last
find_first-find_last [] i h = absurd (cc)
find_first-find_last (c ∷ s) i h = elim (Option-cases (find_first solid s)) [
  | inl e ↦ elim (Option-cases (find_last solid s)) [
    | inl f ↦ (0, ground arith, ground arith)
    | inr (l, f) ↦ (suc l, ground arith, ground arith)
  ]
  | inr (j, e) ↦ let (l, f, le) = find_first-find_last s j e in (suc l, ground arith, ground arith)
]

trim-found :
    (s : Bytes) (i l : ℕ)
    → find_first solid s ≡ some i
    → find_last solid s ≡ some l
    → trim s ≡ substr s i (suc (l - i))
unfolding trim
trim-found s i l e f =
    rw (e, trim_found) (rw (f, trim_from) (ap (substr s i) {y = suc (l - i)} (omega arith)))

trim-blank : (c : ℕ) (s : Bytes) → is_blank c ≡ true → trim (c ∷ s) ≡ trim s
trim-blank c s h = elim (Option-cases (find_first solid s)) [
  | inl e ↦ unfold trim find_first in ground arith
  | inr (i, e) ↦
      let (l, f, le) = find_first-find_last s i e in
      trim-found (c ∷ s) (suc i) (suc l) (unfold find_first in ground arith)
        (unfold find_last in ground arith)
      ∙ ap (λ n. take (suc n) (drop i s)) (omega arith)
      ∙ sym (trim-found s i l e f)
]

trim-solid : (c : ℕ) (s : Bytes) → is_blank c ≡ false → IsTrimmed (c ∷ s) (trim (c ∷ s))
trim-solid c s h =
    let here : find_first solid (c ∷ s) ≡ some 0 = unfold find_first in ground arith in
    let (l, f, le) = find_first-find_last (c ∷ s) 0 here in
    let cut = find_last-Cut (c ∷ s) l f in
    let e : take (suc l) (c ∷ s) ≡ trim (c ∷ s) =
      sym (trim-found (c ∷ s) 0 l here f ∙ ap (λ n. take (suc n) (c ∷ s)) (omega arith)) in
    rw (← e) (record {
      before = [];
      after = cut.rest;
      splits = cut.whole;
      before_blank = tt;
      after_blank = cut.rest_blank;
      begins = h;
      ends = cut.ends;
    })

trim-empty : IsTrimmed [] (trim [])
unfolding trim find_first
trim-empty = record {
  before = [];
  after = [];
  splits = refl;
  before_blank = tt;
  after_blank = tt;
  begins = tt;
  ends = tt;
}

-- `trim` removes the blanks around its text and nothing else, for every text.
pub trim-IsTrimmed : (s : Bytes) → IsTrimmed s (trim s)
trim-IsTrimmed [] = trim-empty
trim-IsTrimmed (c ∷ s) = elim (Bool-cases (is_blank c)) [
  | inr f ↦ trim-solid c s f
  | inl t ↦
      let r = trim-IsTrimmed s in
      rw (trim-blank c s t) (record {
        before = c ∷ r.before;
        after = r.after;
        splits = ap (◌∷◌ c) r.splits;
        before_blank = (t, r.before_blank);
        after_blank = r.after_blank;
        begins = r.begins;
        ends = r.ends;
      })
]
