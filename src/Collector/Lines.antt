-- ===== src/Collector/Lines.antt =====
-- The values of the two kinds of line with statistics that ptp4l and phc2sys print, and what a
-- sequence of stores preserves.
use time_agent.Base.{
  true, false, List, [], ◌∷◌, ◌≡◌, refl, ap, ◌∙◌, Option, none, some, length, All, ◌==◌, inl, inr,
  Bool-cases, if◌then◌else◌,
}
use time_agent.Base.Int.{ℤ}
use time_agent.Scanf.{lf, d64, d32, Value, real, int, assign}
use time_agent.Scanf.Kinds.{Fits, over, also, is_real, is_int64, is_int32}

pub full_values :
    {vs : List Value}
    → Fits (lf ∷ d64 ∷ d32 ∷ d64 ∷ d64 ∷ []) vs
    → (length vs == 5) ≡ true
    → (o : ℤ) × (s : ℤ) × (f : ℤ) × (d : ℤ) × (vs ≡ real ∷ int o ∷ int s ∷ int f ∷ int d ∷ [])
full_values
      (also is_real (
        also
          (is_int64 {z = o})
          (also (is_int32 {z = s}) (also (is_int64 {z = f}) (also (is_int64 {z = d}) over)))))
      h =
    (o, s, f, d, refl)
full_values (also is_real (also is_int64 (also is_int32 (also is_int64 over)))) h = cc
full_values (also is_real (also is_int64 (also is_int32 over))) h = cc
full_values (also is_real (also is_int64 over)) h = cc
full_values (also is_real over) h = cc
full_values over h = cc

pub rms_values :
    {vs : List Value}
    → Fits (lf ∷ d64 ∷ d64 ∷ d64 ∷ []) vs
    → (length vs == 4) ≡ true
    → (o : ℤ) × (f : ℤ) × (d : ℤ) × (vs ≡ real ∷ int o ∷ int f ∷ int d ∷ [])
rms_values
      (also is_real
        (also (is_int64 {z = o}) (also (is_int64 {z = f}) (also (is_int64 {z = d}) over))))
      h =
    (o, f, d, refl)
rms_values (also is_real (also is_int64 (also is_int64 over))) h = cc
rms_values (also is_real (also is_int64 over)) h = cc
rms_values (also is_real over) h = cc
rms_values over h = cc

-- What every store preserves holds after all of them.
pub assign-preserves {ℓ κ} :
    {S : Type ℓ} (P : S → Type κ) (fs : List (Value → S → S)) (vs : List Value) (s : S)
    → All (λ f. (v : Value) (t : S) → P t → P (f v t)) fs
    → P s
    → P (assign fs vs s)
unfolding assign
assign-preserves P [] vs s h p = p
assign-preserves P (f ∷ fs) [] s h p = p
assign-preserves P (f ∷ fs) (v ∷ vs) s h p = assign-preserves P fs vs (f v s) h.1 (h.0 v s p)

-- What a line tells, from the values that the two formats read in it: those of a summary, with the
-- largest offset and no state; of a full line; or nothing, where the line is neither.
pub data Tells {S : Type 0} (of_summary : ℤ → ℤ → ℤ → S) (of_line : ℤ → ℤ → ℤ → ℤ → S)
    (rms full : List Value) (r : Option S) : Type 0 where
  summary :
      (max freq delay : ℤ)
      → rms ≡ real ∷ int max ∷ int freq ∷ int delay ∷ []
      → r ≡ some (of_summary max freq delay)
      → Tells of_summary of_line rms full r
  line :
      (offset state freq delay : ℤ)
      → full ≡ real ∷ int offset ∷ int state ∷ int freq ∷ int delay ∷ []
      → r ≡ some (of_line offset state freq delay)
      → Tells of_summary of_line rms full r
  neither :
      (length rms == 4) ≡ false
      → (length full == 5) ≡ false
      → r ≡ none
      → Tells of_summary of_line rms full r

-- The two calls of `sscanf` into one record, the second after the stores of the first.
module _ {S : Type 0} (of_summary : ℤ → ℤ → ℤ → S) (of_line : ℤ → ℤ → ℤ → ℤ → S)
    (rms_stores offset_stores : List (Value → S → S)) (zero : S) where
  pub two_calls-Tells :
      (rms full : List Value)
      → Fits (lf ∷ d64 ∷ d64 ∷ d64 ∷ []) rms
      → Fits (lf ∷ d64 ∷ d32 ∷ d64 ∷ d64 ∷ []) full
      → ((o f d : ℤ)
          → assign rms_stores (real ∷ int o ∷ int f ∷ int d ∷ []) zero ≡ of_summary o f d)
      → ((o s f d : ℤ)
          → assign offset_stores
              (real ∷ int o ∷ int s ∷ int f ∷ int d ∷ [])
              (assign rms_stores rms zero)
            ≡ of_line o s f d)
      → Tells of_summary of_line rms full (
          if length rms == 4
          then some (assign rms_stores rms zero)
          else if length full == 5
          then some (assign offset_stores full (assign rms_stores rms zero))
          else none)
  two_calls-Tells rms full fr ff hs hl = elim (Bool-cases (length rms == 4)) [
    | inl four ↦
        let (o, f, d, e) = rms_values fr four in
        summary o f d e (rw four (ap some (ap (λ vs. assign rms_stores vs zero) e ∙ hs o f d)))
    | inr n ↦ elim (Bool-cases (length full == 5)) [
      | inl five ↦
          let (o, s, f, d, e) = full_values ff five in
          line o s f d e (
            rw (n, five)
              (ap some
                (ap (λ vs. assign offset_stores vs (assign rms_stores rms zero)) e ∙ hl o s f d)))
      | inr m ↦ neither n m (rw (n, m) refl)
    ]
  ]
