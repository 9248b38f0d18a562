-- ===== src/Os/Descriptors.antt =====
-- Which descriptors are open after one call.
use time_agent.Base.{
  ℕ, Bool, true, false, not, ◌&&◌, ◌||◌, ◌≡◌, refl, sym, ap, ◌∙◌, Option, none, some, Bytes, ◌==◌,
  inl, inr, arith, Option-cases, Bool-cases, ==_iff,
}
use time_agent.Os.{Os, IsPosix, close_fd}

-- The descriptor is this one; -1 is none.
abbrev pub is_fd : ℕ → Option ℕ → Bool
is_fd g none = false
is_fd g (some fd) = g == fd

module _ (os : Os) (posix : IsPosix os) where
  open os use {World, is_open, open_file}

  pub close_fd-is_open :
      (w : World) (o : Option ℕ) (g : ℕ)
      → is_open (close_fd os w o) g ≡ (not (is_fd g o) && is_open w g)
  close_fd-is_open w none g = refl
  close_fd-is_open w (some fd) g = posix.close_shuts w fd g

  pub open_file-is_open :
      (w : World) (path : Bytes) (g : ℕ)
      → is_open (open_file w path).1 g ≡ (is_fd g (open_file w path).0 || is_open w g)
  open_file-is_open w path g = elim (Option-cases (open_file w path).0) [
    | inl n ↦ rw n (posix.open_none w path g n)
    | inr (fd, s) ↦ rw s (posix.open_some w path fd g s)
  ]

  -- The descriptor that `open` returns was not open.
  pub open_file-fresh :
      (w : World) (path : Bytes) (g : ℕ) → is_fd g (open_file w path).0 ≡ true → is_open w g ≡ false
  open_file-fresh w path g h = elim (Option-cases (open_file w path).0) [
    | inl n ↦ absurd (ground (arith, n, h))
    | inr (fd, s) ↦
        let same : g ≡ fd = (==_iff g fd).0 (rw s at h) in rw same (posix.open_fresh w path fd s)
  ]

  -- An object owns these descriptors: besides them exactly the others are open, and it shares none
  -- with these.
  pub record Owns (others owned : ℕ → Bool) (w : World) : Type 0 where
    pub besides : (g : ℕ) → is_open w g ≡ (owned g || others g)
    pub apart : (g : ℕ) → owned g ≡ true → others g ≡ false

  -- An open file is one more descriptor to own.
  pub open_file-Owns :
      (others owned : ℕ → Bool) (w : World) (path : Bytes)
      → Owns others owned w
      → Owns others (λ g. is_fd g (open_file w path).0 || owned g) (open_file w path).1
  open_file-Owns others owned w path o = record {
    besides = λ g. ground (arith, open_file-is_open w path g, o.besides g);
    apart = λ g h. elim (Bool-cases (is_fd g (open_file w path).0)) [
      | inl t ↦ ground (arith, open_file-fresh w path g t, o.besides g)
      | inr f ↦ o.apart g (rw f at h)
    ];
  }

  pub Owns-same :
      (others owned owned' : ℕ → Bool) (w : World)
      → ((g : ℕ) → owned' g ≡ owned g)
      → Owns others owned w
      → Owns others owned' w
  Owns-same others owned owned' w e o = record {
    besides = λ g. o.besides g ∙ ap (λ b. b || others g) (sym (e g));
    apart = λ g h. o.apart g (sym (e g) ∙ h);
  }
