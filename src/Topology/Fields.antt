-- ===== src/Topology/Fields.antt =====
-- What the loops of `PtpTopologyParser::parse` over the first three data sets, src/ptp_topology.cpp
-- lines 97 to 138, put into each field of the snapshot.
use time_agent.Base.{
  true, false, List, [], ◌∷◌, ◌≡◌, refl, ap, ◌∙◌, Option, none, some, Bytes, codes, equal,
  equal_iff, inl, inr, Bool-cases, if◌then◌else◌,
}
use time_agent.Base.Int.{ℤ}
use time_agent.Text.{first_token}
use time_agent.Floating.{Floating}
use time_agent.Topology.{
  PtpTopologySnapshot, parse_key_value, parse_clock_identity, parse_port_number, parse_nanoseconds,
}
use time_agent.Topology.Parser.{
  or_keep, default_line, parent_line, current_line, scan_lines, to_int,
}

-- The value in a line with this key, if it can be read; the old one otherwise.
abbrev pub value_at {ℓ} : {A : Type ℓ} → (Bytes → Option A) → Bytes → A → Option (Bytes × Bytes) → A
value_at read key old none = old
value_at read key old (some (k, value)) = if equal k key then or_keep old (read value) else old

-- The value in the last line with the key in which it can be read; the old one if there is none.
unfoldable pub last_value {ℓ} : {A : Type ℓ} → (Bytes → Option A) → Bytes → A → List Bytes → A
last_value read key old [] = old
last_value read key old (l ∷ ls) =
    last_value read key (value_at read key old (parse_key_value l)) ls

abbrev pub token : Bytes → Option Bytes
token value = some (first_token value)

abbrev pub clock_in : Bytes → Option Bytes
clock_in value = some (parse_clock_identity (first_token value))

abbrev pub port_in : Bytes → Option ℤ
port_in value = parse_port_number (first_token value)

abbrev pub steps_in : Floating → Bytes → Option ℤ
steps_in fl value = to_int (parse_nanoseconds fl value)

-- A key is not another one.
equal-other : (k a b : Bytes) → equal k a ≡ true → equal a b ≡ false → equal k b ≡ false
equal-other k a b t f = ap (λ k. equal k b) ((equal_iff k a).0 t) ∙ f

-- The snapshot with what these lines tell, and with what one line does.
abbrev pub default_told : PtpTopologySnapshot → List Bytes → PtpTopologySnapshot
default_told s ls = record s {
  local_clock_identity = last_value token (codes "clockIdentity") s.local_clock_identity ls;
}

default_line-told :
    (s : PtpTopologySnapshot) (l : Option (Bytes × Bytes))
    → default_line s l ≡ record s {
      local_clock_identity = value_at token (codes "clockIdentity") s.local_clock_identity l;
    }
unfolding default_line
default_line-told s none = refl
default_line-told s (some (key, value)) = elim (Bool-cases (equal key (codes "clockIdentity"))) [
  | inl t ↦ rw t refl
  | inr f ↦ rw f refl
]

pub scan-default :
    (ls : List Bytes) (s : PtpTopologySnapshot) → scan_lines default_line s ls ≡ default_told s ls
unfolding scan_lines last_value
scan-default [] s = refl
scan-default (l ∷ ls) s = rw (default_line-told s (parse_key_value l)) (scan-default ls _)

abbrev pub parent_told : PtpTopologySnapshot → List Bytes → PtpTopologySnapshot
parent_told s ls = record s {
  parent_clock_identity =
      last_value clock_in (codes "parentPortIdentity") s.parent_clock_identity ls;
  parent_port_number = last_value port_in (codes "parentPortIdentity") s.parent_port_number ls;
  grandmaster_identity = last_value token (codes "grandmasterIdentity") s.grandmaster_identity ls;
}

parent_line-told :
    (s : PtpTopologySnapshot) (l : Option (Bytes × Bytes))
    → parent_line s l ≡ record s {
      parent_clock_identity =
          value_at clock_in (codes "parentPortIdentity") s.parent_clock_identity l;
      parent_port_number = value_at port_in (codes "parentPortIdentity") s.parent_port_number l;
      grandmaster_identity = value_at token (codes "grandmasterIdentity") s.grandmaster_identity l;
    }
unfolding parent_line equal
parent_line-told s none = refl
parent_line-told s (some (key, value)) =
    elim (Bool-cases (equal key (codes "parentPortIdentity"))) [
      | inl t ↦
          rw (t, equal-other key (codes "parentPortIdentity") (codes "grandmasterIdentity") t refl)
            refl
      | inr f ↦ elim (Bool-cases (equal key (codes "grandmasterIdentity"))) [
        | inl t ↦ rw (f, t) refl
        | inr g ↦ rw (f, g) refl
      ]
    ]

pub scan-parent :
    (ls : List Bytes) (s : PtpTopologySnapshot) → scan_lines parent_line s ls ≡ parent_told s ls
unfolding scan_lines last_value
scan-parent [] s = refl
scan-parent (l ∷ ls) s = rw (parent_line-told s (parse_key_value l)) (scan-parent ls _)

module _ (fl : Floating) where
  abbrev pub current_told : PtpTopologySnapshot → List Bytes → PtpTopologySnapshot
  current_told s ls = record s {
    steps_removed = last_value (steps_in fl) (codes "stepsRemoved") s.steps_removed ls;
    mean_path_delay_ns =
        last_value (parse_nanoseconds fl) (codes "meanPathDelay") s.mean_path_delay_ns ls;
  }

  current_line-told :
      (s : PtpTopologySnapshot) (l : Option (Bytes × Bytes))
      → current_line fl s l ≡ record s {
        steps_removed = value_at (steps_in fl) (codes "stepsRemoved") s.steps_removed l;
        mean_path_delay_ns =
            value_at (parse_nanoseconds fl) (codes "meanPathDelay") s.mean_path_delay_ns l;
      }
  unfolding current_line equal
  current_line-told s none = refl
  current_line-told s (some (key, value)) = elim (Bool-cases (equal key (codes "stepsRemoved"))) [
    | inl t ↦ rw (t, equal-other key (codes "stepsRemoved") (codes "meanPathDelay") t refl) refl
    | inr f ↦ elim (Bool-cases (equal key (codes "meanPathDelay"))) [
      | inl t ↦ rw (f, t) refl
      | inr g ↦ rw (f, g) refl
    ]
  ]

  pub scan-current :
      (ls : List Bytes) (s : PtpTopologySnapshot)
      → scan_lines (current_line fl) s ls ≡ current_told s ls
  unfolding scan_lines last_value
  scan-current [] s = refl
  scan-current (l ∷ ls) s = rw (current_line-told s (parse_key_value l)) (scan-current ls _)
