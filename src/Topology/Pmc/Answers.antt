-- ===== src/Topology/Pmc/Answers.antt =====
-- What `PtpTopologyCollector::collect` delivers, in terms of the lines that the four runs of `pmc`
-- write.
use time_agent.Base.{
  ℕ, List, [], ◌∷◌, ◌++◌, ◌≡◌, refl, ap, ◌∙◌, Option, none, some, Bytes, codes, ◌==◌, All,
  Option-cases, inl, inr, ◌⊎◌, arith, if◌then◌else◌, NonePass,
}
use time_agent.Base.Int.{pos, negsuc}
use time_agent.Text.{lines}
use time_agent.Floating.{Floating}
use time_agent.Config.{PtpTopologyConfig}
use time_agent.Topology.{PtpTopologySnapshot}
use time_agent.Topology.Parser.{parse}
use time_agent.Topology.Snapshot.{DataSets, Describes, parse-Describes}
use time_agent.Topology.Pmc.{
  ProcessRun, throws, exits, build_args, run_command, collect, join_lines, value_or, output_of,
}

-- A process writes lines, which have no line break in them.
abbrev pub WritesLines : ProcessRun → Type 0
WritesLines throws = Unit
WritesLines (exits out code) = All (NonePass (λ c. c == b'\n')) out

-- The lines of a run that ends well.
abbrev pub answer : ProcessRun → Option (List Bytes)
answer throws = none
answer (exits out (pos n)) = if n == 0 then some out else none
answer (exits out (negsuc n)) = none

lines-line :
    (l rest : Bytes) → NonePass (λ c. c == b'\n') l → lines (l ++ b'\n' ∷ rest) ≡ l ∷ lines rest
unfolding lines
lines-line [] rest h = refl
lines-line (c ∷ l) rest h = rw (h.0, lines-line l rest h.1) refl

-- Reading the text of a run gives its lines back.
lines-join_lines :
    (out : List Bytes) → All (NonePass (λ c. c == b'\n')) out → lines (join_lines out) ≡ out
unfolding lines
lines-join_lines [] h = refl
lines-join_lines (l ∷ out) h =
    lines-line l (join_lines out) h.0 ∙ ap (◌∷◌ l) (lines-join_lines out h.1)

output_of-none : (r : ProcessRun) → answer r ≡ none → output_of r ≡ none
unfolding output_of
output_of-none throws h = refl
output_of-none (exits out (pos n)) h = ground arith
output_of-none (exits out (negsuc n)) h = refl

-- The text of a run that ends well reads as its lines.
output_of-some :
    (r : ProcessRun) {out : List Bytes}
    → WritesLines r
    → answer r ≡ some out
    → (text : Bytes) × (output_of r ≡ some text) × (lines text ≡ out)
unfolding output_of
output_of-some throws w h = absurd (cc)
output_of-some (exits out (pos n)) w h =
    (join_lines out, ground arith, lines-join_lines out w ∙ ground arith)
output_of-some (exits out (negsuc n)) w h = absurd (cc)

-- A run that fails counts as one with no lines.
lines-value_or :
    (r : ProcessRun) → WritesLines r → lines (value_or [] (output_of r)) ≡ value_or [] (answer r)
unfolding lines
lines-value_or r w = elim (Option-cases (answer r)) [
  | inl h ↦ rw (output_of-none r h, h) refl
  | inr (out, h) ↦ let (text, o, l) = output_of-some r w h in rw (o, h) l
]

-- What the answers come to: nothing where the default or the parent data set is not answered;
-- otherwise what the lines describe, with none for a data set that is not answered.
pub data Collects (fl : Floating) (now : ℕ) (own parent current ports : Option (List Bytes))
    : Option PtpTopologySnapshot → Type 0 where
  unanswered : (own ≡ none) ⊎ (parent ≡ none) → Collects fl now own parent current ports none
  answered :
      {own_lines parent_lines : List Bytes} {r : Option PtpTopologySnapshot}
      → own ≡ some own_lines
      → parent ≡ some parent_lines
      → Describes fl now
          (record {
            default_set = own_lines;
            parent_set = parent_lines;
            current_set = value_or [] current;
            port_set = value_or [] ports;
          })
          r
      → Collects fl now own parent current ports r

Describes-texts :
    (fl : Floating) (now : ℕ) {d : DataSets} (own_text parent_text current_text port_text : Bytes)
    → lines own_text ≡ d.default_set
    → lines parent_text ≡ d.parent_set
    → lines current_text ≡ d.current_set
    → lines port_text ≡ d.port_set
    → Describes fl now d (parse fl now own_text parent_text current_text port_text)
Describes-texts fl now own_text parent_text current_text port_text a b c e =
    rw (← a, ← b, ← c, ← e) (parse-Describes fl now own_text parent_text current_text port_text)

module _ (pmc : Bytes → List Bytes → ProcessRun) (config : PtpTopologyConfig) (fl : Floating)
    (now : ℕ) where
  abbrev run : Bytes → ProcessRun
  run command = pmc config.pmc_path (build_args config command)

  -- The collector delivers what the lines describe that `pmc` writes in answer to its four commands,
  -- under the arguments that it builds: nothing where the run for the default or the parent data set
  -- throws or fails, and no lines of a data set for which one of the others does. A line of a process
  -- has no line break in it.
  pub collect-Collects :
      ((command : Bytes) → WritesLines (run command))
      → Collects fl now
          (answer (run (codes "GET DEFAULT_DATA_SET")))
          (answer (run (codes "GET PARENT_DATA_SET")))
          (answer (run (codes "GET CURRENT_DATA_SET")))
          (answer (run (codes "GET PORT_DATA_SET")))
          (collect pmc config fl now)
  unfolding collect run_command
  collect-Collects w = elim (Option-cases (answer (run (codes "GET DEFAULT_DATA_SET")))) [
    | inl h ↦ rw (output_of-none (run (codes "GET DEFAULT_DATA_SET")) h) (unanswered (inl h))
    | inr (own, h) ↦ elim (Option-cases (answer (run (codes "GET PARENT_DATA_SET")))) [
      | inl k ↦
          let (text, o, l) = output_of-some (run (codes "GET DEFAULT_DATA_SET")) (w _) h in
          rw (o, output_of-none (run (codes "GET PARENT_DATA_SET")) k) (unanswered (inr k))
      | inr (parent, k) ↦
          let (own_text, o, l) = output_of-some (run (codes "GET DEFAULT_DATA_SET")) (w _) h in
          let (parent_text, p, m) = output_of-some (run (codes "GET PARENT_DATA_SET")) (w _) k in
          rw (o, p)
            (answered h k (
              Describes-texts fl now own_text parent_text
                (value_or [] (output_of (run (codes "GET CURRENT_DATA_SET"))))
                (value_or [] (output_of (run (codes "GET PORT_DATA_SET")))) l m
                (lines-value_or (run (codes "GET CURRENT_DATA_SET")) (w _))
                (lines-value_or (run (codes "GET PORT_DATA_SET")) (w _))))
    ]
  ]
