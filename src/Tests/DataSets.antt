-- ===== src/Tests/DataSets.antt =====
-- Outputs of `pmc`.
use time_agent.Base.{
  refl, some, Bool-cases, inl, inr, List, [], ◌∷◌, ◌++◌, Bytes, codes, equal, if◌then◌else◌,
}
use time_agent.Base.Int.{pos}
use time_agent.Number.{show, to_string}
use time_agent.Config.{default_ptp_topology}
use time_agent.Topology.Parser.{parse}
use time_agent.Topology.Snapshot.{Describes, lines_of, parse-Describes}
use time_agent.Topology.Pmc.{ProcessRun, exits, build_args, collect}
use time_agent.Topology.Pmc.Answers.{Collects, WritesLines, collect-Collects}
use time_agent.Tests.Host.{whole}

abbrev default_set : Bytes
default_set = codes " clockIdentity 00a1.fffe.b2"

abbrev port_set : Bytes
port_set = codes "portIdentity 00a1.fffe.b2-1" ++ b'\n' ∷ codes "portState SLAVE"

parse-Describes_example :
    Describes whole 9
      (lines_of default_set [] (codes "stepsRemoved 1") port_set)
      (parse whole 9 default_set [] (codes "stepsRemoved 1") port_set)
parse-Describes_example = parse-Describes whole 9 default_set [] (codes "stepsRemoved 1") port_set

-- The command stands last.
abbrev asked : List Bytes → Bytes
asked [] = []
asked (a ∷ []) = a
asked (a ∷ b ∷ args) = asked (b ∷ args)

abbrev clock_lines : List Bytes
clock_lines = codes "clockIdentity 00a1" ∷ []

abbrev port_lines : List Bytes
port_lines = codes "portIdentity 00a1-1" ∷ codes "portState SLAVE" ∷ []

abbrev pmc : Bytes → List Bytes → ProcessRun
pmc path args =
    if equal (asked args) (codes "GET DEFAULT_DATA_SET")
    then exits clock_lines (pos 0)
    else if equal (asked args) (codes "GET PORT_DATA_SET")
    then exits port_lines (pos 0)
    else exits [] (pos 0)

pmc-WritesLines : (path : Bytes) (args : List Bytes) → WritesLines (pmc path args)
pmc-WritesLines path args = elim (Bool-cases (equal (asked args) (codes "GET DEFAULT_DATA_SET"))) [
  | inl t ↦ rw t (
    (
      refl,
      (
        refl,
        (
          refl,
          (
            refl,
            (
              refl,
              (
                refl,
                (
                  refl,
                  (
                    refl,
                    (
                      refl,
                      (refl, (refl, (refl, (refl, (refl, (refl, (refl, (refl, (refl, tt))))))))),
                    ),
                  ),
                ),
              ),
            ),
          ),
        ),
      ),
    ),
    tt,
  )
  | inr f ↦ elim (Bool-cases (equal (asked args) (codes "GET PORT_DATA_SET"))) [
    | inl t ↦
        rw (f, t)
          (
            (
              refl,
              (
                refl,
                (
                  refl,
                  (
                    refl,
                    (
                      refl,
                      (
                        refl,
                        (
                          refl,
                          (
                            refl,
                            (
                              refl,
                              (
                                refl,
                                (
                                  refl,
                                  (
                                    refl,
                                    (refl, (refl, (refl, (refl, (refl, (refl, (refl, tt))))))),
                                  ),
                                ),
                              ),
                            ),
                          ),
                        ),
                      ),
                    ),
                  ),
                ),
              ),
            ),
            (
              (
                refl,
                (
                  refl,
                  (
                    refl,
                    (
                      refl,
                      (
                        refl,
                        (
                          refl,
                          (
                            refl,
                            (refl, (refl, (refl, (refl, (refl, (refl, (refl, (refl, tt)))))))),
                          ),
                        ),
                      ),
                    ),
                  ),
                ),
              ),
              tt,
            ),
          )
    | inr g ↦ rw (f, g) tt
  ]
]

collect-Collects_example :
    Collects whole 9
      (some clock_lines)
      (some [])
      (some [])
      (some port_lines)
      (collect pmc default_ptp_topology whole 9)
unfolding equal build_args to_string show
collect-Collects_example = collect-Collects pmc default_ptp_topology whole 9 (λ command.
    pmc-WritesLines default_ptp_topology.pmc_path (build_args default_ptp_topology command))
