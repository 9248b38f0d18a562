-- ===== src/Main/Readers.antt =====
-- The collectors that `main` builds and the handlers that `run` has for them.
use time_agent.Base.{
  ℕ, Bool, List, [], ◌∷◌, ◌≡◌, sym, ap, ◌∙◌, Option, some, Bytes, codes, equal, equal_iff, inl, inr,
  arith, Bool-cases, Option-cases, >>=-eq-some, All,
}
use time_agent.Base.Int.{ℤ}
use time_agent.Config.{ServiceConfig, AgentConfig}
use time_agent.Config.Loader.{Yaml, load_or_default}
use time_agent.Main.{
  CollectorSpec, journal, subprocess, make_collector, put, build_collectors, add_collector,
}
use time_agent.Main.Program.{Started, config_path, start_up}
use time_agent.Os.{Os}
use time_agent.Temperature.{HwmonEntry}
use time_agent.Adapter.Socket.{Zmq}
use time_agent.Adapter.Socket
use time_agent.Agent.{handler}
use time_agent.Agent.Setup
use time_agent.Agent.Setup.{AgentParts, Handler, start_readers}

-- The unit whose lines the collector delivers.
abbrev pub unit_of : CollectorSpec → Bytes
unit_of (journal unit) = unit
unit_of (subprocess unit args) = unit

module _ {Double : Type 0} where
  -- The readers of these collectors, in order: each with the handler of its collector's unit.
  pub data AllStarted
      : List (Bytes × CollectorSpec) → List (CollectorSpec × Handler Double) → Type 0 where
    nothing : AllStarted [] []
    started :
        {m : List (Bytes × CollectorSpec)} {rs : List (CollectorSpec × Handler Double)}
        {c : CollectorSpec} {h : Handler Double}
        → handler (unit_of c) ≡ some h
        → AllStarted m rs
        → AllStarted ((unit_of c, c) ∷ m) ((c, h) ∷ rs)

module _ (Double : Type 0) where
  -- A collector stands under the name of its unit, and there is a handler for it.
  record Fits (entry : Bytes × CollectorSpec) : Type 0 where
    named : entry.0 ≡ unit_of entry.1
    handled : (h : Handler Double) × (handler entry.0 ≡ some h)

  make_collector-Fits :
      (cfg : ServiceConfig) (c : CollectorSpec) → make_collector cfg ≡ some c → Fits (cfg.name, c)
  unfolding make_collector handler
  make_collector-Fits cfg c e = record {
    named = ground (
      arith,
      equal_iff cfg.name (codes "ptp4l"),
      equal_iff cfg.name (codes "phc2sys"),
      equal_iff cfg.name (codes "ppswatch"),
    );
    handled = elim (Option-cases (handler {Double = Double} cfg.name)) [
      | inr r ↦ r
      | inl f ↦ absurd (ground arith)
    ];
  }

  put-Fits :
      (k : Bytes) (c : CollectorSpec) (m : List (Bytes × CollectorSpec))
      → Fits (k, c)
      → All Fits m
      → All Fits (put k c m)
  unfolding put
  put-Fits k c [] f a = (f, tt)
  put-Fits k c ((j, d) ∷ m) f (g, a) = elim (Bool-cases (equal j k)) [
    | inl t ↦ rw t (f, a)
    | inr t ↦ rw t (g, put-Fits k c m f a)
  ]

  module _ (starts : CollectorSpec → Bool) where
    add_collector-Fits :
        (cfg : ServiceConfig) (m : List (Bytes × CollectorSpec))
        → All Fits m
        → All Fits (add_collector starts cfg m)
    unfolding add_collector
    add_collector-Fits cfg m a = elim (Bool-cases cfg.on) [
      | inr off ↦ rw off a
      | inl on ↦ elim (Option-cases (make_collector cfg)) [
        | inl e ↦ rw (e, on) a
        | inr (c, e) ↦ elim (Bool-cases (starts c)) [
          | inr t ↦ rw (e, on, t) a
          | inl t ↦ rw (e, on, t) (put-Fits cfg.name c m (make_collector-Fits cfg c e) a)
        ]
      ]
    ]

    build_collectors-Fits :
        (m : List (Bytes × CollectorSpec)) (cfgs : List ServiceConfig)
        → All Fits m
        → All Fits (build_collectors starts m cfgs)
    unfolding build_collectors
    build_collectors-Fits m [] a = a
    build_collectors-Fits m (cfg ∷ cfgs) a =
        build_collectors-Fits (add_collector starts cfg m) cfgs (add_collector-Fits cfg m a)

  start_readers-AllStarted :
      (m : List (Bytes × CollectorSpec))
      → All Fits m
      → AllStarted {Double = Double} m (start_readers m)
  unfolding start_readers
  start_readers-AllStarted [] a = nothing
  start_readers-AllStarted ((name, c) ∷ m) (f, a) =
      let (h, e) = f.handled in
      rw e (rw f.named (started (sym (ap handler f.named) ∙ e) (start_readers-AllStarted m a)))

  module _ (y : Yaml) (starts : CollectorSpec → Bool) (z : Zmq) (unset : ℤ) (os : Os)
      (exists : Bytes → Bool) (hwmon : Bytes → Option (List HwmonEntry)) where
    construct-collectors :
        (w : os.World) (collectors : List (Bytes × CollectorSpec)) (config : AgentConfig)
        {r : AgentParts CollectorSpec × os.World}
        → Setup.construct os exists hwmon w collectors config ≡ some r
        → r.0.collectors ≡ collectors
    unfolding Setup.construct
    construct-collectors w collectors config e = ground arith

    start_up-collectors :
        (argv : List Bytes) (euid : ℕ) (w : os.World) {s : Started Double z.Socket os.World}
        → start_up y starts z unset os exists hwmon argv euid w ≡ some s
        → (s.agent.collectors
            ≡ build_collectors starts [] (load_or_default y (config_path argv)).service)
          × (s.readers ≡ start_readers s.agent.collectors)
    unfolding start_up
    start_up-collectors argv euid w {s} e =
        let config = load_or_default y (config_path argv) in
        let (socket, _, f) = >>=-eq-some (Socket.construct z unset config.config_zmq) _ e in
        let (made, g, k) = >>=-eq-some (Setup.construct os exists hwmon w _ config) _ f in
        (ground (arith, construct-collectors w _ config g), ground arith)

    -- When `main` has started up, the agent has the collectors built from the services of the
    -- configuration, and `run` has passed over none of them: each has a reader, with the handler of
    -- the unit whose lines it delivers.
    pub start_up-AllStarted :
        (argv : List Bytes) (euid : ℕ) (w : os.World) {s : Started Double z.Socket os.World}
        → start_up y starts z unset os exists hwmon argv euid w ≡ some s
        → (s.agent.collectors
            ≡ build_collectors starts [] (load_or_default y (config_path argv)).service)
          × AllStarted s.agent.collectors s.readers
    start_up-AllStarted argv euid w e =
        let (built, read) = start_up-collectors argv euid w e in
        let services = (load_or_default y (config_path argv)).service in
        (
          built,
          rw (read, built)
              (start_readers-AllStarted _ (build_collectors-Fits starts [] services tt)),
        )
