-- ===== src/Main/Endpoint.antt =====
-- The endpoint of the default configuration.
use time_agent.Base.{
  ℕ, Bool, List, [], ◌≡◌, Option, none, Bytes, arith, inl, inr, Option-cases, >>=-eq-some,
}
use time_agent.Base.Int.{ℤ}
use time_agent.Config.{ZmqConfig, default_config}
use time_agent.Config.Loader.{Yaml, load, load_or_default}
use time_agent.Main.{CollectorSpec}
use time_agent.Main.Program.{config_path, start_up}
use time_agent.Os.{Os}
use time_agent.Temperature.{HwmonEntry}
use time_agent.Adapter.Socket
use time_agent.Adapter.Socket.{Zmq}

construct-none :
    (z : Zmq) (unset : ℤ) (c : ZmqConfig)
    → ((s : z.Socket) → z.connect s c.endpoint ≡ none)
    → Socket.construct z unset c ≡ none
unfolding Socket.construct
construct-none z unset c h = elim (Option-cases (Socket.construct z unset c)) [
  | inl e ↦ e
  | inr (x, e) ↦
      let (s1, e1, f1) = >>=-eq-some z.create _ e in
      let (s2, e2, f2) = >>=-eq-some (z.set_sndhwm s1 _) _ f1 in
      let (s3, e3, f3) = >>=-eq-some (z.set_linger s2 _) _ f2 in absurd (ground (arith, h s3, f3))
]

module _ (y : Yaml) (starts : CollectorSpec → Bool) (z : Zmq) (unset : ℤ) (os : Os)
    (exists : Bytes → Bool) (hwmon : Bytes → Option (List HwmonEntry)) (Double : Type 0) where
  -- Where the configuration cannot be loaded, `main` goes on with the default one, whose endpoint is
  -- empty. As the library of the socket refuses an empty endpoint, the constructor of the adapter
  -- throws, and an exception that nothing catches ends the program: it never runs with the default
  -- configuration.
  pub default_endpoint_refused :
      (argv : List Bytes) (euid : ℕ) (w : os.World)
      → load y (config_path argv) ≡ none
      → ((s : z.Socket) → z.connect s [] ≡ none)
      → start_up y starts z unset os exists hwmon {Double = Double} argv euid w ≡ none
  unfolding start_up load_or_default default_config
  default_endpoint_refused argv euid w h refused =
      ground (arith, h, construct-none z unset default_config.config_zmq refused)
