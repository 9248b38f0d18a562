-- ===== src/SysMetrics/Lifetime.antt =====
-- The descriptors of `SysMetricsCollector` from its constructor to its destructor.
use time_agent.Base.{
  ℕ, Bool, true, false, not, ◌&&◌, ◌||◌, List, ◌≡◌, refl, sym, ap, ◌∙◌, Option, none, some, Bytes,
  arith,
}
use time_agent.Config.{AgentConfig}
use time_agent.Os.{Os, IsPosix, close_fd}
use time_agent.Os.Descriptors.{Owns, is_fd, open_file-Owns, close_fd-is_open}
use time_agent.Network
use time_agent.Network.Ownership
use time_agent.Procfs.Cpu
use time_agent.Procfs.Memory
use time_agent.Temperature.{TempZone, HwmonEntry, Scan, done, throws}
use time_agent.Temperature.Zones
use time_agent.SysMetrics.{
  SystemPaths, SysMetricsCollector, construct, destroy, set_interface, with_zones, constructed,
}

-- The descriptors of the collectors but the network one, in the order of their opening.
abbrev pub files : SysMetricsCollector → ℕ → Bool
files c g =
    is_fd g c.memory_collector.fd
    || (is_fd g c.cpu_collector.fd || (Zones.owned c.temperature_zones g || false))

module _ (os : Os) (posix : IsPosix os) (exists : Bytes → Bool)
    (hwmon : Bytes → Option (List HwmonEntry)) (config : AgentConfig) (paths : SystemPaths) where
  open os use {World, is_open}

  -- What the agent does with the collector: it constructs it, sets interfaces, and destroys it.
  -- `collect` changes no descriptor.
  pub data Life (w0 : World) : World → SysMetricsCollector → Type 0 where
    born :
        {r : SysMetricsCollector × World}
        → construct os exists hwmon w0 config paths ≡ some r
        → Life w0 r.1 r.0
    renamed :
        {w : World} {c : SysMetricsCollector} (interface : Bytes)
        → Life w0 w c
        → Life w0 (set_interface os w c interface).1 (set_interface os w c interface).0

  -- The collector owns its files and, apart from them, the files of its interface.
  record IsOwner (w0 w : World) (c : SysMetricsCollector) : Type 0 where
    besides :
        (g : ℕ)
        → is_open w g
          ≡ (Ownership.owned g c.network_collector.metric_entries || (files c g || is_open w0 g))
    files_apart : (g : ℕ) → files c g ≡ true → is_open w0 g ≡ false
    network_apart :
        (g : ℕ)
        → Ownership.owned g c.network_collector.metric_entries ≡ true
        → (files c g || is_open w0 g) ≡ false

  with_zones-IsOwner :
      (w0 w : World) (zs : List TempZone)
      → Owns os posix (is_open w0) (λ g. Zones.owned zs g || false) w
      → IsOwner w0 (with_zones os paths (zs, w)).1 (with_zones os paths (zs, w)).0
  unfolding Cpu.construct Memory.construct Network.new_collector Ownership.owned
  with_zones-IsOwner w0 w zs o =
      let cpu = open_file-Owns os posix (is_open w0) _ w paths.proc_stat o in
      let memory =
        open_file-Owns os posix (is_open w0) _ (os.open_file w paths.proc_stat).1 paths.proc_meminfo
          cpu in
      record { besides = memory.besides; files_apart = memory.apart; network_apart = λ g h. cc }

  constructed-IsOwner :
      (w0 : World) (z : Scan (List TempZone × World)) {r : SysMetricsCollector × World}
      → Zones.Adds os posix exists (is_open w0) (λ g. false) z
      → constructed os paths z ≡ some r
      → IsOwner w0 r.1 r.0
  constructed-IsOwner w0 throws a e = absurd (cc)
  constructed-IsOwner w0 (done (zs, w)) a e =
      let same = ap (λ o. elim o [ none ↦ with_zones os paths (zs, w) | some r ↦ r ]) e in
      rw (← same) (with_zones-IsOwner w0 w zs a)

  construct-IsOwner :
      (w0 : World) {r : SysMetricsCollector × World}
      → construct os exists hwmon w0 config paths ≡ some r
      → IsOwner w0 r.1 r.0
  unfolding construct
  construct-IsOwner w0 e =
      let nothing : Owns os posix (is_open w0) (λ g. false) w0 = record {
        besides = λ g. refl;
        apart = λ g h. cc;
      } in
      constructed-IsOwner w0 _
        (Zones.construct-Adds os posix exists (is_open w0) (λ g. false) w0
          config.config_temperature_collector.sensors (hwmon paths.hwmon) nothing)
        e

  -- With the descriptors of the interface closed, the files and the others are left.
  network_closed :
      (w0 w : World) (c : SysMetricsCollector)
      → IsOwner w0 w c
      → (g : ℕ)
      → (not (Ownership.owned g c.network_collector.metric_entries) && is_open w g)
        ≡ (files c g || is_open w0 g)
  network_closed w0 w c o g = ground (arith, o.besides g, o.network_apart g)

  set_interface-IsOwner :
      (w0 w : World) (c : SysMetricsCollector) (interface : Bytes)
      → IsOwner w0 w c
      → IsOwner w0 (set_interface os w c interface).1 (set_interface os w c interface).0
  unfolding set_interface
  set_interface-IsOwner w0 w c interface o = record {
    besides = λ g.
        Ownership.set_interface-is_open os posix w c.network_collector interface g
        ∙ ap
            (λ b.
              Ownership.owned g
                (Network.set_interface os w c.network_collector interface).0.metric_entries
              || b)
            (network_closed w0 w c o g);
    files_apart = o.files_apart;
    network_apart = λ g h.
        sym (network_closed w0 w c o g)
        ∙ Ownership.set_interface-fresh os posix w c.network_collector interface g h;
  }

  Life-IsOwner : {w0 w : World} {c : SysMetricsCollector} → Life w0 w c → IsOwner w0 w c
  Life-IsOwner {w0} (born e) = construct-IsOwner w0 e
  Life-IsOwner {w0} (renamed {w} {c} interface l) =
      set_interface-IsOwner w0 w c interface (Life-IsOwner l)

  -- From the constructor to the destructor, with any interfaces set between them, nothing leaks and
  -- nothing of another owner is closed: after the destructor exactly those descriptors are open that
  -- were open before the constructor.
  pub destroy-construct :
      {w0 w : World} {c : SysMetricsCollector}
      → Life w0 w c
      → (g : ℕ) → is_open (destroy os w c) g ≡ is_open w0 g
  unfolding destroy Memory.destroy Cpu.destroy
  destroy-construct {w0} {w} {c} l g =
      let o = Life-IsOwner l in
      let w1 = close_fd os w c.memory_collector.fd in
      let w2 = close_fd os w1 c.cpu_collector.fd in
      let w3 = (Network.close_fds os w2 c.network_collector).1 in
      ground (
        arith,
        Zones.destroy-is_open os posix c.temperature_zones w3 g,
        Ownership.close_fds-is_open os posix w2 c.network_collector g,
        close_fd-is_open os posix w1 c.cpu_collector.fd g,
        close_fd-is_open os posix w c.memory_collector.fd g,
        o.besides g,
        o.files_apart g,
        o.network_apart g,
      )
