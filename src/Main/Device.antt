-- ===== src/Main/Device.antt =====
-- The interface that `main` starts ptp4l with.
use time_agent.Base.{
  List, [], ◌∷◌, ◌++◌, ◌≡◌, ◌≢◌, ◌⊎◌, inl, inr, refl, sym, ◌∙◌, some, Bytes, codes, All, All-append,
  equal, arith,
}
use time_agent.Config.{ServiceConfig, AgentConfig}
use time_agent.Config.Loader.{Yaml, load}
use time_agent.Config.Loader.Services.{AreServices, AtMostOne, absent, present, load-AreServices}
use time_agent.Main.{subprocess, make_collector}

abbrev HasNoDevice : ServiceConfig → Type 0
HasNoDevice s = (s.name ≡ codes "ppswatch") ⊎ (s.dev ≡ [])

AtMostOne-All : {name : Bytes} {l : List ServiceConfig} → AtMostOne name l → All HasNoDevice l
AtMostOne-All absent = tt
AtMostOne-All (present r) = (elim r.no_device [ inl p ↦ inl (r.named ∙ p) | inr d ↦ inr d ], tt)

AreServices-All : (l : List ServiceConfig) → AreServices l → All HasNoDevice l
AreServices-All l r = rw r.splits (
    All-append HasNoDevice (r.a ++ r.b) r.c
      (All-append HasNoDevice r.a r.b (AtMostOne-All r.ptp4l) (AtMostOne-All r.phc2sys))
      (AtMostOne-All r.ppswatch))

All-at :
    (before after : List ServiceConfig) (s : ServiceConfig)
    → All HasNoDevice (before ++ s ∷ after)
    → HasNoDevice s
All-at [] after s h = h.0
All-at (b ∷ before) after s h = All-at before after s h.1

names_differ : codes "ptp4l" ≢ codes "ppswatch"
names_differ e = ground arith

ptp4l_command :
    (s : ServiceConfig)
    → s.name ≡ codes "ptp4l"
    → s.source ≡ codes "subproccess"
    → HasNoDevice s
    → make_collector s
      ≡ some (
          subprocess (codes "ptp4l") (
            codes "/usr/bin/stdbuf"
            ∷ codes "-oL"
            ∷ codes "ptp4l"
            ∷ codes "-i"
            ∷ []
            ∷ codes "-s"
            ∷ codes "-m"
            ∷ []))
unfolding make_collector equal
ptp4l_command s n c (inl p) = absurd (names_differ (sym n ∙ p))
ptp4l_command s n c (inr d) = rw (n, c, d) refl

-- Whatever device a configuration file gives for ptp4l: if the service of this name in the
-- configuration loaded has its source as a subprocess, `makeCollector` starts ptp4l with the empty
-- interface name behind "-i".
pub ptp4l_without_interface :
    (y : Yaml) (path : Bytes) {c : AgentConfig} (before after : List ServiceConfig)
    (s : ServiceConfig)
    → load y path ≡ some c
    → c.service ≡ before ++ s ∷ after
    → s.name ≡ codes "ptp4l"
    → s.source ≡ codes "subproccess"
    → make_collector s
      ≡ some (
          subprocess (codes "ptp4l") (
            codes "/usr/bin/stdbuf"
            ∷ codes "-oL"
            ∷ codes "ptp4l"
            ∷ codes "-i"
            ∷ []
            ∷ codes "-s"
            ∷ codes "-m"
            ∷ []))
ptp4l_without_interface y path {c} before after s h split n source =
    ptp4l_command s n source
      (All-at before after s (rw split at (AreServices-All c.service (load-AreServices y path h))))
