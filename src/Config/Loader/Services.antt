-- ===== src/Config/Loader/Services.antt =====
-- The services that a configuration file defines.
use time_agent.Base.{
  List, [], ◌∷◌, ◌++◌, ◌≡◌, refl, ap, ◌∙◌, Option, some, Bytes, codes, inl, inr, ◌⊎◌, arith,
  >>=-eq-some, append-nil,
}
use time_agent.Config.{ServiceConfig, AgentConfig}
use time_agent.Config.Loader.{
  Yaml, Access, undefined, found, read_service, read_ppswatch, add_service, read_services,
  load_root, load, section, when_found,
}

-- A service with this name, and with no device unless it is ppswatch.
pub record IsService (name : Bytes) (s : ServiceConfig) : Type 0 where
  pub named : s.name ≡ name
  pub no_device : (name ≡ codes "ppswatch") ⊎ (s.dev ≡ [])

-- A list of at most one service of this name.
pub data AtMostOne (name : Bytes) : List ServiceConfig → Type 0 where
  absent : AtMostOne name []
  present : {s : ServiceConfig} → IsService name s → AtMostOne name (s ∷ [])

-- The services in the order of the code, each at most once.
pub record AreServices (l : List ServiceConfig) : Type 0 where
  pub a : List ServiceConfig
  pub b : List ServiceConfig
  pub c : List ServiceConfig
  pub splits : l ≡ (a ++ b) ++ c
  pub ptp4l : AtMostOne (codes "ptp4l") a
  pub phc2sys : AtMostOne (codes "phc2sys") b
  pub ppswatch : AtMostOne (codes "ppswatch") c

module _ (y : Yaml) where
  open y use {Node, get}

  read_service-IsService :
      (name : Bytes) (n : Node) {s : ServiceConfig}
      → read_service y name n ≡ some s
      → IsService name s
  unfolding read_service
  read_service-IsService name n h = record { named = ground arith; no_device = inr (ground arith) }

  read_ppswatch-IsService :
      (n : Node) {s : ServiceConfig} → read_ppswatch y n ≡ some s → IsService (codes "ppswatch") s
  unfolding read_ppswatch
  read_ppswatch-IsService n h = record { named = ground arith; no_device = inl refl }

  -- A block adds nothing, or one service that it has read.
  add_service-AtMostOne :
      (name : Bytes) (a : Access Node) (read : Node → Option ServiceConfig) (c : List ServiceConfig)
      {l : List ServiceConfig}
      → ((n : Node) (s : ServiceConfig) → read n ≡ some s → IsService name s)
      → add_service y a read c ≡ some l
      → (x : List ServiceConfig) × (l ≡ c ++ x) × AtMostOne name x
  unfolding add_service
  add_service-AtMostOne name undefined read c h e = ([], ground (arith, append-nil c), absent)
  add_service-AtMostOne name (found n) read c h e =
      let (s, r, k) = >>=-eq-some (read n) (λ s. some (c ++ s ∷ [])) e in
      (s ∷ [], ground arith, present (h n s r))
  add_service-AtMostOne name Access.throws read c h e = absurd (cc)

  read_services-AreServices :
      (n : Node) {l : List ServiceConfig} → read_services y n [] ≡ some l → AreServices l
  unfolding read_services
  read_services-AreServices n e =
      let (a, p, e') =
        >>=-eq-some (add_service y (get n "ptp4l") (read_service y (codes "ptp4l")) []) _ e in
      let (b, q, e'') =
        >>=-eq-some (add_service y (get n "phc2sys") (read_service y (codes "phc2sys")) a) _ e' in
      let (xa, sa, pa) =
        add_service-AtMostOne (codes "ptp4l") _ _ [] (read_service-IsService (codes "ptp4l")) p in
      let (xb, sb, pb) =
        add_service-AtMostOne (codes "phc2sys") _ _ a (read_service-IsService (codes "phc2sys"))
          q in
      let (xc, sc, pc) =
        add_service-AtMostOne (codes "ppswatch") _ _ b read_ppswatch-IsService e'' in
      record {
        a = xa;
        b = xb;
        c = xc;
        splits = sc ∙ ap (λ l. l ++ xc) (sb ∙ ap (λ l. l ++ xb) sa);
        ptp4l = pa;
        phc2sys = pb;
        ppswatch = pc;
      }

  load_root-services :
      (root : Node) {c : AgentConfig}
      → load_root y root ≡ some c
      → section y root "services" (read_services y) [] ≡ some c.service
  unfolding load_root
  load_root-services root h = ground arith

  section_services :
      (a : Access Node) {l : List ServiceConfig}
      → when_found y a (λ n. read_services y n []) [] ≡ some l
      → AreServices l
  section_services undefined h = record {
    a = [];
    b = [];
    c = [];
    splits = ground arith;
    ptp4l = absent;
    phc2sys = absent;
    ppswatch = absent;
  }
  section_services (found n) h = read_services-AreServices n h
  section_services Access.throws h = absurd (cc)

  -- The services of a configuration that loads: ptp4l, phc2sys and ppswatch, in this order, each at
  -- most once; and none but ppswatch has a device, whatever the file says.
  pub load-AreServices :
      (path : Bytes) {c : AgentConfig} → load y path ≡ some c → AreServices c.service
  unfolding load section
  load-AreServices path h =
      let (root, f, e) = >>=-eq-some (y.load_file path) (load_root y) h in
      section_services (get root "services") (load_root-services root e)
