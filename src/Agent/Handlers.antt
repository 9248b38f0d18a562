-- ===== src/Agent/Handlers.antt =====
-- What the three handlers do with an event.
pub mod Lines
use time_agent.Base.{
  ℕ, suc, ◌≤◌, true, false, List, [], ◌∷◌, ◌≡◌, refl, some, Bytes, codes, equal, inl, inr, ◌⊎◌,
  arith, Option-cases, Bool-cases, All,
}
use time_agent.Text.{contains}
use time_agent.Collector.{CollectorEvent, PortEvent}
use time_agent.Collector.Ptp4l
use time_agent.Collector.Pps
use time_agent.Collector.Pps.{pps_format, pps_stores, fresh}
use time_agent.Scanf.{Value, int, assign, sscanf}
use time_agent.Collector.Ptp4l.{parse_port_event}
use time_agent.Adapter.{ptp, phc2sys, pps, sys, port_event, topology}
use time_agent.Agent.{
  Effect, set_interface, send, Context, handle_ptp4l, handle_phc2sys, handle_pps, handler,
}

module _ {Double : Type 0} where
  -- A sample carries the time and the unit of the event, and goes out under the agent's node. A
  -- topology snapshot has a time of its own.
  abbrev pub IsStamped : Context → CollectorEvent → Effect Double → Type 0
  IsStamped x e (set_interface name) = Unit
  IsStamped x e (send (ptp m) node) =
      (m.timestamp_us ≡ e.ts_usec) × (m.unit ≡ e.unit) × (node ≡ x.node)
  IsStamped x e (send (phc2sys m) node) =
      (m.timestamp_us ≡ e.ts_usec) × (m.unit ≡ e.unit) × (node ≡ x.node)
  IsStamped x e (send (pps m) node) =
      (m.timestamp_us ≡ e.ts_usec) × (m.unit ≡ e.unit) × (node ≡ x.node)
  IsStamped x e (send (port_event m) node) =
      (m.timestamp_us ≡ e.ts_usec) × (m.unit ≡ e.unit) × (node ≡ x.node)
  IsStamped x e (send (topology s) node) =
      (x.collect_topology ≡ some s) × (x.topology_enabled ≡ true) × (node ≡ x.node)
  IsStamped x e (send (sys m) node) = ⊥

  -- How many effects are samples sent, and how many change the interface.
  abbrev pub sends : List (Effect Double) → ℕ
  sends [] = 0
  sends (send m node ∷ xs) = suc (sends xs)
  sends (set_interface name ∷ xs) = sends xs

  abbrev pub interfaces : List (Effect Double) → List Bytes
  interfaces [] = []
  interfaces (send m node ∷ xs) = interfaces xs
  interfaces (set_interface name ∷ xs) = name ∷ interfaces xs

module _ (Double : Type 0) where
  -- What one event may cause.
  pub record IsProper (x : Context) (e : CollectorEvent) (xs : List (Effect Double)) : Type 0 where
    pub stamped : All (IsStamped x e) xs
    pub one_send : sends xs ≤ 1
    pub interface_known :
        (interfaces xs ≡ [])
        ⊎ ((p : PortEvent) × (parse_port_event e.msg ≡ some p)
            × (contains (codes "/") p.port_name ≡ false)
            × (interfaces xs ≡ p.port_name ∷ [])
            × (sends xs ≡ 1))

  handle_ptp4l-IsProper : (x : Context) (e : CollectorEvent) → IsProper x e (handle_ptp4l x e)
  unfolding handle_ptp4l
  handle_ptp4l-IsProper x e = record {
    stamped = ground arith;
    one_send = ground arith;
    interface_known = elim (Option-cases (Ptp4l.parse_metrics e.msg)) [
      | inr (m, f) ↦ inl (ground arith)
      | inl f ↦ elim (Option-cases (parse_port_event e.msg)) [
        | inl g ↦ inl (ground arith)
        | inr (p, g) ↦ elim (Bool-cases (contains (codes "/") p.port_name)) [
          | inl slash ↦ inl (ground arith)
          | inr plain ↦ inr (p, g, plain, ground arith, ground arith)
        ]
      ]
    ];
  }

  handle_phc2sys-IsProper : (x : Context) (e : CollectorEvent) → IsProper x e (handle_phc2sys x e)
  unfolding handle_phc2sys
  handle_phc2sys-IsProper x e = record {
    stamped = ground arith;
    one_send = ground arith;
    interface_known = ground arith;
  }

  handle_pps-IsProper : (x : Context) (e : CollectorEvent) → IsProper x e (handle_pps x e)
  unfolding handle_pps
  handle_pps-IsProper x e = record {
    stamped = ground arith;
    one_send = ground arith;
    interface_known = ground arith;
  }

  handler-cases :
      (name : Bytes) (h : Context → CollectorEvent → List (Effect Double))
      → handler name ≡ some h
      → (handle_ptp4l ≡ h) ⊎ ((handle_phc2sys ≡ h) ⊎ (handle_pps ≡ h))
  unfolding handler
  handler-cases name h eq = elim (Bool-cases (equal name (codes "ptp4l"))) [
    | inl p ↦ inl (cc)
    | inr p ↦ elim (Bool-cases (equal name (codes "phc2sys"))) [
      | inl q ↦ inr (inl (cc))
      | inr q ↦ elim (Bool-cases (equal name (codes "ppswatch"))) [
        | inl r ↦ inr (inr (cc))
        | inr r ↦ absurd (ground arith)
      ]
    ]
  ]

  -- Whatever handler a collector's name has: for one event it sends at most one sample, with the
  -- time and unit of the event (a topology snapshot: the one collected, only if the collector is
  -- enabled) under the agent's node; and it sets at most one interface, that of a port event whose
  -- port name has no slash, which is then sent too.
  pub handler-IsProper :
      (name : Bytes) (h : Context → CollectorEvent → List (Effect Double)) (x : Context)
      (e : CollectorEvent)
      → handler name ≡ some h
      → IsProper x e (h x e)
  handler-IsProper name h x e eq = elim (handler-cases name h eq) [
    | inl p ↦ rw (← p) (handle_ptp4l-IsProper x e)
    | inr (inl p) ↦ rw (← p) (handle_phc2sys-IsProper x e)
    | inr (inr p) ↦ rw (← p) (handle_pps-IsProper x e)
  ]

  pps_store-unset :
      (vs : List Value) (v w : ℕ)
      → (assign pps_stores vs (fresh v)).offset ≡ (assign pps_stores vs (fresh w)).offset
  unfolding assign
  pps_store-unset [] v w = refl
  pps_store-unset (a ∷ []) v w = refl
  pps_store-unset (a ∷ b ∷ []) v w = refl
  pps_store-unset (a ∷ b ∷ int z ∷ vs) v w = refl
  pps_store-unset (a ∷ b ∷ c ∷ vs) v w = refl

  -- The value that the uninitialised time stamp of `PPSStats` happens to hold is never seen.
  pub handle_pps-unset :
      (x : Context) (e : CollectorEvent) (v : ℕ)
      → handle_pps {Double = Double} (record x { unset = v }) e ≡ handle_pps x e
  unfolding handle_pps Pps.parse_metrics
  handle_pps-unset x e v = ground (arith, pps_store-unset (sscanf e.msg pps_format) v x.unset)
