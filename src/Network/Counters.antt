-- ===== src/Network/Counters.antt =====
-- Which entry `NetworkCollector::collect` reads for each member.
use time_agent.Base.{
  ℕ, List, [], ◌∷◌, ◌++◌, ◌≡◌, ◌≢◌, refl, sym, ap, ◌∙◌, none, some, Bytes, codes, map, >>=-eq-some,
  All,
}
use time_agent.Metrics.{NetworkStats}
use time_agent.Os.{Os}
use time_agent.Network.{
  Field, rx_packets, tx_packets, rx_dropped, tx_dropped, rx_errors, tx_errors, collisions,
  MetricEntry, network_metrics, open_entries, collect_entries, read_counter, store,
}

-- The value of a member.
abbrev pub value_of : NetworkStats → Field → ℕ
value_of s rx_packets = s.rx_packets
value_of s tx_packets = s.tx_packets
value_of s rx_dropped = s.rx_dropped
value_of s tx_dropped = s.tx_dropped
value_of s rx_errors = s.rx_errors
value_of s tx_errors = s.tx_errors
value_of s collisions = s.collisions

-- The member is none of these.
abbrev Apart : Field → List Field → Type 0
Apart f fs = All (λ g. f ≢ g) fs

abbrev pub Distinct : List Field → Type 0
Distinct [] = Unit
Distinct (f ∷ fs) = Apart f fs × Distinct fs

pub network_metrics-Distinct : Distinct (map (λ d. d.1) network_metrics)
network_metrics-Distinct = (
  ((λ e. cc), ((λ e. cc), ((λ e. cc), ((λ e. cc), ((λ e. cc), ((λ e. cc), tt)))))),
  (
    ((λ e. cc), ((λ e. cc), ((λ e. cc), ((λ e. cc), ((λ e. cc), tt))))),
    (
      ((λ e. cc), ((λ e. cc), ((λ e. cc), ((λ e. cc), tt)))),
      (
        ((λ e. cc), ((λ e. cc), ((λ e. cc), tt))),
        (((λ e. cc), ((λ e. cc), tt)), (((λ e. cc), tt), (tt, tt))),
      ),
    ),
  ),
)

value_of-store : (f : Field) (n : ℕ) (s : NetworkStats) → value_of (store (some f) n s) f ≡ n
unfolding store
value_of-store rx_packets n s = refl
value_of-store tx_packets n s = refl
value_of-store rx_dropped n s = refl
value_of-store tx_dropped n s = refl
value_of-store rx_errors n s = refl
value_of-store tx_errors n s = refl
value_of-store collisions n s = refl

value_of-store_other :
    (f g : Field) (n : ℕ) (s : NetworkStats)
    → f ≢ g
    → value_of (store (some g) n s) f ≡ value_of s f
unfolding store
value_of-store_other rx_packets rx_packets n s h = absurd (h refl)
value_of-store_other rx_packets _ n s h = refl
value_of-store_other tx_packets tx_packets n s h = absurd (h refl)
value_of-store_other tx_packets _ n s h = refl
value_of-store_other rx_dropped rx_dropped n s h = absurd (h refl)
value_of-store_other rx_dropped _ n s h = refl
value_of-store_other tx_dropped tx_dropped n s h = absurd (h refl)
value_of-store_other tx_dropped _ n s h = refl
value_of-store_other rx_errors rx_errors n s h = absurd (h refl)
value_of-store_other rx_errors _ n s h = refl
value_of-store_other tx_errors tx_errors n s h = absurd (h refl)
value_of-store_other tx_errors _ n s h = refl
value_of-store_other collisions collisions n s h = absurd (h refl)
value_of-store_other collisions _ n s h = refl

-- The entries hold these members, in order.
abbrev pub HasFields : List MetricEntry → List Field → Type 0
HasFields [] [] = Unit
HasFields (e ∷ es) (f ∷ fs) = (e.field ≡ some f) × HasFields es fs
HasFields _ _ = ⊥

module _ (os : Os) where
  open os use {World}

  -- Each entry holds a member, its file was read, and the member has the number in it.
  pub data AllRead (w : World) (s : NetworkStats) : List MetricEntry → List Field → Type 0 where
    none_left : AllRead w s [] []
    read :
        {e : MetricEntry} {es : List MetricEntry} {f : Field} {fs : List Field}
        → e.field ≡ some f
        → read_counter os w e ≡ some (value_of s f)
        → AllRead w s es fs
        → AllRead w s (e ∷ es) (f ∷ fs)

  -- The entries that `setInterface` makes hold the members of the table.
  pub open_entries-HasFields :
      (ds : List (Bytes × Field)) (w : World) (base : Bytes)
      → HasFields (open_entries os w base ds).0 (map (λ d. d.1) ds)
  unfolding open_entries
  open_entries-HasFields [] w base = tt
  open_entries-HasFields ((name, field) ∷ ds) w base =
      (refl, open_entries-HasFields ds (os.open_file w (base ++ (codes "/" ++ name))).1 base)

  -- Later entries leave the other members alone.
  collect_entries-Apart :
      (w : World) (es : List MetricEntry) (fs : List Field) (f : Field) (a : NetworkStats)
      {s : NetworkStats}
      → HasFields es fs
      → Apart f fs
      → collect_entries os w es a ≡ some s
      → value_of s f ≡ value_of a f
  unfolding collect_entries
  collect_entries-Apart w [] [] f a h k r =
      ap (λ o. elim o [ none ↦ value_of a f | some t ↦ value_of t f ]) (sym r)
  collect_entries-Apart w [] (g ∷ gs) f a h k r = absurd h
  collect_entries-Apart w (e ∷ es) [] f a h k r = absurd h
  collect_entries-Apart w (e ∷ es) (g ∷ gs) f a (h, hs) (k, ks) r =
      let (n, c, r') = >>=-eq-some (read_counter os w e) _ r in
      collect_entries-Apart w es gs f (store e.field n a) hs ks r'
      ∙ ap (λ o. value_of (store o n a) f) h
      ∙ value_of-store_other f g n a k

  pub collect_entries-AllRead :
      (w : World) (es : List MetricEntry) (fs : List Field) (a : NetworkStats) {s : NetworkStats}
      → HasFields es fs
      → Distinct fs
      → collect_entries os w es a ≡ some s
      → AllRead w s es fs
  unfolding collect_entries
  collect_entries-AllRead w [] [] a h d r = none_left
  collect_entries-AllRead w [] (f ∷ fs) a h d r = absurd h
  collect_entries-AllRead w (e ∷ es) [] a h d r = absurd h
  collect_entries-AllRead w (e ∷ es) (f ∷ fs) a (h, hs) (d, ds) r =
      let (n, c, r') = >>=-eq-some (read_counter os w e) _ r in
      let kept = collect_entries-Apart w es fs f (store e.field n a) hs d r' in
      read h
        (c ∙ ap some (sym (kept ∙ ap (λ o. value_of (store o n a) f) h ∙ value_of-store f n a)))
        (collect_entries-AllRead w es fs (store e.field n a) hs ds r')
