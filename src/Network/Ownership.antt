-- ===== src/Network/Ownership.antt =====
-- Which descriptors are open after the calls of `NetworkCollector` that close and open them.
use time_agent.Base.{
  ℕ, Bool, true, false, sym, Bool-cases, not, ◌&&◌, ◌||◌, List, [], ◌∷◌, ◌++◌, ◌≡◌, refl, ap, ◌∙◌,
  Bytes, codes, inl, inr, arith,
}
use time_agent.Os.{Os, IsPosix, close_fd}
use time_agent.Os.Descriptors.{is_fd, close_fd-is_open, open_file-is_open, open_file-fresh}
use time_agent.Network.{
  Field, MetricEntry, NetworkCollector, network_metrics, close_entries, open_entries, set_interface,
  close_fds,
}

-- Some entry of the collector holds the descriptor.
unfoldable pub owned : ℕ → List MetricEntry → Bool
owned g [] = false
owned g (e ∷ es) = is_fd g e.fd || owned g es

module _ (os : Os) (posix : IsPosix os) where
  open os use {World, is_open, open_file}

  close_entries-is_open :
      (w : World) (es : List MetricEntry) (g : ℕ)
      → is_open (close_entries os w es).1 g ≡ (not (owned g es) && is_open w g)
  unfolding close_entries owned
  close_entries-is_open w [] g = refl
  close_entries-is_open w (e ∷ es) g =
      ground
        (arith, close_entries-is_open (close_fd os w e.fd) es g, close_fd-is_open os posix w e.fd g)

  open_entries-is_open :
      (w : World) (base : Bytes) (ds : List (Bytes × Field)) (g : ℕ)
      → is_open (open_entries os w base ds).1 g
        ≡ (owned g (open_entries os w base ds).0 || is_open w g)
  unfolding open_entries owned
  open_entries-is_open w base [] g = refl
  open_entries-is_open w base ((name, field) ∷ ds) g =
      let w' = (open_file w (base ++ (codes "/" ++ name))).1 in
      ground (
        arith,
        open_entries-is_open w' base ds g,
        open_file-is_open os posix w (base ++ (codes "/" ++ name)) g,
      )

  open_entries-fresh :
      (w : World) (base : Bytes) (ds : List (Bytes × Field)) (g : ℕ)
      → owned g (open_entries os w base ds).0 ≡ true
      → is_open w g ≡ false
  unfolding open_entries owned
  open_entries-fresh w base [] g h = cc
  open_entries-fresh w base ((name, field) ∷ ds) g h =
      let path = base ++ (codes "/" ++ name) in
      elim (Bool-cases (is_fd g (open_file w path).0)) [
        | inl t ↦ open_file-fresh os posix w path g t
        | inr f ↦ ground (
          arith,
          open_entries-fresh (open_file w path).1 base ds g (rw f at h),
          open_file-is_open os posix w path g,
        )
      ]

  -- A descriptor of the new entries was not open once the old ones had been closed.
  pub set_interface-fresh :
      (w : World) (c : NetworkCollector) (interface : Bytes) (g : ℕ)
      → owned g (set_interface os w c interface).0.metric_entries ≡ true
      → (not (owned g c.metric_entries) && is_open w g) ≡ false
  unfolding set_interface
  set_interface-fresh w c interface g h =
      sym (close_entries-is_open w c.metric_entries g)
      ∙ open_entries-fresh (close_entries os w c.metric_entries).1
          (c.net_stats_base ++ (codes "/" ++ (interface ++ codes "/statistics"))) network_metrics g
          h

  -- After `setInterface` the open descriptors are those of the new entries and those that were open
  -- before and did not belong to the old entries: none of the collector's old descriptors leaks, and
  -- no descriptor of another owner is closed.
  pub set_interface-is_open :
      (w : World) (c : NetworkCollector) (interface : Bytes) (g : ℕ)
      → let (c', w') = set_interface os w c interface in
        is_open w' g
        ≡ (owned g c'.metric_entries || (not (owned g c.metric_entries) && is_open w g))
  unfolding set_interface
  set_interface-is_open w c interface g =
      let w' = (close_entries os w c.metric_entries).1 in
      let path = c.net_stats_base ++ (codes "/" ++ (interface ++ codes "/statistics")) in
      open_entries-is_open w' path network_metrics g
      ∙ ap (λ b. owned g (open_entries os w' path network_metrics).0 || b)
          (close_entries-is_open w c.metric_entries g)

  unowned : (w : World) (es : List MetricEntry) (g : ℕ) → owned g (close_entries os w es).0 ≡ false
  unfolding close_entries owned
  unowned w [] g = refl
  unowned w (e ∷ es) g = unowned (close_fd os w e.fd) es g

  -- `closeFds`, which the destructor calls too, closes exactly the descriptors that the collector
  -- holds, and the collector holds none afterwards, so that a second call closes nothing.
  pub close_fds-is_open :
      (w : World) (c : NetworkCollector) (g : ℕ)
      → let (c', w') = close_fds os w c in
        (is_open w' g ≡ (not (owned g c.metric_entries) && is_open w g))
        × (owned g c'.metric_entries ≡ false)
  unfolding close_fds
  close_fds-is_open w c g =
      (close_entries-is_open w c.metric_entries g, unowned w c.metric_entries g)
