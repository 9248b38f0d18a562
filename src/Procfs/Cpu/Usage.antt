-- ===== src/Procfs/Cpu/Usage.antt =====
-- The usage between two samples of /proc/stat.
use time_agent.Base.{ℕ, ◌+◌, ◌-◌, ◌≤◌, ◌<◌, true, ◌≡◌, refl, ap, ◌∙◌, some, arith, ltb}
use time_agent.Base.Int.{two_64}
use time_agent.Floating.{Floating}
use time_agent.Procfs.Cpu.{
  CpuCollector, CpuTimes, idle_time, total_time, percent, usage, sample, sub_u64,
}

-- No counter of `p` is above that of `t`, and the counters of `t` do not overflow together.
pub record IsLater (p t : CpuTimes) : Type 0 where
  pub user : p.user ≤ t.user
  pub nice : p.nice ≤ t.nice
  pub system : p.system ≤ t.system
  pub idle : p.idle ≤ t.idle
  pub iowait : p.iowait ≤ t.iowait
  pub irq : p.irq ≤ t.irq
  pub softirq : p.softirq ≤ t.softirq
  pub steal : p.steal ≤ t.steal
  pub fits : t.user + t.nice + t.system + t.idle + t.iowait + t.irq + t.softirq + t.steal < two_64

abbrev pub sum : CpuTimes → ℕ
sum t = t.user + t.nice + t.system + t.idle + t.iowait + t.irq + t.softirq + t.steal

total_time-sum : (t : CpuTimes) → sum t < two_64 → total_time t ≡ sum t
unfolding total_time
total_time-sum t h = omega (arith, h)

idle_time-sum : (t : CpuTimes) → sum t < two_64 → idle_time t ≡ t.idle + t.iowait
unfolding idle_time
idle_time-sum t h = omega (arith, h)

below : (p t : CpuTimes) → IsLater p t → sum p ≤ sum t
below p t l = omega (arith, l.user, l.nice, l.system, l.idle, l.iowait, l.irq, l.softirq, l.steal)

-- The previous sample, as the collector keeps it.
abbrev keeps : CpuCollector → CpuTimes → CpuCollector
keeps c p = record c { prev_idle = p.idle + p.iowait; prev_total = sum p }

sub_u64-exact : (a b : ℕ) → b ≤ a → a < two_64 → sub_u64 a b ≡ a - b
sub_u64-exact a b h k = omega (arith, h, k)

sub_u64-wraps : (a b : ℕ) → a < b → b < two_64 → sub_u64 a b ≡ a + two_64 - b
sub_u64-wraps a b h k = omega (arith, h, k)

lt→ltb : (a b : ℕ) → a < b → ltb a b ≡ true
lt→ltb a b h = ground arith

module _ (fl : Floating) where
  sample-keeps :
      (c : CpuCollector) (p : CpuTimes) → sum p < two_64 → (sample fl c (some p)).1 ≡ keeps c p
  unfolding sample
  sample-keeps c p h =
      λ i. record { fd = c.fd; prev_idle = idle_time-sum p h i; prev_total = total_time-sum p h i }

  -- With the previous total not zero and the new one above it, both tests of the code pass.
  usage-busy :
      (c : CpuCollector) (t : CpuTimes)
      → 0 < c.prev_total
      → 0 < sub_u64 (total_time t) c.prev_total
      → usage fl c t
        ≡ percent fl (sub_u64 (idle_time t) c.prev_idle) (sub_u64 (total_time t) c.prev_total)
  unfolding usage
  usage-busy c t h k = rw (lt→ltb 0 c.prev_total h, lt→ltb 0 _ k) refl

  sample-usage : (c : CpuCollector) (t : CpuTimes) → (sample fl c (some t)).0 ≡ usage fl c t
  unfolding sample
  sample-usage c t = refl

  -- For two samples in a row whose counters do not fall and do not overflow together, the first one
  -- not all zero and some counter risen: the usage is 100 * (1 - idle / total) for the exact numbers
  -- of ticks idle, with those waiting for I/O, and in total that passed between the samples, and the
  -- idle ticks are at most the total, which is not zero.
  pub sample_lem :
      (c : CpuCollector) (p t : CpuTimes)
      → IsLater p t
      → 0 < sum p
      → sum p < sum t
      → (idle : ℕ) × (total : ℕ) × ((sample fl (sample fl c (some p)).1 (some t)).0
          ≡ percent fl idle total)
        × ((p.idle + p.iowait) + idle ≡ t.idle + t.iowait)
        × (sum p + total ≡ sum t)
        × (idle ≤ total)
        × (0 < total)
  sample_lem c p t l some_time h =
      let small : sum p < two_64 = omega (arith, l.fits) in
      let total : sub_u64 (total_time t) (sum p) ≡ sum t - sum p =
        ap (λ n. sub_u64 n (sum p)) (total_time-sum t l.fits)
        ∙ sub_u64-exact (sum t) (sum p) (below p t l) l.fits in
      let idle : sub_u64 (idle_time t) (p.idle + p.iowait)
          ≡ t.idle + t.iowait - (p.idle + p.iowait) =
        ap (λ n. sub_u64 n (p.idle + p.iowait)) (idle_time-sum t l.fits)
        ∙ sub_u64-exact (t.idle + t.iowait) (p.idle + p.iowait) (omega (arith, l.idle, l.iowait))
            (omega (arith, l.fits)) in
      let risen : 0 < sub_u64 (total_time t) (sum p) = rw total (omega (arith, h)) in
      (
        t.idle + t.iowait - (p.idle + p.iowait),
        sum t - sum p,
        ap (λ k. (sample fl k (some t)).0) (sample-keeps c p small)
            ∙ sample-usage (keeps c p) t
            ∙ usage-busy (keeps c p) t some_time risen
            ∙ (λ i. percent fl (idle i) (total i)),
        omega (arith, l.idle, l.iowait),
        omega (arith, h),
        omega (arith, l.user, l.nice, l.system, l.idle, l.iowait, l.irq, l.softirq, l.steal),
        omega (arith, h),
      )

  -- For two samples in a row with the second sum risen and not overflown, but less time idle, with
  -- that waiting for I/O, than before: the idle ticks wrap around. The usage is that of the exact
  -- total and of 2 ^ 64 less the ticks by which the idle time fell, which are more than the total.
  pub sample_wraps :
      (c : CpuCollector) (p t : CpuTimes)
      → sum t < two_64
      → sum p < sum t
      → t.idle + t.iowait < p.idle + p.iowait
      → (idle : ℕ) × (total : ℕ) × ((sample fl (sample fl c (some p)).1 (some t)).0
          ≡ percent fl idle total)
        × ((p.idle + p.iowait) + idle ≡ t.idle + t.iowait + two_64)
        × (sum p + total ≡ sum t)
        × (total < idle)
  sample_wraps c p t fits h fell =
      let small : sum p < two_64 = omega (arith, fits, h) in
      let total : sub_u64 (total_time t) (sum p) ≡ sum t - sum p =
        ap (λ n. sub_u64 n (sum p)) (total_time-sum t fits)
        ∙ sub_u64-exact (sum t) (sum p) (omega (arith, h)) fits in
      let idle : sub_u64 (idle_time t) (p.idle + p.iowait)
          ≡ t.idle + t.iowait + two_64 - (p.idle + p.iowait) =
        ap (λ n. sub_u64 n (p.idle + p.iowait)) (idle_time-sum t fits)
        ∙ sub_u64-wraps (t.idle + t.iowait) (p.idle + p.iowait) fell (omega (arith, small)) in
      let risen : 0 < sub_u64 (total_time t) (sum p) = rw total (omega (arith, h)) in
      (
        t.idle + t.iowait + two_64 - (p.idle + p.iowait),
        sum t - sum p,
        ap (λ k. (sample fl k (some t)).0) (sample-keeps c p small)
            ∙ sample-usage (keeps c p) t
            ∙ usage-busy (keeps c p) t (omega (arith, fell)) risen
            ∙ (λ i. percent fl (idle i) (total i)),
        omega (arith, small),
        omega (arith, h),
        omega (arith, fits, h, fell),
      )
