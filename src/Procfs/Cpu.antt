-- ===== src/Procfs/Cpu.antt =====
-- `CpuCollector`, src/system_metrics.cpp lines 267 to 333. Sums and differences are those of
-- `uint64_t`, modulo 2^64.
pub mod Usage
use time_agent.Base.{ℕ, ◌+◌, ◌-◌, ◌%◌, Option, none, some, Bytes, codes, ltb, if◌then◌else◌, ◌>>=◌}
use time_agent.Base.Int.{two_64}
use time_agent.Os.{Os, close_fd}
use time_agent.Floating.{Floating}
use time_agent.Metrics.{CpuStats}
use time_agent.Procfs.{Source, find_line_prefix, parse_next, read_source}

pub record CpuCollector : Type 0 where
  pub fd : Option ℕ
  pub prev_idle : ℕ
  pub prev_total : ℕ

module _ (os : Os) where
  unfoldable pub construct : os.World → Bytes → CpuCollector × os.World
  construct w proc_stat =
      let (fd, w') = os.open_file w proc_stat in
      (record { fd = fd; prev_idle = 0; prev_total = 0 }, w')

  -- The destructor.
  unfoldable pub destroy : os.World → CpuCollector → os.World
  destroy w c = close_fd os w c.fd

-- `sizeof(buf_) - 1`
abbrev pub cpu_buffer : ℕ
cpu_buffer = 16383

abbrev pub add_u64 : ℕ → ℕ → ℕ
add_u64 a b = (a + b) % two_64

abbrev pub sub_u64 : ℕ → ℕ → ℕ
sub_u64 a b = (a + two_64 - b) % two_64

-- The first eight fields of the line "cpu ".
pub record CpuTimes : Type 0 where
  pub user : ℕ
  pub nice : ℕ
  pub system : ℕ
  pub idle : ℕ
  pub iowait : ℕ
  pub irq : ℕ
  pub softirq : ℕ
  pub steal : ℕ

unfoldable pub parse_times : Bytes → Option CpuTimes
parse_times p = do
  (user, p) ← parse_next p
  (nice, p) ← parse_next p
  (system, p) ← parse_next p
  (idle, p) ← parse_next p
  (iowait, p) ← parse_next p
  (irq, p) ← parse_next p
  (softirq, p) ← parse_next p
  (steal, p) ← parse_next p
  some (record {
    user = user;
    nice = nice;
    system = system;
    idle = idle;
    iowait = iowait;
    irq = irq;
    softirq = softirq;
    steal = steal;
  })

unfoldable pub idle_time : CpuTimes → ℕ
idle_time t = add_u64 t.idle t.iowait

unfoldable pub total_time : CpuTimes → ℕ
total_time t =
    add_u64
      (add_u64
        (add_u64 (add_u64 (add_u64 (add_u64 (add_u64 t.user t.nice) t.system) t.idle) t.iowait)
          t.irq)
        t.softirq)
      t.steal

module _ (fl : Floating) where
  open fl use {Double, of_u64, sub, mul, div}

  -- `100.0 * (1.0 - idle / total)`
  unfoldable pub percent : ℕ → ℕ → Double
  percent idle total = mul (of_u64 100) (sub (of_u64 1) (div (of_u64 idle) (of_u64 total)))

  -- The usage since the previous sample; the field's initial value where there is none.
  unfoldable pub usage : CpuCollector → CpuTimes → Double
  unfolding percent
  usage c t =
      if ltb 0 c.prev_total
      then (if ltb 0 (sub_u64 (total_time t) c.prev_total)
          then percent (sub_u64 (idle_time t) c.prev_idle) (sub_u64 (total_time t) c.prev_total)
          else of_u64 0)
      else of_u64 0

  unfoldable pub sample : CpuCollector → Option CpuTimes → Double × CpuCollector
  unfolding usage
  sample c none = (of_u64 0, c)
  sample c (some t) = (usage c t, record c { prev_idle = idle_time t; prev_total = total_time t })

  -- `if (p) { parseNext(p, end, field); }` on a field that holds 0.
  unfoldable pub counter : Option (ℕ × Bytes) → ℕ
  counter none = 0
  counter (some (n, rest)) = n

  abbrev field : Bytes → Bytes → ℕ
  field buf key = counter (do p ← find_line_prefix buf key; parse_next p)

  abbrev collect_buffer : CpuCollector → Bytes → Option (CpuStats Double) × CpuCollector
  collect_buffer c buf =
      let (percent_used, c') =
        sample c (do p ← find_line_prefix buf (codes "cpu "); parse_times p) in
      (
        some (record {
          usage_percent = percent_used;
          context_switches = field buf (codes "ctxt ");
          interrupts = field buf (codes "intr ");
          softirqs = field buf (codes "softirq ");
        }),
        c',
      )

  collect_read : CpuCollector → Option Bytes → Option (CpuStats Double) × CpuCollector
  collect_read c none = (none, c)
  collect_read c (some buf) = collect_buffer c buf

  unfoldable pub collect : CpuCollector → Source → Option (CpuStats Double) × CpuCollector
  unfolding collect_read
  collect c source = collect_read c (read_source cpu_buffer source)
