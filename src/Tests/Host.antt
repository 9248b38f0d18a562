-- ===== src/Tests/Host.antt =====
-- Runs on a line of ptp4l, the output of pmc, samples of /proc/stat and the name of an adapter.
use time_agent.Base.{
  refl, ◌++◌, ◌∷◌, [], ℕ, zero, suc, ◌+◌, ◌-◌, ◌*◌, ◌/◌, ◌≤◌, ◌<◌, true, ◌≡◌, none, some, Bytes,
  codes, arith,
}
use time_agent.Base.Int.{pos}
use time_agent.Collector.Phc2Sys
use time_agent.Collector.Phc2Sys.Metrics.{Reports, parse_metrics-Reports}
use time_agent.Collector.Ptp4l.{parse_metrics}
use time_agent.Collector.Ptp4l.Metrics.{Says, parse_metrics-Says}
use time_agent.Collector.Buffers.{IsWithin, sscanf-IsWithin}
use time_agent.Base.Int.{two_64}
use time_agent.Floating.{Floating}
use time_agent.Procfs.Cpu.{CpuCollector, CpuTimes, percent, sample}
use time_agent.Procfs.Cpu.Usage.{IsLater, sum, sample_lem, sample_wraps}
use time_agent.Number.Hex.{hex}
use time_agent.Resolver.{PciAddress, PciDevice, resolve, show_rev}
use time_agent.Resolver.Names.{print_address, resolve-print_address}
use time_agent.Resolver.Resources.{IsBalanced, resolve-IsBalanced}

abbrev pad : ℕ → Bytes
pad zero = []
pad (suc n) = b'x' ∷ pad n

abbrev line : Bytes
line = codes "[1.5] master offset 5 s2 freq -3 path delay 7"

parse_metrics-Says_example : Says line (parse_metrics line)
parse_metrics-Says_example = parse_metrics-Says line

-- Whole numbers in place of `double`.
abbrev pub whole : Floating
whole = record {
  Double = ℕ;
  stod = λ s. none;
  llround = pos;
  of_u64 = λ n. n;
  sub = ◌-◌;
  mul = ◌*◌;
  div = ◌/◌;
}

abbrev before : CpuTimes
before = record {
  user = 10;
  nice = 0;
  system = 5;
  idle = 100;
  iowait = 2;
  irq = 0;
  softirq = 1;
  steal = 0;
}

abbrev after : CpuTimes
after = record before { user = 30; idle = 150 }

after-IsLater : IsLater before after
after-IsLater = record {
  user = omega arith;
  nice = omega arith;
  system = omega arith;
  idle = omega arith;
  iowait = omega arith;
  irq = omega arith;
  softirq = omega arith;
  steal = omega arith;
  fits = omega arith;
}

abbrev new_cpu : CpuCollector
new_cpu = record { fd = none; prev_idle = 0; prev_total = 0 }

sample_lem_example :
    (idle : ℕ) × (total : ℕ) × ((sample whole (sample whole new_cpu (some before)).1 (some after)).0
      ≡ percent whole idle total)
    × ((before.idle + before.iowait) + idle ≡ after.idle + after.iowait)
    × (sum before + total ≡ sum after)
    × (idle ≤ total)
    × (0 < total)
sample_lem_example = sample_lem whole new_cpu before after after-IsLater (omega arith) (omega arith)

abbrev card : PciDevice
card = record { has_ident = true; vendor_id = 32902; device_id = 5379; rev_id = 3 }

resolve-IsBalanced_example :
    IsBalanced
      (resolve true
        (λ a. some card)
        (λ v. codes "Intel")
        (λ v d. codes "I210")
        true
        (λ name. some (codes "0000:3b:00.0"))
        (codes "eth0")).1
resolve-IsBalanced_example =
    resolve-IsBalanced true (λ a. some card) (λ v. codes "Intel") (λ v d. codes "I210") true
      (λ name. some (codes "0000:3b:00.0")) (codes "eth0")

abbrev summary_line : Bytes
summary_line = codes "[1.5] CLOCK_REALTIME rms 5 max 9 freq -3 +/- 1 delay 7 +/- 0"

parse_metrics-Reports_example : Reports summary_line (Phc2Sys.parse_metrics summary_line)
parse_metrics-Reports_example = parse_metrics-Reports summary_line

-- A port name longer than its array.
sscanf-IsWithin_example : IsWithin (codes "[1.5] port 1 (" ++ (pad 200 ++ codes "): A to B on C"))
sscanf-IsWithin_example =
    sscanf-IsWithin (codes "[1.5] port 1 (" ++ (pad 200 ++ codes "): A to B on C"))

abbrev address : PciAddress
address = record { domain = 0; bus = 59; device = 0; function = 1 }

address-print : print_address address ≡ codes "0000:3b:00.1"
unfolding hex
address-print = refl

resolve-print_address_example :
    (resolve true
      (λ a. some card)
      (λ v. codes "Intel")
      (λ v d. codes "I210")
      true
      (λ name. some (print_address address))
      (codes "eth0")).0
    ≡ codes "Intel I210 (rev 03)"
unfolding show_rev
resolve-print_address_example =
    resolve-print_address true (λ a. some card) (λ v. codes "Intel") (λ v d. codes "I210") true
      (λ name. some (print_address address)) (codes "eth0") address
      (record {
        domain_fits = omega arith;
        bus_fits = omega arith;
        device_fits = omega arith;
        function_fits = omega arith;
      })
      refl

-- The time idle has fallen.
abbrev fallen : CpuTimes
fallen = record before { user = 1000; idle = 0 }

sample_wraps_example :
    (idle : ℕ) × (total : ℕ) × ((sample whole
        (sample whole new_cpu (some before)).1
        (some fallen)).0
      ≡ percent whole idle total)
    × ((before.idle + before.iowait) + idle ≡ fallen.idle + fallen.iowait + two_64)
    × (sum before + total ≡ sum fallen)
    × (total < idle)
sample_wraps_example =
    sample_wraps whole new_cpu before fallen (omega arith) (omega arith) (omega arith)
