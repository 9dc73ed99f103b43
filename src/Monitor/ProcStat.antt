-- ===== src/Monitor/ProcStat.antt =====
-- The readings of /proc/stat: CPUStats of include/myqueue/cpu_monitor.h, parseCPULine, readProcStat
-- and calculateUtilization of src/core/cpu_monitor.cpp. A double is its bit pattern, and the
-- arithmetic on doubles is a parameter.
use myqueue.Prelude.{
  ℕ, ◌+◌, ◌-◌, ◌%◌, ◌^◌, Bool, false, ◌&&◌, Option, none, some, List, [], ◌∷◌, is_some,
  if◌then◌else◌, ◌==◌,
}
use myqueue.Prelude.Int.{ℤ, pos, negsuc, eqb, lez}
use myqueue.Prelude.Parse.{split_on, stoi, word, extract_ull, Stream}
use myqueue.Prelude.Text.{Bytes, text, text_eq}

abbrev pub Double : Type 0
Double = ℕ

-- What the code computes with doubles.
pub record Fpu : Type 0 where
  pub flt : Double → Double → Bool
  pub fge : Double → Double → Bool
  pub fdiv : Double → Double → Double
  pub fmul : Double → Double → Double
  pub fmin : Double → Double → Double
  pub fmax : Double → Double → Double
  pub of_ull : ℕ → Double

-- 0.0, 100.0 and -1.0 in IEEE 754.
abbrev pub zero_double : Double
zero_double = 0

abbrev pub hundred_double : Double
hundred_double = 0x4059000000000000

abbrev pub minus_one_double : Double
minus_one_double = 0xbff0000000000000

pub record CpuStats : Type 0 where
  pub user : ℕ
  pub nice : ℕ
  pub system : ℕ
  pub idle : ℕ
  pub iowait : ℕ
  pub irq : ℕ
  pub softirq : ℕ
  pub steal : ℕ

abbrev pub no_stats : CpuStats
no_stats = record {
  user = 0;
  nice = 0;
  system = 0;
  idle = 0;
  iowait = 0;
  irq = 0;
  softirq = 0;
  steal = 0;
}

-- Sums and differences of unsigned long long wrap.
unfoldable pub total : CpuStats → ℕ
total s = (s.user + s.nice + s.system + s.idle + s.iowait + s.irq + s.softirq + s.steal) % 2 ^ 64

unfoldable pub idle_time : CpuStats → ℕ
idle_time s = (s.idle + s.iowait) % 2 ^ 64

abbrev pub sub_ull : ℕ → ℕ → ℕ
sub_ull a b = (a + 2 ^ 64 - b) % 2 ^ 64

unfoldable pub active_time : CpuStats → ℕ
unfolding total idle_time
active_time s = sub_ull (total s) (idle_time s)

abbrev pub starts_with_cpu : Bytes → Bool
starts_with_cpu (c ∷ p ∷ u ∷ r) = c == b'c' && (p == b'p' && u == b'u')
starts_with_cpu _ = false

abbrev pub after_cpu : Bytes → Bytes
after_cpu (c ∷ p ∷ u ∷ r) = r
after_cpu _ = []

-- The core that a label names, -1 for the aggregate; `none` if it is no label of a CPU.
core_of_label : Bytes → Option ℤ
core_of_label label =
    if text_eq label (text "cpu")
    then some (negsuc 0)
    else if starts_with_cpu label
    then stoi (after_cpu label)
    else none

-- `if (!(iss >> x)) x = 0;`
extract_or_zero : Stream → ℕ × Stream
extract_or_zero s = let (x, s') = extract_ull s 0 in (if is_some s' then x else 0, s')

parse_stats : Stream → CpuStats
parse_stats s =
    let (user, s1) = extract_ull s 0 in
    let (nice, s2) = extract_ull s1 0 in
    let (system, s3) = extract_ull s2 0 in
    let (idle, s4) = extract_ull s3 0 in
    let (iowait, s5) = extract_or_zero s4 in
    let (irq, s6) = extract_or_zero s5 in
    let (softirq, s7) = extract_or_zero s6 in
    let (steal, s8) = extract_or_zero s7 in
    record {
      user = user;
      nice = nice;
      system = system;
      idle = idle;
      iowait = iowait;
      irq = irq;
      softirq = softirq;
      steal = steal;
    }

-- The core of a line is -2 if the line is invalid.
unfoldable pub parse_cpu_line : Bytes → ℤ × CpuStats
unfolding core_of_label extract_or_zero parse_stats
parse_cpu_line line =
    let (label, rest) = word line in
    elim (core_of_label label) [
      | none ↦ (negsuc 1, no_stats)
      | some core ↦ (core, parse_stats (some rest))
    ]

-- A std::map<int, ...> that is written and looked up only: the newest entry stands first.
unfoldable pub find_core {ℓ} : {V : Type ℓ} → ℤ → List (ℤ × V) → Option V
find_core core [] = none
find_core core ((c, v) ∷ m) = if eqb c core then some v else find_core core m

-- The loop over the lines of /proc/stat.
read_lines : List Bytes → List (ℤ × CpuStats) → List (ℤ × CpuStats)
unfolding parse_cpu_line
read_lines [] stats = stats
read_lines (line ∷ lines) stats =
    let (core, cpu) = parse_cpu_line line in
    read_lines lines
      (if starts_with_cpu line && lez (pos 0) core then (core, cpu) ∷ stats else stats)

unfoldable pub read_proc_stat : Bytes → List (ℤ × CpuStats)
unfolding read_lines
read_proc_stat content = read_lines (split_on 10 content) []

unfoldable pub calculate_utilization : Fpu → CpuStats → CpuStats → Double
unfolding total idle_time
calculate_utilization fpu prev curr =
    let total_diff = sub_ull (total curr) (total prev) in
    let idle_diff = sub_ull (idle_time curr) (idle_time prev) in
    if total_diff == 0
    then zero_double
    else fpu.fmax zero_double (
        fpu.fmin hundred_double (
          fpu.fmul (fpu.fdiv (fpu.of_ull (sub_ull total_diff idle_diff)) (fpu.of_ull total_diff))
            hundred_double))
