-- ===== src/Tui/State/Cpu.antt =====
-- tui/stateinfo.c: the load of the processor, from two readings of /proc/stat.
pub mod Percent
use amdtop.Base.{
  ℕ, ◌+◌, ◌*◌, ◌-◌, ◌/◌, ◌%◌, ◌==◌, Bool, true, false, Option, none, some, if◌then◌else◌, u32_mod,
  u64_mod,
}

-- `struct CpuStat` without `steal`, which is never used.
pub record CpuStat : Type 0 where
  pub user : ℕ
  pub nice : ℕ
  pub system : ℕ
  pub idle : ℕ
  pub iowait : ℕ
  pub irq : ℕ
  pub soft_irq : ℕ
  pub total : ℕ

-- The statics of `getCpuLoad`.
pub record CpuLoad : Type 0 where
  pub last_stat : CpuStat
  pub stat : CpuStat
  pub last_percent : ℕ
  pub first : Bool

abbrev zeros : CpuStat
zeros = record {
  user = 0;
  nice = 0;
  system = 0;
  idle = 0;
  iowait = 0;
  irq = 0;
  soft_irq = 0;
  total = 0;
}

-- `getCpuStat`: /proc/stat says seven numbers, or cannot be opened. The total of `read` is not used.
unfoldable pub get_cpu_stat : Option CpuStat → CpuStat → CpuStat
get_cpu_stat none s = s
get_cpu_stat (some read) s = record read {
  total =
      (read.user + read.nice + read.system + read.idle + read.iowait + read.irq + read.soft_irq)
      % u64_mod;
}

-- The difference of two numbers of 64 bits.
abbrev pub sub64 : ℕ → ℕ → ℕ
sub64 a b = (a + u64_mod - b) % u64_mod

-- The per mille of `getCpuLoad`; `none` is a division by zero.
unfoldable pub cpu_percent : (cur last : CpuStat) → Option ℕ
cpu_percent cur last =
    let idle = sub64 ((cur.idle + cur.iowait) % u64_mod) ((last.idle + last.iowait) % u64_mod) in
    let total = sub64 (cur.total % u64_mod) (last.total % u64_mod) in
    let avg_load = idle * 1000 % u64_mod / total in
    if total == 0 then none else some (sub64 1000 avg_load % 1000)

-- What `getCpuLoad` returns and leaves in its statics after the division.
abbrev pub keep_percent : CpuStat → Option ℕ → Option (ℕ × CpuLoad)
keep_percent cur none = none
keep_percent cur (some percent) =
    some (percent, record { last_stat = cur; stat = cur; last_percent = percent; first = false })

-- `getCpuLoad` with the readings of /proc/stat before and after its wait; the first is made only in
-- the first call. `none` is a division by zero.
unfoldable pub get_cpu_load : (before after : Option CpuStat) → CpuLoad → Option (ℕ × CpuLoad)
unfolding get_cpu_stat cpu_percent
get_cpu_load before after l =
    let last = if l.first then get_cpu_stat before zeros else l.last_stat in
    let cur = get_cpu_stat after (if l.first then zeros else l.stat) in
    if cur.total % u64_mod == last.total % u64_mod
    then some (
      l.last_percent,
      record { last_stat = last; stat = cur; last_percent = l.last_percent; first = false },
    )
    else keep_percent cur (cpu_percent cur last)
