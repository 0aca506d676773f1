-- ===== src/Tui/State/Cpu/Percent.antt =====
-- What the load of the processor says (tui/stateinfo.c).
use amdtop.Base.{
  ℕ, ◌+◌, ◌*◌, ◌-◌, ◌/◌, ◌%◌, ◌==◌, ◌^◌, ◌≡◌, ◌≤◌, ◌<◌, Option, none, some, is_some, true, false,
  if◌then◌else◌, u64_mod, ltb, refl, arith, ap, ◌∙◌, Bool-cases, inl, inr,
}
use native.Mathlib.Nat.{mod-eq_of_lt, div-le_of_le-mul, le-div_iff_mul-le, div-eq_of_lt}
use amdtop.Tui.State.Cpu.{
  CpuStat, CpuLoad, sub64, cpu_percent, keep_percent, get_cpu_stat, get_cpu_load,
}

sub64-le : (a b : ℕ) → b ≤ a → a < 2 ^ 64 → sub64 a b ≡ a - b
sub64-le a b l m = omega arith

-- The time in which the processor had nothing to do.
abbrev pub idle_time : CpuStat → ℕ
idle_time s = s.idle + s.iowait

at_most : (q : ℕ) → q ≤ 1000 → sub64 1000 q % 1000 ≡ (if q == 0 then 0 else 1000 - q)
at_most q l = ground arith

lt_of-ltb : (a b : ℕ) → ltb a b ≡ true → a < b
lt_of-ltb a b e = ground arith

le_of-ltb : (a b : ℕ) → ltb a b ≡ false → b ≤ a
le_of-ltb a b e = ground arith

none_left :
    (a b : ℕ)
    → 0 < b
    → (if a / b == 0 then 0 else 1000 - a / b) ≡ (if ltb a b then 0 else 1000 - a / b)
none_left a b p = elim (Bool-cases (ltb a b)) [
  | inl t ↦ let e : a / b ≡ 0 = div-eq_of_lt (lt_of-ltb a b t) in rw (t, e) refl
  | inr t ↦
      let one : 1 ≤ a / b = (le-div_iff_mul-le p).1 (let l = le_of-ltb a b t in omega arith) in
      rw t (positive (a / b) one)
]
  where
    positive : (q : ℕ) → 1 ≤ q → (if q == 0 then 0 else 1000 - q) ≡ 1000 - q
    positive q l = ground arith

per_mille-lem :
    (idle total : ℕ)
    → idle ≤ total
    → 0 < total
    → total * 1000 < 2 ^ 64
    → sub64 1000 (idle * 1000 % u64_mod / total) % 1000
      ≡ (if ltb (idle * 1000) total then 0 else 1000 - idle * 1000 / total)
per_mille-lem idle total l p m =
    let small : idle * 1000 % u64_mod ≡ idle * 1000 = mod-eq_of_lt (omega arith) in
    let most : idle * 1000 / total ≤ 1000 = div-le_of_le-mul total (omega arith) in
    ap (λ n. sub64 1000 (n / total) % 1000) small
    ∙ at_most (idle * 1000 / total) most
    ∙ none_left (idle * 1000) total p

-- When no counter of /proc/stat has gone back and less than 2 ^ 64 / 1000 ticks have passed, the reading
-- of getCpuLoad is 1000 less the idle time in per mille of the time passed, rounded down, but 0 when the
-- processor had less than one per mille of idle time.
pub cpu_percent-idle :
    (cur last : CpuStat)
    → idle_time last ≤ idle_time cur
    → idle_time cur < 2 ^ 64
    → last.total < cur.total
    → cur.total < 2 ^ 64
    → idle_time cur - idle_time last ≤ cur.total - last.total
    → (cur.total - last.total) * 1000 < 2 ^ 64
    → cpu_percent cur last
      ≡ some (
          if ltb ((idle_time cur - idle_time last) * 1000) (cur.total - last.total)
          then 0
          else 1000 - (idle_time cur - idle_time last) * 1000 / (cur.total - last.total))
unfolding cpu_percent
cpu_percent-idle cur last l m lt mt part few =
    let idle = sub64-le (idle_time cur) (idle_time last) l m in
    let whole : idle_time cur % u64_mod ≡ idle_time cur = mod-eq_of_lt m in
    let whole' : idle_time last % u64_mod ≡ idle_time last = mod-eq_of_lt (omega arith) in
    let now : cur.total % u64_mod ≡ cur.total = mod-eq_of_lt mt in
    let before : last.total % u64_mod ≡ last.total = mod-eq_of_lt (omega arith) in
    let total = sub64-le cur.total last.total (omega arith) mt in
    let passed : (cur.total - last.total == 0) ≡ false = ground arith in
    rw (whole, whole', idle, now, before, total, passed)
      (ap some (
        per_mille-lem (idle_time cur - idle_time last) (cur.total - last.total) part (omega arith)
          few))

sub64-positive : (a b : ℕ) → a < 2 ^ 64 → b < 2 ^ 64 → (a == b) ≡ false → (sub64 a b == 0) ≡ false
sub64-positive a b l m e = ground arith

-- Two readings with different totals are not divided by zero.
pub is_some-cpu_percent :
    (cur last : CpuStat)
    → (cur.total % u64_mod == last.total % u64_mod) ≡ false
    → is_some (cpu_percent cur last) ≡ true
unfolding cpu_percent
is_some-cpu_percent cur last e =
    simp (sub64-positive (cur.total % u64_mod) (last.total % u64_mod) (omega arith) (omega arith) e)
      refl

is_some-keep_percent :
    (cur : CpuStat) (o : Option ℕ) → is_some o ≡ true → is_some (keep_percent cur o) ≡ true
is_some-keep_percent cur none e = e
is_some-keep_percent cur (some n) e = refl

-- Whatever /proc/stat says, `getCpuLoad` does not divide by zero.
pub is_some-get_cpu_load :
    (before after : Option CpuStat) (l : CpuLoad) → is_some (get_cpu_load before after l) ≡ true
unfolding get_cpu_load
is_some-get_cpu_load before after l = step last cur
  where
    zeros : CpuStat
    zeros = record {
      user = 0;
      nice = 0;
      system = 0;
      idle = 0;
      iowait = 0;
      irq = 0;
      soft_irq = 0;
      total = 0;
    }

    last : CpuStat
    last = if l.first then get_cpu_stat before zeros else l.last_stat

    cur : CpuStat
    cur = get_cpu_stat after (if l.first then zeros else l.stat)

    step :
        (last cur : CpuStat)
        → is_some (
            if cur.total % u64_mod == last.total % u64_mod
            then some (
              l.last_percent,
              record { last_stat = last; stat = cur; last_percent = l.last_percent; first = false },
            )
            else keep_percent cur (cpu_percent cur last))
          ≡ true
    step last cur = elim (Bool-cases (cur.total % u64_mod == last.total % u64_mod)) [
      | inl e ↦ simp e refl
      | inr e ↦
          simp e (is_some-keep_percent cur (cpu_percent cur last) (is_some-cpu_percent cur last e))
    ]
