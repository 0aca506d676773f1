-- ===== src/Tui/State/Safe.antt =====
-- When the gauges of the state page can be drawn (tui/stateinfo.c).
use amdtop.Base.{
  ℕ, zero, suc, ◌/◌, ◌%◌, ◌^◌, ◌==◌, ◌≡◌, ◌≤◌, sub32, ◌∙◌, Bool, true, false, Option, none, some, ℤ,
  pos, negsuc, is_zero, is_some, if◌then◌else◌, refl, arith, ap, ltb, inl, inr, Bool-cases, u32_mod,
}
use amdtop.Tui.World
use amdtop.Tui.World.{World, Env, Cmd, History, ColorType, Text}
use amdtop.Tui.Screen.{mvwprintwc}
use amdtop.Tui.Bar.{Bar, bar_set_value, bar_set_max_value, draw_bar, bar_update_label}
use amdtop.Tui.Bar.Value.{fault-bar_set_value}
use amdtop.Tui.State.{
  BarType, bar_code, StatePage, Answers, Action, checked, ◌>>◌, ask, draw, set_bar, set_max,
  set_value, show_sensor, show_label, with_cpu_load, show_cpu, update_sensor_value, log_query,
  need_device, Label, cpu_load, sys_mem,
}
use amdtop.Tui.State.Cpu.{CpuLoad, get_cpu_load}
use amdtop.Tui.State.Cpu.Percent.{is_some-get_cpu_load}
use Prim.Native.String.{String}

-- A gauge whose maximum is not zero, and whose unit fits its label.
abbrev pub CanDraw : Bar → Type 0
CanDraw b = ((b.max == 0) ≡ false) × (b.unit_size ≤ 14)

-- All gauges can be drawn.
unfoldable pub Positive : StatePage → Type 0
Positive p = (t : BarType) → CanDraw (p.bars t)

-- An action that keeps the gauges drawable, and does not crash with such gauges.
unfoldable pub Safe : Action → Type 0
unfolding Positive
Safe m =
    (p : StatePage) (w : World)
    → Positive p
    → w.fault ≡ false
    → Positive (m p w).1 × ((m p w).2.fault ≡ false)

-- A result with drawable gauges, and what is done after it.
pub Safe-checked :
    (k : Action) (r : ℤ × StatePage × World)
    → Safe k
    → Positive r.1
    → r.2.fault ≡ false
    → Positive (checked r k).1 × ((checked r k).2.fault ≡ false)
unfolding Safe
Safe-checked k (pos zero, p, w) g b e = g p w b e
Safe-checked k (pos (suc n), p, w) g b e = (b, e)
Safe-checked k (negsuc n, p, w) g b e = (b, e)

pub Safe-then : (m k : Action) → Safe m → Safe k → Safe (m >> k)
unfolding Safe ◌>>◌
Safe-then m k f g p w a e =
    let (b, e') = f p w a e in Safe-checked k (m p w) (unfold Safe in g) b e'

pub Safe-ask :
    {A : Type 0} (s : String) (n : ℕ) (q : History → ℤ × A) (k : A → Action)
    → ((h : History) → Safe (k (q h).1))
    → Safe (ask s n q k)
unfolding Safe Positive ask
Safe-ask s n q k f p w a e = elim (Bool-cases (is_zero (q w.log).0)) [
  | inl z ↦ simp z (f w.log p (log_query s n w) a e)
  | inr z ↦ simp z (a, e)
]

pub Safe-draw : (m : Cmd) → ((w : World) → (m w).1.fault ≡ w.fault) → Safe (draw m)
unfolding Safe Positive draw
Safe-draw m f p w a e = (a, f w ∙ e)

pub Safe-need_device : (device : Option ℕ) → is_some device ≡ true → Safe (need_device device)
unfolding Safe Positive need_device
Safe-need_device none there p w a e = cc
Safe-need_device (some d) there p w a e = (a, e)

max-set_bar :
    (t : BarType) (b : Bar) (p : StatePage) → CanDraw b → Positive p → Positive (set_bar t b p)
unfolding Positive
max-set_bar t b p e a u = step (bar_code u == bar_code t)
  where
    step : (c : Bool) → CanDraw (if c then b else p.bars u)
    step true = e
    step false = a u

pub Safe-set_max : (t : BarType) (n : ℕ) → ((n % u32_mod) == 0) ≡ false → Safe (set_max t n)
unfolding Safe Positive set_max bar_set_max_value
Safe-set_max t n h p w a e =
    (max-set_bar t (record (p.bars t) { max = n % u32_mod }) p (h, (a t).1) a, e)

module _ (env : Env) where
  fault-mvwprintwc :
      (n : Option ℕ) (y x : ℕ) (c : ColorType) (s : Text) (w : World)
      → (mvwprintwc env n y x c s w).1.fault ≡ w.fault
  unfolding mvwprintwc World.◌>>◌ World.call
  fault-mvwprintwc n y x c s w = refl

  max-bar_set_value : (b : Bar) (v : ℕ) (w : World) → (bar_set_value env b v w).1.max ≡ b.max
  unfolding bar_set_value draw_bar bar_update_label
  max-bar_set_value b v w = ground arith

  unit_size-bar_set_value :
      (b : Bar) (v : ℕ) (w : World) → (bar_set_value env b v w).1.unit_size ≡ b.unit_size
  unfolding bar_set_value draw_bar bar_update_label
  unit_size-bar_set_value b v w = ground arith

module _ (env : Env) (q : Answers) where
  pub Safe-set_value : (t : BarType) (n : ℕ) → Safe (set_value env q t n)
  unfolding Safe Positive set_value
  Safe-set_value t n p w a e =
      let same = max-bar_set_value env (p.bars t) (n % u32_mod) w in
      let same' = unit_size-bar_set_value env (p.bars t) (n % u32_mod) w in
      let (positive, fits) = a t in
      (
        max-set_bar t (bar_set_value env (p.bars t) (n % u32_mod) w).1 p
            (ap (λ m. m == 0) same ∙ positive, omega (arith, same', fits)) a,
        fault-bar_set_value env (p.bars t) (n % u32_mod) w fits e ∙ positive,
      )

  Safe-show_sensor : (code : ℕ) (t : BarType) → Safe (show_sensor env q code t)
  unfolding show_sensor
  Safe-show_sensor code t =
      Safe-ask "sensor" code (λ h. q.sensor h code) (λ n. set_value env q t n)
        (λ h. Safe-set_value t (q.sensor h code).1)

  Safe-show_label :
      (n : Option ℕ) (code : ℕ) (scale : ℕ → ℕ) (label : StatePage → Label) (unit : String)
      → Safe (show_label env q n code scale label unit)
  unfolding show_label Safe Positive ask draw ◌>>◌ mvwprintwc World.◌>>◌ World.call
  Safe-show_label n code scale label unit p w a e =
      elim (Bool-cases (is_zero (q.sensor w.log code).0)) [
        | inl z ↦ simp z (a, e)
        | inr z ↦ simp z (a, e)
      ]

  Safe-with_cpu_load : (k : ℕ → Action) → ((n : ℕ) → Safe (k n)) → Safe (with_cpu_load env q k)
  unfolding with_cpu_load Safe Positive
  Safe-with_cpu_load k f p w a e =
      step (get_cpu_load (q.proc_stat w.log) (q.proc_stat_after w.log) p.cpu)
        (is_some-get_cpu_load (q.proc_stat w.log) (q.proc_stat_after w.log) p.cpu)
    where
      after : Option (ℕ × CpuLoad) → ℤ × StatePage × World
      after o = elim o [
        | none ↦ (negsuc 0, p, (World.crash w).1)
        | some r ↦ k r.0 (record p { cpu = r.1 }) (log_query "/proc/stat" 0 w)
      ]

      step :
          (o : Option (ℕ × CpuLoad))
          → is_some o ≡ true
          → Positive (after o).1 × ((after o).2.fault ≡ false)
      step none there = cc
      step (some r) there = f r.0 (record p { cpu = r.1 }) (log_query "/proc/stat" 0 w) a e

  Safe-show_cpu : Safe (show_cpu env q)
  unfolding show_cpu
  Safe-show_cpu = Safe-with_cpu_load _ (λ n. step n (ltb (n / 10) 100))
    where
      step :
          (n : ℕ) (b : Bool)
          → Safe (elim b [
            | true ↦ with_cpu_load env q (λ again. set_value env q cpu_load (again / 10))
            | false ↦ set_value env q cpu_load 100
          ])
      step n true = Safe-with_cpu_load _ (λ again. Safe-set_value cpu_load (again / 10))
      step n false = Safe-set_value cpu_load 100

  Safe-memory : Safe (λ p w.
      set_value env q sys_mem
        (sub32 (q.total_mem w.log) (q.free_mem w.log) / 2 ^ 10)
        p
        (log_query "/proc/meminfo" 0 w))
  unfolding Safe Positive
  Safe-memory p w a e =
      Safe-set_value sys_mem (sub32 (q.total_mem w.log) (q.free_mem w.log) / 2 ^ 10) p
        (log_query "/proc/meminfo" 0 w) a e

  pub Safe-update_sensor_value :
      (device n : Option ℕ) → is_some device ≡ true → Safe (update_sensor_value env q device n)
  unfolding update_sensor_value
  Safe-update_sensor_value device n there =
      search
        (
          there, Safe-need_device, Safe-then, Safe-ask, Safe-set_value, Safe-show_sensor,
          Safe-show_label, Safe-show_cpu, Safe-memory,
        )
        depth 30
