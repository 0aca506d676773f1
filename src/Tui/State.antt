-- ===== src/Tui/State.antt =====
-- tui/stateinfo.c: the state page, its gauges and its labels.
-- What the kernel and /proc answer is a parameter, a function of all calls so far.
pub mod Cpu
pub mod Clients
pub mod Handlers
pub mod Safe
pub mod Drawable
pub mod Create
pub mod Start
use amdtop.Base.{
  ℕ, zero, suc, ◌+◌, ◌*◌, ◌-◌, ◌/◌, ◌%◌, ◌^◌, ◌==◌, Bool, true, false, Option, none, some, List, [],
  ◌∷◌, ℤ, pos, negsuc, is_zero, ltb, if◌then◌else◌, u32_mod, u64_mod, sub32,
}
use amdtop.Tui.World
use amdtop.Tui.World.{
  World, Env, Cmd, History, Text, fmt, lit, default, green, crash, get_active_device,
}
use amdtop.Tui.Screen.{mvwprintwc}
use amdtop.Tui.Bar.{Bar, min, bar_set_value, bar_set_max_value}
use amdtop.Tui.State.Cpu.{CpuStat, CpuLoad, get_cpu_load}
use Prim.Native.String.{String}

-- `enum BarType`
pub data BarType : Type 0 where
  gfx_clock mem_clock gpu_load cpu_load vram gtt visible sys_mem : BarType

abbrev pub bar_code : BarType → ℕ
bar_code gfx_clock = 0
bar_code mem_clock = 1
bar_code gpu_load = 2
bar_code cpu_load = 3
bar_code vram = 4
bar_code gtt = 5
bar_code visible = 6
bar_code sys_mem = 7

-- `struct label_position` up to its texts, which are constants.
pub record Label : Type 0 where
  pub y : ℕ
  pub x : ℕ

-- `struct AmdGpuClientInfo`; `hidden` says that the command contains `unknow`.
pub record Client : Type 0 where
  pub hidden : Bool
  pub pid : ℕ
  pub dev : ℕ
  pub master : ℕ
  pub a : ℕ
  pub uid : ℕ

-- The statics of the page that outlive a call.
pub record StatePage : Type 0 where
  pub bars : BarType → Bar
  pub temp_label : Label
  pub power_label : Label
  pub psclk_label : Label
  pub pmclk_label : Label
  pub cpu : CpuLoad
  pub ui_clients_starty : ℕ
  pub ui_clients_count : ℕ
  pub has_root_permission : Bool
  pub need_refresh : Bool

-- The two numbers of `struct GpuMemInfo`, and two of `struct GpuDeviceInfo`.
pub record MemInfo : Type 0 where
  pub total : ℕ
  pub used : ℕ

pub record Clocks : Type 0 where
  pub max_engine_clock : ℕ
  pub max_memory_clock : ℕ

-- The answers to gpuQuerySensorInfo, gpuQueryMemInfo, gpuQueryDeviceInfo,
-- /proc/meminfo, /proc/stat,
-- amdGpuQueryClientInfo (all lines of the file), getpwuid and geteuid, and the line of the cursor.
pub record Answers : Type 0 where
  pub sensor : History → ℕ → ℤ × ℕ
  pub mem_info : History → ℕ → ℤ × MemInfo
  pub device_info : History → ℤ × Clocks
  pub total_mem : History → ℕ
  pub free_mem : History → ℕ
  pub proc_stat : History → Option CpuStat
  pub proc_stat_after : History → Option CpuStat
  pub clients : History → ℤ × List Client
  pub has_passwd : History → ℕ → Bool
  pub is_root : History → Bool
  pub getcury : History → Option ℕ → ℕ

-- A function of the page that returns an `int`, and its sequence with early return.
abbrev pub Action : Type 0
Action = StatePage → World → ℤ × StatePage × World

abbrev pub checked : ℤ × StatePage × World → Action → ℤ × StatePage × World
checked (pos zero, p, w) k = k p w
checked (pos (suc n), p, w) k = (pos (suc n), p, w)
checked (negsuc n, p, w) k = (negsuc n, p, w)

infixl 5 ◌>>◌
unfoldable pub ◌>>◌ : Action → Action → Action
◌>>◌ m k p w = checked (m p w) k

abbrev pub log_query : String → ℕ → World → World
log_query s n w = record w { log = World.Call.query s n ∷ w.log }

-- `ret = query; if (ret) return ret;` and what is done with the answer.
unfoldable pub ask {ℓ} : {A : Type ℓ} → String → ℕ → (History → ℤ × A) → (A → Action) → Action
ask s n q k p w =
    let (ret, a) = q w.log in
    let w' = log_query s n w in let rest = k a p w' in if is_zero ret then rest else (ret, p, w')

-- A call of ncurses whose result nobody looks at.
unfoldable pub draw : Cmd → Action
draw m p w = (pos 0, p, (m w).1)

unfoldable pub change : (World → StatePage → StatePage) → Action
change f p w = (pos 0, f w p, w)

abbrev pub set_bar : BarType → Bar → StatePage → StatePage
set_bar t b p = record p { bars = λ u. if bar_code u == bar_code t then b else p.bars u }

-- `getAcitveDevice()->gpuDevice` as a handler begins, `none` where one of the two pointers is NULL; no
-- handler changes it.
unfoldable pub active_handle : World → Option ℕ
active_handle w = elim (get_active_device w) [ none ↦ none | some d ↦ d.gpu_device ]

-- The handle is used: without one, a NULL pointer is followed.
unfoldable pub need_device : Option ℕ → Action
need_device none p w = (negsuc 0, p, (crash w).1)
need_device (some d) p w = (pos 0, p, w)

-- `barSetMaxValue(getSensorBar(t), max)`
unfoldable pub set_max : BarType → ℕ → Action
set_max t n p w =
    let (ret, b) = bar_set_max_value (p.bars t) (n % u32_mod) in (ret, set_bar t b p, w)

-- `ALIGN(val, 1024)` on `uint64_t`
unfoldable pub align : ℕ → ℕ
align n = (n + 1023) % u64_mod / 1024 * 1024

module _ (env : Env) (q : Answers) where
  -- `barSetValue(getSensorBar(t), value)`
  unfoldable pub set_value : BarType → ℕ → Action
  set_value t n p w =
      let (ret, b, w') = bar_set_value env (p.bars t) (n % u32_mod) w in (ret, set_bar t b p, w')

  -- A sensor and its gauge.
  unfoldable pub show_sensor : ℕ → BarType → Action
  unfolding ask set_value
  show_sensor code t = ask "sensor" code (λ h. q.sensor h code) (λ n. set_value t n)

  -- A sensor and its label.
  unfoldable pub show_label : Option ℕ → ℕ → (ℕ → ℕ) → (StatePage → Label) → String → Action
  unfolding ask draw ◌>>◌
  show_label n code scale label unit =
      ask "sensor" code (λ h. q.sensor h code)
        (λ v p.
          (draw (mvwprintwc env n (label p).y (label p).x green (fmt "% -3d" (scale v ∷ [])))
              >> (λ p w.
                  draw (mvwprintwc env n (label p).y (env.getcurx w.log n) default (lit unit)) p w))
            p)

  -- A call of `getCpuLoad`, and what is done with its result. Each of the two readings of /proc/stat is a
  -- call; a division by zero ends the program.
  unfoldable pub with_cpu_load : (ℕ → Action) → Action
  with_cpu_load k p w = elim (get_cpu_load (q.proc_stat w.log) (q.proc_stat_after w.log) p.cpu) [
    | none ↦ (negsuc 0, p, (crash w).1)
    | some r ↦ k r.0 (record p { cpu = r.1 }) (log_query "/proc/stat" 0 w)
  ]

  -- `barSetValue(…, MIN(getCpuLoad() / 10, 100))`; the macro calls `getCpuLoad` a second time when the
  -- first result is the smaller one.
  unfoldable pub show_cpu : Action
  unfolding set_value with_cpu_load
  show_cpu = with_cpu_load (λ percent. elim (ltb (percent / 10) 100) [
    | true ↦ with_cpu_load (λ again. set_value cpu_load (again / 10))
    | false ↦ set_value cpu_load 100
  ])

  -- `update_sensor_value`
  unfoldable pub update_sensor_value : (device n : Option ℕ) → Action
  unfolding need_device ◌>>◌ ask show_sensor show_label show_cpu set_value
  update_sensor_value device n =
      need_device device
      >> show_sensor 0 gfx_clock
      >> show_sensor 1 mem_clock
      >> show_sensor 2 gpu_load
      >> ask "memory" 0 (λ h. q.mem_info h 0)
          (λ v.
            ask "memory" 2 (λ h. q.mem_info h 2)
              (λ g.
                ask "memory" 1 (λ h. q.mem_info h 1)
                  (λ s.
                    set_value vram (v.used / 2 ^ 20)
                    >> set_value visible (s.used / 2 ^ 20)
                    >> set_value gtt (g.used / 2 ^ 20))))
      >> (λ p w.
          set_value sys_mem (sub32 (q.total_mem w.log) (q.free_mem w.log) / 2 ^ 10) p
            (log_query "/proc/meminfo" 0 w))
      >> show_cpu
      >> show_label n 3 (λ v. v / 1000) (λ p. p.temp_label) " C"
      >> show_label n 4 (λ v. v) (λ p. p.power_label) " Watt"
      >> show_label n 7 (λ v. v) (λ p. p.psclk_label) " Mhz"
      >> show_label n 7 (λ v. v) (λ p. p.pmclk_label) " Mhz"
