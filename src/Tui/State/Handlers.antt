-- ===== src/Tui/State/Handlers.antt =====
-- tui/stateinfo.c: the handlers of the state page.
use amdtop.Base.{
  ℕ, ◌+◌, ◌*◌, ◌-◌, ◌/◌, ◌^◌, false, Option, pos, ltb, sub32, if◌then◌else◌, u32_mod, ◌%◌,
}
use amdtop.Tui.World
use amdtop.Tui.World.{
  WinType, Window, World, Env, Text, fmt, lit, default, red, tab_active, get_win, call, History,
}
use amdtop.Tui.Screen.{mvwprintwc, mvwprintwc_center, winframe}
use amdtop.Tui.Bar.{bar_create}
use amdtop.Tui.State.{
  BarType, gfx_clock, mem_clock, gpu_load, cpu_load, vram, gtt, visible, sys_mem, StatePage, Label,
  Answers, Action, ask, draw, change, set_bar, set_max, align, update_sensor_value, ◌>>◌, log_query,
  active_handle, need_device, active_handle, need_device,
}
use amdtop.Tui.State.Clients.{print_blanks, update_client_info}
use Prim.Native.String.{String}

module _ (env : Env) (q : Answers) where
  -- `barCreate(nwin, getSensorBar(t), …)`, whose result nobody looks at.
  unfoldable pub create :
      Option ℕ → BarType → (name unit : String) → (unit_size y x width : ℕ) → Action
  create n t name unit size y x width p w =
      let (ret, b, w') = bar_create env n name unit size y x width w in (pos 0, set_bar t b p, w')

  -- The caption of a label, after which the cursor is where its value goes.
  unfoldable pub caption : Option ℕ → (y x : ℕ) → String → (Label → StatePage → StatePage) → Action
  caption n y x name put p w =
      let w' = (mvwprintwc env n y x default (lit name) w).1 in
      (pos 0, put (record { y = q.getcury w'.log n; x = env.getcurx w'.log n }) p, w')

  -- The gauges and the labels of `tabStateInfoInit`, in two columns.
  unfoldable pub create_gauges : Option ℕ → (startx start2x width : ℕ) → Action
  unfolding create caption ◌>>◌
  create_gauges n startx start2x width =
      create n gfx_clock "GFX" "MHz" 3 3 startx width
      >> create n mem_clock "MEM" "MHz" 3 4 startx width
      >> create n gpu_load "GPU" "%" 1 5 startx width
      >> create n cpu_load "CPU" "%" 1 6 startx width
      >> create n vram "VRAM" "MB" 2 3 start2x width
      >> create n visible "VIS" "MB" 2 4 start2x width
      >> create n gtt "GTT" "MB" 2 5 start2x width
      >> create n sys_mem "RAM" "MB" 2 6 start2x width
      >> caption n 7 startx "PGFX  :" (λ l p. record p { psclk_label = l })
      >> caption n 8 startx "PMEM  :" (λ l p. record p { pmclk_label = l })
      >> caption n 7 start2x "Temp  :" (λ l p. record p { temp_label = l })
      >> caption n 8 start2x "Power :" (λ l p. record p { power_label = l })

  -- The frame and the head of the table of clients, and the hint for a user who may not see them.
  unfoldable pub create_clients : Window → Action
  unfolding ◌>>◌ draw change
  create_clients v =
      let n = v.nwin in
      let height = v.layout.height in
      let width = v.layout.width in
      draw (winframe env n 11 1 (sub32 height 2) (sub32 width 2) "Gpu Clients")
      >> (λ p w. (pos 0, p, print_blanks env q tab_active n 12 2 (sub32 width 3 - 2) w))
      >> change
          (λ w p. record p { ui_clients_starty = 13; ui_clients_count = sub32 (sub32 height 2) 13 })
      >> (λ p w.
          draw
            (mvwprintwc env n 12 (env.getmaxx w.log n / 20) tab_active
              (lit "%-5s %-15s\t %-10s\t %-10s\t %-10s\t %-10s\t %s"))
            p w)
      >> (λ p w.
          (pos 0, record p { has_root_permission = q.is_root w.log }, log_query "geteuid" 0 w))
      >> (λ p w.
          if p.has_root_permission
          then (pos 0, p, w)
          else draw
              (mvwprintwc env n ((p.ui_clients_starty + p.ui_clients_count / 2) % u32_mod)
                (sub32 width 21 / 2) red (lit "Need Root Permission!"))
              p w)

  -- The maxima of the gauges.
  unfoldable pub set_maxima : Option ℕ → Action
  unfolding need_device ◌>>◌ ask set_max align
  set_maxima device =
      need_device device
      >> ask "device" 0 q.device_info (λ d.
        ask "memory" 0 (λ h. q.mem_info h 0)
          (λ v.
            ask "memory" 2 (λ h. q.mem_info h 2)
              (λ g.
                ask "memory" 1 (λ h. q.mem_info h 1)
                  (λ s.
                    set_max gfx_clock (d.max_engine_clock / 1000)
                    >> set_max mem_clock (d.max_memory_clock / 1000)
                    >> set_max gpu_load 100
                    >> set_max cpu_load 100
                    >> set_max vram (align (v.total / 2 ^ 20))
                    >> set_max visible (s.total / 2 ^ 20)
                    >> set_max gtt (align (g.total / 2 ^ 20))))))
      >> (λ p w.
          set_max sys_mem (align (q.total_mem w.log / 2 ^ 10)) p (log_query "/proc/meminfo" 0 w))

  -- `tabStateInfoUpdate`
  unfoldable pub tab_state_info_update : WinType → Action
  unfolding ◌>>◌ draw update_sensor_value update_client_info
  tab_state_info_update t p w =
      let n = (get_win t w).nwin in
      let device = active_handle w in
      if p.need_refresh
      then (update_sensor_value env q device n
            >> update_client_info env q device n
            >> draw (call (World.Call.wrefresh n)))
          p w
      else (pos 0, p, w)

  -- `tabStateInfoInit`
  unfoldable pub tab_state_info_init : WinType → Action
  unfolding ◌>>◌ draw change create_gauges create_clients set_maxima
  tab_state_info_init t p w =
      let v = get_win t w in
      let n = v.nwin in
      let device = active_handle w in
      let startx = v.layout.width / 20 in
      let bar_width = sub32 (sub32 v.layout.width (3 * startx)) 2 / 2 in
      let narrow =
        change (λ w p. record p { need_refresh = false })
        >> draw (mvwprintwc_center env n red (lit "Window Tool Small") 17)
        >> draw (call (World.Call.wrefresh n)) in
      let wide =
        draw (winframe env n 1 1 10 (sub32 v.layout.width 2) "HW Monitor")
        >> create_gauges n startx (startx + bar_width + startx) (bar_width - 28)
        >> create_clients v
        >> set_maxima device
        >> update_sensor_value env q device n
        >> update_client_info env q device n
        >> draw (call (World.Call.wrefresh n)) in
      if ltb bar_width 28 then narrow p w else wide p w
