-- ===== src/Tui/StatusWindow.antt =====
-- tui/statuswindow.c: the line with the active device and its load.
use amdtop.Base.{
  ℕ, ◌+◌, Option, none, some, [], ◌∷◌, ℤ, pos, sub32, to_u32, ltb, ◌%◌, u32_mod, if◌then◌else◌,
}
use amdtop.Tui.Device.{Device, device_driver_is_loaded}
use amdtop.Tui.World
use amdtop.Tui.World.{
  status, ColorType, red, default, Text, lit, fmt, World, Cmd, Env, ◌>>◌, ◌>>=◌, return, ignore,
  call, when, get_nwin, get_active_device,
}
use amdtop.Tui.Screen.{mvwprintwc}
use amdtop.Tui.Dispatch.{WindowOps, handle_none}

-- `GPU_LOAD_THRESHOLD`, `GPU_LOAD_BAR_WIDHT`
abbrev gpu_load_threshold : ℕ
gpu_load_threshold = 85

abbrev gpu_load_bar_width : ℕ
gpu_load_bar_width = 11

module _ (env : Env) where
  -- `print_load` is the end of `update_status`, behind the query of the sensor.
  unfoldable pub print_load : ℕ → Cmd
  print_load load = do
    n ← get_nwin status
    x ← λ w. sub32 (sub32 w.status_win.layout.width gpu_load_bar_width) 1
    ignore (mvwprintwc env n 1 x default (lit "[Load:"))
    x1 ← λ w. env.getcurx w.log n
    ignore (
        mvwprintwc env n 1 x1 (if ltb gpu_load_threshold load then red else default)
          (fmt "%3d%%" (load ∷ [])))
    x2 ← λ w. env.getcurx w.log n
    ignore (mvwprintwc env n 1 x2 default (lit "]"))

  -- `update_status`
  unfoldable pub update_status : Cmd
  unfolding print_load
  update_status = do
    loaded ← λ w. device_driver_is_loaded (get_active_device w)
    when loaded (do
      ret ← λ w. env.gpu_load_ret w.log
      load ← λ w. env.gpu_load w.log
      call (World.Call.query "gpu load" 0)
      return ret
      print_load load)

  -- `print_device_info`
  unfoldable pub print_device_info : Device → Cmd
  print_device_info d = do
    n ← get_nwin status
    i ← λ w. to_u32 w.active_device
    ignore (
        mvwprintwc env n 1 1 default
          (fmt "%d: [%04x:%02x:%02x.%d] %s" (i ∷ d.domain ∷ d.bus ∷ d.dev ∷ d.func ∷ [])))
    x ← λ w. (env.getcurx w.log n + 1) % u32_mod
    l ← λ w. device_driver_is_loaded (some d)
    ignore (
        mvwprintwc env n 1 x (if l then default else red)
          (lit (if l then "-- %s" else "No Driver")))

  unfoldable pub print_active : Option Device → Cmd
  unfolding print_device_info
  print_active none w = (pos 0, w)
  print_active (some d) w = print_device_info d w

  -- `statusInit`; a failed query ends it early, with the result 0.
  unfoldable pub status_init : Cmd
  unfolding print_active update_status
  status_init = ignore (do
    d ← get_active_device
    print_active d
    when (device_driver_is_loaded d) update_status
    n ← get_nwin status
    call (World.Call.wrefresh n))

  unfoldable pub status_exit : Cmd
  status_exit = return (pos 0)

  unfoldable pub status_handle_input : ℤ → Cmd
  status_handle_input ch = return handle_none

  -- `statusUpdate`
  unfoldable pub status_update : ℕ → Cmd
  unfolding update_status
  status_update flags w =
      let r = update_status w in (r.0, (call (World.Call.wrefresh (get_nwin status r.1)) r.1).1)

  -- `statusOps`
  abbrev pub status_ops : WindowOps
  status_ops = record {
    init = some status_init;
    exit = some status_exit;
    update = some status_update;
    handle_input = some status_handle_input;
  }
