-- ===== src/Tui/DeviceWindow.antt =====
-- tui/devicewindow.c: the list of graphics cards and the keys that switch between them.
pub mod Clamp
use amdtop.Base.{
  ℕ, zero, suc, ◌+◌, Bool, true, false, ◌||◌, Option, none, some, [], ◌∷◌, ℤ, pos, negsuc, inc, dec,
  to_u32, of_u32, sub32, ltb, leb, ◌==◌, if◌then◌else◌,
}
use amdtop.Tui.Device.{Device, get_device_by_index, update_device_info, set_slot}
use amdtop.Tui.World
use amdtop.Tui.World.{
  device, main, status, default, label_value, lit, fmt, World, Cmd, Env, checked, ◌>>◌, ◌>>=◌,
  return, ignore, call, modify, get_nwin,
}
use amdtop.Tui.Screen.{window_clear, mvwprintwc}
use amdtop.Tui.Dispatch.{WindowOps, handle_none, handle_handled}
use amdtop.Tui.MainWindow.{main_init, main_exit}
use amdtop.Tui.StatusWindow.{status_init, status_exit}
use amdtop.Tui.TabWindow.{eq_int}

-- `KEY_F(3)` and `KEY_F(4)` of ncurses
abbrev pub is_f3 : ℤ → Bool
is_f3 (pos n) = n == 0x10b
is_f3 (negsuc n) = false

abbrev pub is_f4 : ℤ → Bool
is_f4 (pos n) = n == 0x10c
is_f4 (negsuc n) = false

-- `i <= 0` for an `int`
abbrev is_le_zero : ℤ → Bool
is_le_zero (pos n) = n == 0
is_le_zero (negsuc n) = true

-- The device that a key asks for; `deviceCount` is unsigned, and so is the second comparison.
unfoldable pub next_device : ℕ → ℤ → ℤ → ℤ
next_device count ch i =
    if is_f3 ch
    then (if is_le_zero (dec i) then pos 0 else dec i)
    else (if is_f4 ch
        then (if leb count (to_u32 (inc i)) then of_u32 (sub32 count 1) else inc i)
        else i)

-- The decimal digits of a `uint8_t`, and the length of `[%04x:%02x:%02x:%d]`.
abbrev digits8 : ℕ → ℕ
digits8 n = if ltb n 10 then 1 else if ltb n 100 then 2 else 3

abbrev bus_id_size : Device → ℕ
bus_id_size d = 13 + digits8 d.func

module _ (env : Env) where
  -- The marks of `updateActiveDevice` from row `i` on.
  unfoldable pub mark_devices : Option ℕ → ℤ → (i rounds : ℕ) → Cmd
  mark_devices n index i zero w = (pos 0, w)
  mark_devices n index i (suc k) w =
      mark_devices n index (i + 1) k
        (mvwprintwc env n (1 + i) 1 default (lit (if eq_int (pos i) index then "*" else " ")) w).1

  -- `updateActiveDevice`; its result is not used.
  unfoldable pub update_active_device : ℤ → Cmd
  unfolding mark_devices
  update_active_device index = do
    n ← get_nwin device
    count ← λ w. w.dctx.device_count
    ignore (mark_devices n index 0 count)
    call (World.Call.wrefresh n)

  unfoldable pub print_device : Option ℕ → (i : ℕ) → Device → Cmd
  print_device n i d = do
    ignore (mvwprintwc env n (1 + i) 2 default (fmt " %d: %-20s" (i ∷ [])))
    xmax ← λ w. env.getmaxx w.log n
    ignore (
        mvwprintwc env n (1 + i) (sub32 (sub32 xmax (bus_id_size d)) 1) label_value
          (fmt "[%04x:%02x:%02x:%d]" (d.domain ∷ d.bus ∷ d.dev ∷ d.func ∷ [])))

  -- The loop of `deviceInit`: whether it came to its end.
  unfoldable pub print_devices : Option ℕ → (i rounds : ℕ) → World → Bool × World
  unfolding print_device
  print_devices n i zero w = (true, w)
  print_devices n i (suc k) w = elim (get_device_by_index w.dctx i) [
    | none ↦ (false, w)
    | some d ↦ print_devices n (i + 1) k (print_device n i d w).1
  ]

  -- `deviceInit`; without a device in a slot it returns 0 at once.
  unfoldable pub device_init : Cmd
  unfolding print_devices update_active_device
  device_init w =
      let r = print_devices w.device_win.nwin 0 w.dctx.device_count w in
      if r.0
      then (do
        i ← λ w'. w'.active_device
        update_active_device i
        call (World.Call.wrefresh w.device_win.nwin))
          r.1
      else (pos 0, r.1)

  unfoldable pub device_exit : Cmd
  device_exit = return (pos 0)

  -- The part of `deviceHandleInput` for a changed device.
  unfoldable pub switch_device : ℤ → Cmd
  unfolding update_active_device
  switch_device i = do
    update_active_device i
    modify (λ w. record w { active_device = i })
    main_exit env
    window_clear env main
    main_init env
    status_exit env
    window_clear env status
    status_init env

  -- `deviceHandleInput`
  unfoldable pub device_handle_input : ℤ → Cmd
  unfolding switch_device next_device
  device_handle_input ch w =
      if leb w.dctx.device_count 1
      then (handle_none, w)
      else (do
        i ← λ w'. next_device w'.dctx.device_count ch w'.active_device
        old ← λ w'. w'.active_device
        (if eq_int i old then return (pos 0) else switch_device i)
        return (if is_f3 ch || is_f4 ch then handle_handled else handle_none))
          w

  -- `UpdateDeviceInfo` on the device of a slot.
  unfoldable pub reload : ℕ → Device → Cmd
  reload i d w =
      let r = update_device_info (env.answers w.log i) d in
      (
        r.0,
        record w {
          dctx = record (w.dctx) { devs = set_slot w.dctx.devs i (some r.1) };
          log = World.Call.query "driver" i ∷ w.log;
        },
      )

  -- One round of the loop of `deviceUpdate`.
  unfoldable pub probe_device : ℕ → Device → Cmd
  unfolding reload
  probe_device i d w =
      let w' = record w { log = World.Call.query "kernel driver" i ∷ w.log } in
      if d.driver_is_loaded
      then (pos 0, w)
      else (if env.has_kernel_driver w.log i
          then (do reload i d; main_init env) w'
          else (pos 0, w'))

  unfoldable pub probe_loop : (i rounds : ℕ) → Cmd
  unfolding probe_device
  probe_loop i zero w = (pos 0, w)
  probe_loop i (suc k) w = elim (get_device_by_index w.dctx i) [
    | none ↦ (pos 0, w)
    | some d ↦ checked (probe_device i d w) (probe_loop (i + 1) k)
  ]

  -- `deviceUpdate`
  unfoldable pub device_update : ℕ → Cmd
  unfolding probe_loop
  device_update flags w = probe_loop 0 w.dctx.device_count w

  -- `deviceOps`
  abbrev pub device_ops : WindowOps
  device_ops = record {
    init = some device_init;
    exit = some device_exit;
    update = some device_update;
    handle_input = some device_handle_input;
  }
