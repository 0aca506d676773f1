-- ===== src/Tui/Main.antt =====
-- tui/main.c: the set-up of the program and its event loop.
use amdtop.Base.{
  ℕ, zero, suc, ◌≡◌, Bool, true, false, Option, none, some, [], ◌∷◌, ℤ, pos, negsuc, is_zero, ◌==◌,
  if◌then◌else◌,
}
use amdtop.Tui.Device.{DeviceContext}
use amdtop.Tui.World
use amdtop.Tui.World.{
  WinType, device, tab, main, status, WindowLayout, Window, World, Cmd, Env, ◌>>◌, ◌>>=◌, return,
  call, modify,
}
use amdtop.Tui.Tabinfo.{ms_2_ns}
use amdtop.Tui.Dispatch.{
  WindowOps, init_window_context, windows_update_ui, windows_update, windows_dispatch_input,
}
use amdtop.Tui.DeviceWindow.{device_ops}
use amdtop.Tui.TabWindow.{tab_ops}
use amdtop.Tui.MainWindow.{main_ops}
use amdtop.Tui.StatusWindow.{status_ops}

-- `KEY_RESIZE`; `ERR` is -1
abbrev pub is_resize : ℤ → Bool
is_resize (pos n) = n == 0x19a
is_resize (negsuc n) = false

abbrev pub is_err : ℤ → Bool
is_err (pos n) = false
is_err (negsuc n) = n == 0

abbrev blank_layout : WindowLayout
blank_layout = record { starty = 0; startx = 0; width = 0; height = 0 }

-- `DeviceWindow`, `TabWindow`, `MainWindow` and `StatusWindow` as they are declared.
abbrev blank_window : ℕ → Window
blank_window ms = record {
  layout = blank_layout;
  nwin = none;
  last_update_time = 0;
  period = ms_2_ns ms;
}

-- The globals, with the device table that `InitDeviceContext` has filled.
abbrev pub start : DeviceContext → World
start dctx = record {
  width = 0;
  height = 0;
  startx = 0;
  starty = 0;
  has_color = false;
  color = false;
  setup = false;
  device_win = blank_window 500;
  tab_win = blank_window 1000;
  main_win = blank_window 100;
  status_win = blank_window 500;
  dctx = dctx;
  active_device = pos 0;
  active_tab = pos 0;
  tab_count = 0;
  tab_times = λ i. 0;
  request_exit = false;
  fault = false;
  page_fault = false;
  log = [];
}

module _ (env : Env) where
  abbrev pub all_ops : WinType → Option WindowOps
  all_ops device = some (device_ops env)
  all_ops tab = some (tab_ops env)
  all_ops main = some (main_ops env)
  all_ops status = some (status_ops env)

  -- `InitNcurse`, as far as the program sees it
  unfoldable pub init_ncurse : Cmd
  init_ncurse = do
    c ← λ w. env.has_colors w.log
    modify (λ w. record w { has_color = c })
    call (World.Call.timeout (pos 100))

  -- `main` up to its loop; the result of `InitWindowContext` is not looked at.
  unfoldable pub boot : DeviceContext → World
  unfolding init_ncurse
  boot dctx = (init_window_context env all_ops (init_ncurse (start dctx)).1).1

  -- One round of the loop: `some r` is a return from `main` with the result `r`.
  unfoldable pub round : World → Option ℤ × World
  round w0 =
      let ch = env.key w0.log in
      let w = record w0 { log = World.Call.getch ∷ w0.log } in
      let r = windows_update_ui env all_ops (record w { log = World.Call.erase ∷ w.log }) in
      if is_resize ch then (if is_zero r.0 then none else some r.0, r.1) else (
        none,
        if is_err ch
            then (windows_update env all_ops 0 w).1
            else (windows_dispatch_input all_ops ch w).1,
      )

  -- `while (!requeset_exit)`, for at most `rounds` rounds.
  unfoldable pub event_loop : ℕ → World → Option ℤ × World
  unfolding round
  event_loop zero w = (none, w)
  event_loop (suc k) w =
      let r = round w in
      let next = event_loop k r.1 in
      if w.request_exit then (some (pos 0), w) else elim r.0 [ none ↦ next | some ret ↦ r ]

  -- What happens to the program: a round of its loop, or a signal whose handler sets the flag.
  pub data Step : World → World → Type 0 where
    loop : (w : World) → w.request_exit ≡ false → Step w (round w).1
    signal : (w : World) → Step w (record w { request_exit = true })

  pub data Reach (dctx : DeviceContext) : World → Type 0 where
    booted : Reach dctx (boot dctx)
    next : {w w' : World} → Reach dctx w → Step w w' → Reach dctx w'
