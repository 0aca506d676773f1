-- ===== src/Tui/Frame/Windows.antt =====
-- What the installation and the set-up of the windows leave alone (tui/window.c,
-- tui/devicewindow.c and tui/tabwindow.c).
use amdtop.Base.{
  ℕ, zero, suc, ◌+◌, ◌≤◌, refl, Bool, Option, inl, inr, Bool-cases, Option-cases, arith,
}
use amdtop.Tui.Device.{Device, get_device_by_index}
use amdtop.Tui.World
use amdtop.Tui.World.{
  WinType, ColorType, device, tab, main, status, WindowLayout, lit, World, Cmd, Env, checked, ◌>>◌,
  ◌>>=◌, call, ignore, return, modify, when, crash, get_win, set_win, get_nwin,
}
use amdtop.Tui.Tabinfo.{get_tab_info_by_index, tabinfo_count}
use amdtop.Tui.Dispatch.{touch, stamp, place_window, init_win_layout, init_main_window}
use amdtop.Tui.DeviceWindow.{print_device, print_devices, device_init, update_active_device}
use amdtop.Tui.TabWindow.{print_tabs}
use amdtop.Tui.Frame.{
  Frame, Frame-refl, Frame-trans, Keeps, Keeps->>, Keeps->>=, Keeps-call, Keeps-when, Keeps-modify,
  keeps,
}
use amdtop.Tui.Frame.Drawing.{
  Frame-log, Keeps-window_clear, Keeps-mvwprintwc, Keeps-draw_main_window_border,
}
use amdtop.Tui.Frame.Select.{Keeps-update_active_device}
use amdtop.Tui.Invariant.{get_tab_info_by_index-some}

module _ (env : Env) {q : Bool} where
  Keeps-print_device : (n : Option ℕ) (i : ℕ) (d : Device) → Keeps q (print_device env n i d)
  unfolding print_device
  Keeps-print_device n i d = search (keeps, Keeps-mvwprintwc) depth 10

  Frame-print_devices :
      (n : Option ℕ) (i k : ℕ) (w : World) → Frame q w (print_devices env n i k w).1
  unfolding print_devices
  Frame-print_devices n i zero w = Frame-refl w
  Frame-print_devices n i (suc k) w = elim (Option-cases (get_device_by_index w.dctx i)) [
    | inl e ↦ rw (e, print_devices) (Frame-refl w)
    | inr (d, e) ↦
        rw (e, print_devices)
          (Frame-trans ((Keeps-print_device n i d).apply w) (Frame-print_devices n (i + 1) k _))
  ]

  Keeps-device_tail :
      (n : Option ℕ)
      → Keeps q
          (do i ← λ w'. w'.active_device; update_active_device env i; call (World.Call.wrefresh n))
  Keeps-device_tail n = search (keeps, Keeps-update_active_device) depth 8

  pub Frame-device_init : (w : World) → Frame q w (device_init env w).1
  unfolding device_init
  Frame-device_init w =
      let printed = Frame-print_devices w.device_win.nwin 0 w.dctx.device_count w in
      elim (Bool-cases (print_devices env w.device_win.nwin 0 w.dctx.device_count w).0) [
        | inl e ↦ rw e (Frame-trans printed ((Keeps-device_tail w.device_win.nwin).apply _))
        | inr e ↦ rw e printed
      ]

  Frame-win : (t : WinType) (w : World) (v : World.Window) → Frame q w (set_win t v w)
  Frame-win device w v = record {
    device = refl;
    tab = refl;
    table = refl;
    count = refl;
    setup = refl;
    exit = λ h. refl;
    fault = λ h. refl;
  }
  Frame-win tab w v = record {
    device = refl;
    tab = refl;
    table = refl;
    count = refl;
    setup = refl;
    exit = λ h. refl;
    fault = λ h. refl;
  }
  Frame-win main w v = record {
    device = refl;
    tab = refl;
    table = refl;
    count = refl;
    setup = refl;
    exit = λ h. refl;
    fault = λ h. refl;
  }
  Frame-win status w v = record {
    device = refl;
    tab = refl;
    table = refl;
    count = refl;
    setup = refl;
    exit = λ h. refl;
    fault = λ h. refl;
  }

  pub Frame-touch : (t : WinType) (w : World) → Frame q w (touch t w)
  unfolding touch
  Frame-touch t w = Frame-win t w _

  pub Frame-stamp : (t : WinType) (w : World) → Frame q w (stamp env t w)
  unfolding stamp
  Frame-stamp t w = Frame-trans (Frame-log w _) (Frame-win t _ _)

  Keeps-set_win :
      (t : WinType) (f : World → World.Window) → Keeps q (modify (λ w. set_win t (f w) w))
  Keeps-set_win t f = Keeps-modify _ (λ w. Frame-win t w (f w))

  Keeps-place_window : (t : WinType) (l : WindowLayout) → Keeps q (place_window env t l)
  unfolding place_window
  Keeps-place_window t l = Keeps->> (Keeps-set_win t _) (
      Keeps->>= _ λ n.
        Keeps->> (Keeps-when _ (Keeps-call _))
          (Keeps->>= _ λ y. Keeps->>= _ λ x. Keeps->> (Keeps-set_win t _) (Keeps-call _)))

  pub Keeps-init_win_layout : Keeps q (init_win_layout env)
  unfolding init_win_layout
  Keeps-init_win_layout = Keeps->>= _ λ g.
      Keeps->>
        (Keeps-modify _ λ w. record {
          device = refl;
          tab = refl;
          table = refl;
          count = refl;
          setup = refl;
          exit = λ h. refl;
          fault = λ h. refl;
        })
        (search (keeps, Keeps-place_window))

  pub Keeps-init_main_window : Keeps q (init_main_window env)
  unfolding init_main_window
  Keeps-init_main_window =
      search (keeps, Keeps-window_clear, Keeps-draw_main_window_border) depth 14

  pub Frame-print_tabs :
      (n : Option ℕ) (i k : ℕ) (w : World)
      → i + k ≤ tabinfo_count
      → Frame q w (print_tabs env n i k w).1
  unfolding print_tabs
  Frame-print_tabs n i zero w h = Frame-refl w
  Frame-print_tabs n i (suc k) w h = elim (Option-cases (get_tab_info_by_index i)) [
    | inl e ↦ let page = get_tab_info_by_index-some i (omega arith) in absurd (cc)
    | inr (id, e) ↦
        rw (e, print_tabs)
          (Frame-trans ((Keeps-call _).apply w) (Frame-print_tabs n (i + 1) k _ (omega arith)))
  ]
