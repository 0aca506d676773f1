-- ===== src/Tui/Invariant/Windows.antt =====
-- The handlers that are called without a key keep the invariant: initialisation, redrawing, updates.
use amdtop.Base.{
  sym, ◌∙◌, ℕ, zero, suc, ◌+◌, ◌≡◌, refl, Bool, true, false, ◌&&◌, Option, pos, List, [], ◌∷◌, inl,
  inr, Bool-cases, Option-cases, is_zero, arith, sub32,
}
use mathlib.Core.Path.{subst}
use amdtop.Tui.Device.{Device, get_device_by_index}
use amdtop.Tui.World
use amdtop.Tui.World.{
  WinType, ColorType, device, tab, main, status, WindowLayout, lit, World, Cmd, Env, checked, ◌>>◌,
  ◌>>=◌, call, ignore, return, modify, when, crash, get_win, set_win, get_nwin,
}
use amdtop.Tui.Screen.{mvwprintwc}
use amdtop.Tui.Tabinfo.{get_tab_info_count, tabinfo_count}
use amdtop.Tui.Dispatch.{
  touch, all_windows, window_init, window_update, init_loop, windows_init, stamp, is_due,
  update_loop, windows_update, read_clock, init_win_layout, init_main_window, windows_update_ui,
}
use amdtop.Tui.DeviceWindow.{reload, probe_device, probe_loop, device_update}
use amdtop.Tui.TabWindow.{print_tabs, tab_init, tab_update, update_active_tab}
use amdtop.Tui.MainWindow.{main_init}
use amdtop.Tui.Main.{all_ops}
use amdtop.Tui.Frame.{Frame, Frame-checked, Keeps, keeps}
use amdtop.Tui.Frame.Drawing.{Frame-log, Keeps-mvwprintwc}
use amdtop.Tui.Frame.Pages.{
  Keeps-main_init, Keeps-status_init, Frame-status_update, Frame-main_update,
}
use amdtop.Tui.Frame.Runs.{device_init-zero}
use amdtop.Tui.Frame.Select.{Keeps-update_active_tab}
use amdtop.Tui.Invariant.{Ready}
use amdtop.Tui.Invariant.Sound.{
  Sound, Sound-refl, Sound-trans, Frame-Sound, Sound-checked, Frame-Good, Frame-Ready,
}
use amdtop.Tui.Frame.Windows.{
  Frame-device_init, Frame-touch, Frame-stamp, Keeps-init_win_layout, Keeps-init_main_window,
  Frame-print_tabs,
}

-- `tabInit` from the point where it has stored the number of pages.
abbrev pub counted : World → World
counted w = record w { tab_count = get_tab_info_count }

module _ (env : Env) where
  Keeps-tab_tail :
      {q : Bool} (n : Option ℕ)
      → Keeps q (do
        y ← λ w. sub32 w.tab_win.layout.height 2
        ignore (mvwprintwc env n y 1 ColorType.blue (lit "[h or ? for help!]"))
        call (World.Call.wrefresh n)
        t ← λ w. w.active_tab
        update_active_tab env t)
  Keeps-tab_tail n = search (keeps, Keeps-mvwprintwc env, Keeps-update_active_tab env) depth 12

  pub Frame-tab_init : {q : Bool} (w : World) → Frame q (counted w) (tab_init env w).1
  unfolding tab_init get_tab_info_count ◌>>◌ ◌>>=◌ modify
  Frame-tab_init w =
      Frame-checked (print_tabs env w.tab_win.nwin 0 tabinfo_count (counted w)) _
        (Frame-print_tabs env w.tab_win.nwin 0 tabinfo_count (counted w) (omega arith))
        ((Keeps-tab_tail w.tab_win.nwin).apply)

  pub Sound-tab_init : (w : World) → Sound w (tab_init env w).1
  unfolding get_tab_info_count
  Sound-tab_init w =
      let f = Frame-tab_init {q = false} w in
      record {
        good = λ g.
            Frame-Good f
              (record { tab = g.tab; device = g.device; table = g.table; safe = g.safe });
        ready = λ r. Frame-Ready f (record { setup = r.setup; count = refl });
        exit = f.exit refl;
      }

  -- A device whose driver has come is loaded in place, and the page is shown again.
  Sound-reload : (i : ℕ) (d : Device) (w : World) → Sound w (reload env i d w).1
  unfolding reload
  Sound-reload i d w = record {
    good = λ g. record {
      tab = g.tab;
      device = g.device;
      table = record { few = g.table.few; full = λ j h. ground (arith, g.table.full j h) };
      safe = g.safe;
    };
    ready = λ r. record { setup = r.setup; count = r.count };
    exit = refl;
  }

  Sound-probe_device : (i : ℕ) (d : Device) (w : World) → Sound w (probe_device env i d w).1
  unfolding probe_device ◌>>◌
  Sound-probe_device i d w =
      let asked = record w { log = World.Call.query "kernel driver" i ∷ w.log } in
      let ask : Sound w asked = Frame-Sound (Frame-log w _) in
      elim (Bool-cases d.driver_is_loaded) [
        | inl e ↦ simp e (Sound-refl w)
        | inr e ↦ simp e (elim (Bool-cases (env.has_kernel_driver w.log i)) [
          | inr n ↦ simp n ask
          | inl y ↦ simp y (
              Sound-trans ask (
                Sound-checked (reload env i d asked) (main_init env) (Sound-reload i d asked)
                  (λ w'. Frame-Sound ((Keeps-main_init env).apply w'))))
        ])
      ]

  Sound-probe_loop : (i k : ℕ) (w : World) → Sound w (probe_loop env i k w).1
  unfolding probe_loop
  Sound-probe_loop i zero w = Sound-refl w
  Sound-probe_loop i (suc k) w = elim (Option-cases (get_device_by_index w.dctx i)) [
    | inl e ↦ rw (e, probe_loop) (Sound-refl w)
    | inr (d, e) ↦
        rw (e, probe_loop)
          (Sound-checked (probe_device env i d w) (probe_loop env (i + 1) k)
            (Sound-probe_device i d w) (Sound-probe_loop (i + 1) k))
  ]

  Sound-device_update : (flags : ℕ) (w : World) → Sound w (device_update env flags w).1
  unfolding device_update
  Sound-device_update flags w = Sound-probe_loop 0 w.dctx.device_count w

  pub Sound-init : (t : WinType) (w : World) → Sound w (window_init (all_ops env t) w).1
  unfolding window_init
  Sound-init device w = Frame-Sound (Frame-device_init env w)
  Sound-init tab w = Sound-tab_init w
  Sound-init main w = Frame-Sound ((Keeps-main_init env).apply w)
  Sound-init status w = Frame-Sound ((Keeps-status_init env).apply w)

  Sound-update :
      (t : WinType) (flags : ℕ) (w : World) → Sound w (window_update (all_ops env t) flags w).1
  unfolding window_update tab_update return
  Sound-update device flags w = Sound-device_update flags w
  Sound-update tab flags w = Sound-refl w
  Sound-update main flags w = Frame-Sound (Frame-main_update env flags w)
  Sound-update status flags w = Frame-Sound (Frame-status_update env flags w)

  pub Sound-init_loop : (ts : List WinType) (w : World) → Sound w (init_loop (all_ops env) ts w).1
  unfolding init_loop
  Sound-init_loop [] w = Sound-refl w
  Sound-init_loop (t ∷ ts) w =
      let w1 = touch t w in
      let r = window_init (all_ops env t) w1 in
      let first = Sound-trans (Frame-Sound (Frame-touch env t w)) (Sound-init t w1) in
      elim (Bool-cases w.setup) [
        | inr e ↦ simp e (Sound-init_loop ts w)
        | inl e ↦ elim (Bool-cases (is_zero r.0)) [
          | inl z ↦ simp (e, z) (Sound-trans first (Sound-init_loop ts r.1))
          | inr z ↦ simp (e, z) first
        ]
      ]

  pub Sound-windows_init : (w : World) → Sound w (windows_init (all_ops env) w).1
  unfolding windows_init
  Sound-windows_init w = Sound-init_loop all_windows w

  -- One round of the loop of `WindowsInit`: what the window's handler ends in, kept by the rest.
  Ready-init_loop :
      (t : WinType) (ts : List WinType) (w : World)
      → w.setup ≡ true
      → Ready (window_init (all_ops env t) (touch t w)).1
      → Ready (init_loop (all_ops env) (t ∷ ts) w).1
  unfolding init_loop
  Ready-init_loop t ts w h ready =
      let r = window_init (all_ops env t) (touch t w) in
      elim (Bool-cases (is_zero r.0)) [
        | inl z ↦ simp (h, z) ((Sound-init_loop ts r.1).ready ready)
        | inr z ↦ simp (h, z) ready
      ]

  -- One round whose handler returns 0.
  init_loop-step :
      (t : WinType) (ts : List WinType) (w : World)
      → w.setup ≡ true
      → (window_init (all_ops env t) (touch t w)).0 ≡ pos 0
      → init_loop (all_ops env) (t ∷ ts) w
        ≡ init_loop (all_ops env) ts (window_init (all_ops env t) (touch t w)).1
  unfolding init_loop
  init_loop-step t ts w h e = simp (h, e)

  touch-setup : (t : WinType) (w : World) → w.setup ≡ true → (touch t w).setup ≡ true
  touch-setup t w h = (Frame-touch env {q = false} t w).setup ∙ h

  device-setup :
      (w : World)
      → w.setup ≡ true
      → (window_init (all_ops env device) (touch device w)).1.setup ≡ true
  unfolding window_init
  device-setup w h =
      (Frame-device_init env {q = false} (touch device w)).setup ∙ touch-setup device w h

  tab-Ready : (w : World) → w.setup ≡ true → Ready (window_init (all_ops env tab) (touch tab w)).1
  unfolding window_init get_tab_info_count
  tab-Ready w h =
      Frame-Ready (Frame-tab_init {q = false} (touch tab w))
        (record { setup = touch-setup tab w h; count = refl })

  device-zero : (w : World) → (window_init (all_ops env device) w).0 ≡ pos 0
  unfolding window_init
  device-zero w = device_init-zero env w

  -- The pages are counted before anything can end the initialisation of the windows.
  pub windows_init-Ready : (w : World) → w.setup ≡ true → Ready (windows_init (all_ops env) w).1
  unfolding windows_init
  windows_init-Ready w h =
      let v = (window_init (all_ops env device) (touch device w)).1 in
      subst (λ r. Ready r.1)
        (sym (init_loop-step device (tab ∷ main ∷ status ∷ []) w h (device-zero (touch device w))))
        (Ready-init_loop tab (main ∷ status ∷ []) v (device-setup w h)
          (tab-Ready v (device-setup w h)))

  Sound-update_loop :
      (flags now : ℕ) (ts : List WinType) (w : World)
      → Sound w (update_loop env (all_ops env) flags now ts w).1
  unfolding update_loop
  Sound-update_loop flags now [] w = Sound-refl w
  Sound-update_loop flags now (t ∷ ts) w =
      let r = window_update (all_ops env t) flags w in
      let first = Sound-update t flags w in
      elim (Bool-cases (w.setup && is_due env now (get_win t w))) [
        | inr e ↦ simp e (Sound-update_loop flags now ts w)
        | inl e ↦ elim (Bool-cases (is_zero r.0)) [
          | inl z ↦
              simp (e, z)
                (Sound-trans first (
                  Sound-trans (Frame-Sound (Frame-stamp env t r.1))
                    (Sound-update_loop flags now ts (stamp env t r.1))))
          | inr z ↦ simp (e, z) first
        ]
      ]

  pub Sound-windows_update :
      (flags : ℕ) (w : World) → Sound w (windows_update env (all_ops env) flags w).1
  unfolding windows_update
  Sound-windows_update flags w =
      let (now, w1) = read_clock env w in
      Sound-trans (Frame-Sound (Frame-log w _)) (Sound-update_loop flags now all_windows w1)

  pub Sound-windows_update_ui : (w : World) → Sound w (windows_update_ui env (all_ops env) w).1
  unfolding windows_update_ui windows_init ◌>>◌
  Sound-windows_update_ui w =
      Sound-checked (init_win_layout env w) _ (Frame-Sound ((Keeps-init_win_layout env).apply w))
        λ w1.
          Sound-checked (init_main_window env w1) _
            (Frame-Sound ((Keeps-init_main_window env).apply w1)) (Sound-init_loop all_windows)
