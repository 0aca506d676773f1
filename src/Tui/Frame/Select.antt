-- ===== src/Tui/Frame/Select.antt =====
-- What a key does to the two selections, through the handlers of the tab and the device window and
-- through the loop over the windows.
use amdtop.Base.{
  ℕ, zero, suc, ◌+◌, ◌≡◌, refl, sym, Bool, true, false, ◌||◌, Option, inl, inr, Bool-cases, ℤ, pos,
  negsuc, to_u32, if◌then◌else◌, leb, arith,
}
use amdtop.Tui.World.{
  main, status, ColorType, World, Env, ◌>>◌, ◌>>=◌, call, ignore, return, modify,
}
use amdtop.Tui.Screen.{window_clear}
use amdtop.Tui.MainWindow.{main_init, main_exit}
use amdtop.Tui.StatusWindow.{status_init, status_exit}
use amdtop.Tui.Dispatch.{is_handled}
use amdtop.Tui.TabWindow.{
  eq_int, next_tab, mark_tabs, update_active_tab, switch_tab, tab_handle_input,
}
use amdtop.Tui.DeviceWindow.{
  is_f3, is_f4, next_device, mark_devices, update_active_device, switch_device, device_handle_input,
}
use amdtop.Tui.Frame.{Frame, Frame-refl, Frame-trans, Frame-checked, Keeps, TabOk, keeps}
use amdtop.Tui.Frame.Drawing.{Keeps-window_clear, Keeps-mvwprintwc}
use amdtop.Tui.Frame.Pages.{
  Keeps-main_init, Keeps-main_exit, Keeps-status_init, Keeps-status_exit, Frame-tabinfo_exit,
}

pub eq_int→eq : (a b : ℤ) → eq_int a b ≡ true → a ≡ b
eq_int→eq (pos a) (pos b) h = ground arith
eq_int→eq (pos a) (negsuc b) h = cc
eq_int→eq (negsuc a) (pos b) h = cc
eq_int→eq (negsuc a) (negsuc b) h = ground arith

module _ (env : Env) {q : Bool} where
  Frame-mark_tabs :
      (n : Option ℕ) (index : ℤ) (i k : ℕ) (w : World) → Frame q w (mark_tabs env n index i k w).1
  unfolding mark_tabs
  Frame-mark_tabs n index i zero w = Frame-refl w
  Frame-mark_tabs n index i (suc k) w =
      Frame-trans ((Keeps-mvwprintwc env n (1 + i) 1 ColorType.default _).apply w)
        (Frame-mark_tabs n index (i + 1) k _)

  Keeps-mark_tabs : (n : Option ℕ) (index : ℤ) (i k : ℕ) → Keeps q (mark_tabs env n index i k)
  Keeps-mark_tabs n index i k = record { apply = Frame-mark_tabs n index i k }

  pub Keeps-update_active_tab : (index : ℤ) → Keeps q (update_active_tab env index)
  unfolding update_active_tab
  Keeps-update_active_tab index = search (keeps, Keeps-mark_tabs) depth 10

  Frame-mark_devices :
      (n : Option ℕ) (index : ℤ) (i k : ℕ) (w : World)
      → Frame q w (mark_devices env n index i k w).1
  unfolding mark_devices
  Frame-mark_devices n index i zero w = Frame-refl w
  Frame-mark_devices n index i (suc k) w =
      Frame-trans ((Keeps-mvwprintwc env n (1 + i) 1 ColorType.default _).apply w)
        (Frame-mark_devices n index (i + 1) k _)

  Keeps-mark_devices : (n : Option ℕ) (index : ℤ) (i k : ℕ) → Keeps q (mark_devices env n index i k)
  Keeps-mark_devices n index i k = record { apply = Frame-mark_devices n index i k }

  pub Keeps-update_active_device : (index : ℤ) → Keeps q (update_active_device env index)
  unfolding update_active_device
  Keeps-update_active_device index = search (keeps, Keeps-mark_devices) depth 10

  -- The calls of `switch_tab` behind the write of the selection.
  Keeps-show_tab :
      (t : ℤ) → Keeps q (do window_clear env main; main_init env; update_active_tab env t)
  Keeps-show_tab t = search (keeps, Keeps-main_init, Keeps-window_clear, Keeps-update_active_tab)

  Frame-set_tab :
      {w w' : World} (t : ℤ)
      → Frame q w w'
      → w'.fault ≡ w.fault
      → Frame q (record w { active_tab = t }) (record w' { active_tab = t })
  Frame-set_tab t f e = record {
    device = f.device;
    tab = refl;
    table = f.table;
    count = f.count;
    setup = f.setup;
    exit = f.exit;
    fault = λ h. e;
  }

  Frame-switch_tab :
      (t : ℤ) (w : World) → TabOk w → Frame q (record w { active_tab = t }) (switch_tab env t w).1
  unfolding switch_tab ◌>>◌ modify main_exit ignore
  Frame-switch_tab t w ok =
      let left = Frame-tabinfo_exit env (to_u32 w.active_tab) w in
      Frame-trans (Frame-set_tab t left (left.fault ok)) ((Keeps-show_tab t).apply _)

  pub Frame-tab_handle_input :
      (ch : ℤ) (w : World)
      → TabOk w
      → Frame q
          (record w { active_tab = next_tab w.tab_count ch w.active_tab })
          (tab_handle_input env ch w).1
  unfolding tab_handle_input ◌>>◌ ◌>>=◌ return
  Frame-tab_handle_input ch w ok =
      let t = next_tab w.tab_count ch w.active_tab in
      elim (Bool-cases (eq_int t w.active_tab)) [
        | inl e ↦ rw e (record {
          device = refl;
          tab = sym (eq_int→eq _ _ e);
          table = refl;
          count = refl;
          setup = refl;
          exit = λ h. refl;
          fault = λ h. refl;
        })
        | inr e ↦
            rw e
              (Frame-checked (switch_tab env t w) (return _) (Frame-switch_tab t w ok) Frame-refl)
      ]

  Frame-set_device :
      {w w' : World} (i : ℤ)
      → Frame q w w'
      → Frame q (record w { active_device = i }) (record w' { active_device = i })
  Frame-set_device i f = record {
    device = refl;
    tab = f.tab;
    table = f.table;
    count = f.count;
    setup = f.setup;
    exit = f.exit;
    fault = f.fault;
  }

  -- The calls of `switch_device` behind the write of the selection.
  Keeps-show_device : Keeps q (do
    main_exit env
    window_clear env main
    main_init env
    status_exit env
    window_clear env status
    status_init env)
  Keeps-show_device =
      search
        (
          keeps, Keeps-main_init, Keeps-main_exit, Keeps-window_clear, Keeps-status_init,
          Keeps-status_exit,
        )
        depth 9

  Frame-switch_device :
      (i : ℤ) (w : World) → Frame q (record w { active_device = i }) (switch_device env i w).1
  unfolding switch_device ◌>>◌ ◌>>=◌ modify update_active_device ignore call
  Frame-switch_device i w =
      Frame-trans (Frame-set_device i ((Keeps-update_active_device i).apply w))
        (Keeps-show_device.apply _)

-- The device that a key selects.
abbrev pub selected_device : ℤ → World → ℤ
selected_device ch w =
    if leb w.dctx.device_count 1
    then w.active_device
    else next_device w.dctx.device_count ch w.active_device

-- The tab that a key selects.
abbrev pub selected_tab : ℤ → World → ℤ
selected_tab ch w = next_tab w.tab_count ch w.active_tab

module _ (env : Env) {q : Bool} where
  pub Frame-device_handle_input :
      (ch : ℤ) (w : World)
      → Frame q (record w { active_device = selected_device ch w }) (device_handle_input env ch w).1
  unfolding device_handle_input ◌>>◌ ◌>>=◌ return
  Frame-device_handle_input ch w =
      let i = next_device w.dctx.device_count ch w.active_device in
      elim (Bool-cases (leb w.dctx.device_count 1)) [
        | inl few ↦ rw few (Frame-refl w)
        | inr many ↦ rw many (elim (Bool-cases (eq_int i w.active_device)) [
          | inl e ↦ rw e (record {
            device = sym (eq_int→eq _ _ e);
            tab = refl;
            table = refl;
            count = refl;
            setup = refl;
            exit = λ h. refl;
            fault = λ h. refl;
          })
          | inr e ↦ rw e (
              Frame-checked (switch_device env i w) (return _) (Frame-switch_device env i w)
                Frame-refl)
        ])
      ]

pub eq_int_refl : (a : ℤ) → eq_int a a ≡ true
eq_int_refl (pos a) = ground arith
eq_int_refl (negsuc a) = ground arith

-- A key of the device window is no key of the tab window.
pub keys_apart : (count : ℕ) (ch t : ℤ) → (is_f3 ch || is_f4 ch) ≡ true → next_tab count ch t ≡ t
unfolding next_tab
keys_apart count (pos n) t h = ground arith
keys_apart count (negsuc n) t h = refl

other_keys : (count : ℕ) (ch i : ℤ) → (is_f3 ch || is_f4 ch) ≡ false → next_device count ch i ≡ i
unfolding next_device
other_keys count (pos n) i h = ground arith
other_keys count (negsuc n) i h = refl

other_keys_unhandled :
    (env : Env) (ch : ℤ) (w : World)
    → (is_f3 ch || is_f4 ch) ≡ false
    → is_handled (device_handle_input env ch w).0 ≡ false
unfolding device_handle_input ◌>>◌ ◌>>=◌ return
other_keys_unhandled env ch w h = elim (Bool-cases (leb w.dctx.device_count 1)) [
  | inl few ↦ rw few
  | inr many ↦
      rw (many, other_keys w.dctx.device_count ch w.active_device h, eq_int_refl w.active_device, h)
]

-- What the device window handles is a key of its own.
pub handled_keys :
    (env : Env) (ch : ℤ) (w : World)
    → is_handled (device_handle_input env ch w).0 ≡ true
    → (is_f3 ch || is_f4 ch) ≡ true
handled_keys env ch w h = elim (Bool-cases (is_f3 ch || is_f4 ch)) [
  | inl e ↦ e
  | inr e ↦ cc (other_keys_unhandled env ch w e)
]
