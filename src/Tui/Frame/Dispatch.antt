-- ===== src/Tui/Frame/Dispatch.antt =====
-- A key, through the loop of `WindowsDispatchInput` over the four windows.
use amdtop.Base.{◌≡◌, sym, ◌∙◌, Bool, true, Option, List, [], ◌∷◌, inl, inr, Bool-cases, ℤ}
use amdtop.Tui.World.{WinType, device, tab, main, status, World, Env, return}
use amdtop.Tui.MainWindow.{is_key, main_handle_input}
use amdtop.Tui.StatusWindow.{status_handle_input}
use amdtop.Tui.Dispatch.{WindowOps, dispatch_loop, windows_dispatch_input, window_input, is_handled}
use amdtop.Tui.TabWindow.{tab_handle_input}
use amdtop.Tui.DeviceWindow.{device_handle_input}
use amdtop.Tui.Main.{all_ops}
use amdtop.Tui.Frame.{Frame, Frame-trans, TabOk}
use amdtop.Tui.Frame.Pages.{Keeps-main_handle_input}
use amdtop.Tui.Frame.Select.{
  selected_device, selected_tab, Frame-device_handle_input, Frame-tab_handle_input, keys_apart,
  handled_keys,
}

module _ {q : Bool} (ops : WinType → Option WindowOps) (ch : ℤ) where
  -- One round of the loop: the window's own effect, then that of the windows behind it.
  Frame-dispatch_loop :
      {s : World} (w : World) (t : WinType) (ts : List WinType)
      → w.setup ≡ true
      → (is_handled (window_input (ops t) ch w).0 ≡ true → Frame q s (window_input (ops t) ch w).1)
      → Frame q s (dispatch_loop ops ch ts (window_input (ops t) ch w).1).1
      → Frame q s (dispatch_loop ops ch (t ∷ ts) w).1
  unfolding dispatch_loop
  Frame-dispatch_loop w t ts h f g = elim (Bool-cases (is_handled (window_input (ops t) ch w).0)) [
    | inl e ↦ simp (h, e) (f e)
    | inr e ↦ simp (h, e) g
  ]

-- The state with the two selections that a key asks for.
abbrev pub selected : ℤ → World → World
selected ch w = record w { active_device = selected_device ch w; active_tab = selected_tab ch w }

module _ (env : Env) (ch : ℤ) where
  Frame-from_status :
      {q : Bool} {s : World} (w : World)
      → w.setup ≡ true
      → Frame q s w
      → Frame q s (dispatch_loop (all_ops env) ch (status ∷ []) w).1
  unfolding window_input status_handle_input dispatch_loop return
  Frame-from_status w h f = Frame-dispatch_loop (all_ops env) ch w status [] h (λ e. f) f

  Frame-from_main :
      {s : World} (w : World)
      → w.setup ≡ true
      → Frame (is_key b'q' ch) s w
      → Frame (is_key b'q' ch) s (dispatch_loop (all_ops env) ch (main ∷ status ∷ []) w).1
  unfolding window_input
  Frame-from_main w h f =
      let g = (Keeps-main_handle_input env ch).apply w in
      let fg = Frame-trans f g in
      Frame-dispatch_loop (all_ops env) ch w main (status ∷ []) h (λ e. fg)
        (Frame-from_status (main_handle_input env ch w).1 (g.setup ∙ h) fg)

  Frame-from_tab :
      (w : World)
      → w.setup ≡ true
      → TabOk w
      → Frame
          (is_key b'q' ch)
          (record w { active_tab = selected_tab ch w })
          (dispatch_loop (all_ops env) ch (tab ∷ main ∷ status ∷ []) w).1
  unfolding window_input
  Frame-from_tab w h ok =
      let f = Frame-tab_handle_input env ch w ok in
      Frame-dispatch_loop (all_ops env) ch w tab (main ∷ status ∷ []) h (λ e. f)
        (Frame-from_main (tab_handle_input env ch w).1 (f.setup ∙ h) f)

  -- A handler's effect on the device, followed by the write of a tab.
  join :
      {q : Bool} {i t : ℤ} (w v u : World)
      → Frame q (record w { active_device = i }) v
      → t ≡ selected_tab ch v
      → TabOk w
      → Frame q (record v { active_tab = selected_tab ch v }) u
      → Frame q (record w { active_device = i; active_tab = t }) u
  join w v u f e ok g = record {
    device = g.device ∙ f.device;
    tab = g.tab ∙ sym e;
    table = g.table ∙ f.table;
    count = g.count ∙ f.count;
    setup = g.setup ∙ f.setup;
    exit = λ h. g.exit h ∙ f.exit h;
    fault = λ h. g.fault (rw (← e) h) ∙ f.fault ok;
  }

  -- With the windows installed and a page of the table selected, on any key the loop over the
  -- windows leaves the state with the two selections that the key asks for; all else that `Frame` names is as before, and only `q` can request the exit.
  pub Frame-windows_dispatch_input :
      (w : World)
      → w.setup ≡ true
      → TabOk w
      → Frame (is_key b'q' ch) (selected ch w) (windows_dispatch_input (all_ops env) ch w).1
  unfolding windows_dispatch_input window_input
  Frame-windows_dispatch_input w h ok =
      let v = (device_handle_input env ch w).1 in
      let f = Frame-device_handle_input env {q = is_key b'q' ch} ch w in
      let same : selected_tab ch w ≡ selected_tab ch v = rw (f.count, f.tab) in
      Frame-dispatch_loop (all_ops env) ch w device (tab ∷ main ∷ status ∷ []) h
        (λ e. record {
          device = f.device;
          tab = f.tab ∙ sym (keys_apart w.tab_count ch w.active_tab (handled_keys env ch w e));
          table = f.table;
          count = f.count;
          setup = f.setup;
          exit = f.exit;
          fault = λ k. f.fault ok;
        })
        (join w v _ f same ok (Frame-from_tab v (f.setup ∙ h) (rw f.tab ok)))
