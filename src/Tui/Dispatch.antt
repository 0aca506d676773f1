-- ===== src/Tui/Dispatch.antt =====
-- The window layer of tui/window.c: the calls through `struct WindowOps`, the loops over the four
-- windows, and the set-up of the context.
use amdtop.Base.{
  ℕ, zero, suc, ◌+◌, ◌%◌, Bool, true, false, ◌&&◌, Option, none, some, List, [], ◌∷◌, ℤ, pos,
  negsuc, is_zero, is_some, u32_mod, u64_mod, ltb, leb, if◌then◌else◌,
}
use amdtop.Tui.World
use amdtop.Tui.World.{
  WinType, device, tab, main, status, ColorType, default, background, title, tab_active,
  tab_inactive, label_name, label_value, blue, yellow, green, red, logo, Window, WindowLayout,
  World, Cmd, Env, checked, ◌>>◌, ◌>>=◌, return, call, modify, when, get_win, set_win, get_nwin,
}
use amdtop.Tui.Layout.{Geometry, geometry}
use amdtop.Tui.Screen.{window_clear, draw_main_window_border}

-- `struct WindowOps`; a missing handler is a NULL pointer.
pub record WindowOps : Type 0 where
  pub init : Option Cmd
  pub exit : Option Cmd
  pub update : Option (ℕ → Cmd)
  pub handle_input : Option (ℤ → Cmd)

-- `enum HANDLE_TYPE`
abbrev pub handle_none : ℤ
handle_none = pos 0

abbrev pub handle_handled : ℤ
handle_handled = pos 1

abbrev pub all_windows : List WinType
all_windows = device ∷ tab ∷ main ∷ status ∷ []

-- The rows of `colors[]` from `COLOR_DEAFULT` on, in the order of the table.
abbrev all_colors : List ColorType
all_colors =
    default ∷ background ∷ title ∷ tab_active ∷ tab_inactive ∷ label_name ∷ label_value ∷ blue
    ∷ yellow ∷ green ∷ red ∷ logo ∷ []

unfoldable pub window_init : Option WindowOps → Cmd
window_init none w = (pos 0, w)
window_init (some ops) w = elim ops.init [ none ↦ (pos 0, w) | some f ↦ f w ]

unfoldable pub window_exit : Option WindowOps → Cmd
window_exit none w = (pos 0, w)
window_exit (some ops) w = elim ops.exit [ none ↦ (pos 0, w) | some f ↦ f w ]

unfoldable pub window_update : Option WindowOps → ℕ → Cmd
window_update none flags w = (pos 0, w)
window_update (some ops) flags w = elim ops.update [ none ↦ (pos 0, w) | some f ↦ f flags w ]

unfoldable pub window_input : Option WindowOps → ℤ → Cmd
window_input none ch w = (handle_none, w)
window_input (some ops) ch w = elim ops.handle_input [ none ↦ (handle_none, w) | some f ↦ f ch w ]

-- `ret == HANDLE_HANDLED`
abbrev pub is_handled : ℤ → Bool
is_handled (pos zero) = false
is_handled (pos (suc zero)) = true
is_handled (pos (suc (suc n))) = false
is_handled (negsuc n) = false

-- `win->last_update_time = 0`
unfoldable pub touch : WinType → World → World
touch t w = set_win t (record (get_win t w) { last_update_time = 0 }) w

module _ (ops : WinType → Option WindowOps) where
  unfoldable pub dispatch_loop : ℤ → List WinType → Cmd
  dispatch_loop ch [] w = (handle_none, w)
  dispatch_loop ch (t ∷ ts) w =
      let r = window_input (ops t) ch w in
      let next = dispatch_loop ch ts r.1 in
      let skip = dispatch_loop ch ts w in
      if w.setup then (if is_handled r.0 then r else next) else skip

  -- `WindowsDispatchInput`
  unfoldable pub windows_dispatch_input : ℤ → Cmd
  unfolding dispatch_loop
  windows_dispatch_input ch = dispatch_loop ch all_windows

  unfoldable pub init_loop : List WinType → Cmd
  unfolding touch
  init_loop [] w = (pos 0, w)
  init_loop (t ∷ ts) w =
      let r = window_init (ops t) (touch t w) in
      let next = init_loop ts r.1 in
      let skip = init_loop ts w in if w.setup then (if is_zero r.0 then next else r) else skip

  -- `WindowsInit`
  unfoldable pub windows_init : Cmd
  unfolding init_loop
  windows_init = init_loop all_windows

  unfoldable pub exit_loop : List WinType → Cmd
  exit_loop [] w = (negsuc 0, w)
  exit_loop (t ∷ ts) w =
      let r = window_exit (ops t) w in
      let next = exit_loop ts r.1 in
      let skip = exit_loop ts w in if w.setup then (if is_zero r.0 then next else r) else skip

  -- `WindowsExit`, which returns -1 at its end
  unfoldable pub windows_exit : Cmd
  unfolding exit_loop
  windows_exit = exit_loop all_windows

-- the loop of `InitColor`
unfoldable pub init_pairs : List ColorType → Cmd
init_pairs [] w = (pos 0, w)
init_pairs (c ∷ cs) w = init_pairs cs (record w { log = World.Call.init_pair c ∷ w.log })

-- `InitColor`
unfoldable pub init_color : Cmd
unfolding init_pairs
init_color = do
  c ← λ w. w.has_color
  when c (do
    modify (λ w. record w { color = true })
    init_pairs all_colors
    call (World.Call.wattrset none default))

-- `SetupWindows`
unfoldable pub setup_windows : Cmd
setup_windows = modify (λ w. record w { setup = true })

module _ (env : Env) where
  -- `getcurrent_ns()` is a call like any other; the later state is read by the next.
  abbrev pub read_clock : World → ℕ × World
  read_clock w = (env.clock w.log, record w { log = World.Call.read_clock ∷ w.log })

  -- `win->period > 0 && current_time >= win->last_update_time + win->period`
  unfoldable pub is_due : ℕ → Window → Bool
  is_due now v = ltb 0 v.period && leb ((v.last_update_time + v.period) % u64_mod) now

  unfoldable pub stamp : WinType → World → World
  stamp t w =
      let (now, w') = read_clock w in
      set_win t (record (get_win t w') { last_update_time = now }) w'

  unfoldable pub update_loop : (WinType → Option WindowOps) → ℕ → ℕ → List WinType → Cmd
  unfolding is_due stamp
  update_loop ops flags now [] w = (pos 0, w)
  update_loop ops flags now (t ∷ ts) w =
      let r = window_update (ops t) flags w in
      let next = update_loop ops flags now ts (stamp t r.1) in
      let skip = update_loop ops flags now ts w in
      if w.setup && is_due now (get_win t w) then (if is_zero r.0 then next else r) else skip

  -- `WindowsUpdate`: the clock is read once for the four tests
  unfoldable pub windows_update : (WinType → Option WindowOps) → ℕ → Cmd
  unfolding update_loop
  windows_update ops flags w =
      let (now, w') = read_clock w in update_loop ops flags now all_windows w'

  -- One round of the loop of `InitWinLayout`: the old ncurses window goes, a new one comes.
  unfoldable pub place_window : WinType → WindowLayout → Cmd
  place_window t l = do
    modify (λ w. set_win t (record (get_win t w) { layout = l }) w)
    n ← get_nwin t
    when (is_some n) (call (World.Call.delwin n))
    y ← λ w. (w.starty + l.starty) % u32_mod
    x ← λ w. (w.startx + l.startx) % u32_mod
    modify (λ w. set_win t (record (get_win t w) { nwin = env.new_window w.log }) w)
    call (World.Call.newwin l.height l.width y x)

  abbrev set_size : Geometry → World → World
  set_size g w = record w {
    width = g.width;
    height = g.height;
    startx = g.startx;
    starty = g.starty;
  }

  -- `InitWinLayout`
  unfoldable pub init_win_layout : Cmd
  unfolding place_window
  init_win_layout = do
    g ← λ w. geometry (env.cols w.log) (env.lines w.log)
    modify (set_size g)
    place_window device g.device
    place_window tab g.tab
    place_window main g.main
    place_window status g.status

  -- `InitMainWindow`
  unfoldable pub init_main_window : Cmd
  init_main_window = do
    c ← λ w. w.has_color
    y ← λ w. w.starty
    x ← λ w. w.startx
    lines ← λ w. w.height
    columns ← λ w. w.width
    when c (draw_main_window_border y x lines columns)
    window_clear env device
    window_clear env tab
    window_clear env main
    window_clear env status
    call World.Call.refresh

  -- `WindowsUpdateUi`
  unfoldable pub windows_update_ui : (WinType → Option WindowOps) → Cmd
  unfolding init_win_layout init_main_window
  windows_update_ui ops = do init_win_layout; init_main_window; windows_init ops

  -- `InitWindowContext`
  unfoldable pub init_window_context : (WinType → Option WindowOps) → Cmd
  unfolding init_color setup_windows windows_update_ui
  init_window_context ops = do init_color; setup_windows; windows_update_ui ops
