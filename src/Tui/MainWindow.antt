-- ===== src/Tui/MainWindow.antt =====
-- tui/mainwindow.c: the window that shows the active tab page, the exit dialog and the help page.
pub mod Help
use Prim.Native.Nat.{max}
use Prim.Native.String.{String, len}
use amdtop.Base.{
  ℕ, ◌+◌, ◌-◌, ◌/◌, ◌%◌, Bool, true, false, ◌&&◌, ◌||◌, Option, none, some, List, [], ◌∷◌, ℤ, pos,
  negsuc, u32_mod, u64_mod, sub32, of_u32, to_u32, is_neg, is_zero, length, ltb, leb, ◌==◌,
  if◌then◌else◌,
}
use amdtop.Tui.Device.{device_driver_is_loaded}
use amdtop.Tui.World
use amdtop.Tui.World.{
  main, ColorType, red, default, Text, lit, World, Cmd, Env, ◌>>◌, ◌>>=◌, return, ignore, call,
  modify, when, crash, get_nwin, get_active_device,
}
use amdtop.Tui.Screen.{window_clear, mvwprintwc, mvwprintwc_center, winframe}
use amdtop.Tui.Tabinfo.{
  TabId, system, about, label_name, tab_period, set_time, get_tab_info_by_index, tabinfo_init,
  tabinfo_exit, tabinfo_update,
}
use amdtop.Tui.Dispatch.{WindowOps, handle_none, read_clock}

-- The `switch` of `mainInit`: pages that are shown without a driver.
abbrev pub needs_no_driver : TabId → Bool
needs_no_driver system = true
needs_no_driver about = true
needs_no_driver _ = false

abbrev pub is_key : ℕ → ℤ → Bool
is_key k (pos n) = n == k
is_key k (negsuc n) = false

abbrev pub helper_str : List String
helper_str =
    "Help:" ∷ "F3:" ∷ "   switch previous device" ∷ "F4:" ∷ "   switch next device"
    ∷ "Ctrl-P / PageUP:" ∷ "   switch previous tabpage" ∷ "Ctrl-N / PageDown:"
    ∷ "   switch next tabpage" ∷ "? / h :" ∷ "   show this information" ∷ "q: " ∷ "   exit program"
    ∷ "" ∷ "" ∷ "type any key exit this help!" ∷ []

-- The loop of `helperHandler` over the lengths.
abbrev pub max_len_from : ℕ → List String → ℕ
max_len_from m [] = m
max_len_from m (s ∷ ss) = max_len_from (max m (len s)) ss

-- `(height - ARRAY_SIZE(helper_str)) / 2`, on size_t and stored in an `int`
unfoldable pub help_starty : ℕ → ℤ
help_starty height = of_u32 ((height + u64_mod - length helper_str) % u64_mod / 2)

-- `(width - max_len - 2) / 2`, on uint32_t and stored in an `int`
unfoldable pub help_startx : ℕ → ℤ
help_startx width = of_u32 (sub32 (sub32 width (max_len_from 0 helper_str)) 2 / 2)

module _ (env : Env) where
  -- `mainInit`
  unfoldable pub main_init : Cmd
  unfolding get_tab_info_by_index get_active_device device_driver_is_loaded
  main_init w = elim (get_tab_info_by_index (to_u32 w.active_tab)) [
    | none ↦ crash w
    | some id ↦
        if needs_no_driver id || device_driver_is_loaded (get_active_device w)
        then tabinfo_init env (to_u32 w.active_tab) w
        else (do
          mvwprintwc_center env w.main_win.nwin red (lit (label_name id)) 33
          call (World.Call.wrefresh w.main_win.nwin))
            w
  ]

  -- `mainExit` drops the page's result.
  unfoldable pub main_exit : Cmd
  main_exit w = ignore (tabinfo_exit env (to_u32 w.active_tab)) w

  -- The three calls that show the active page again.
  unfoldable pub redraw_main : Cmd
  redraw_main = do main_exit; window_clear env main; main_init

  -- The end of `exitProgram`, on the key that was typed.
  unfoldable pub answer_exit : ℤ → Cmd
  unfolding redraw_main
  answer_exit ch =
      if is_key b'y' ch
      then modify (λ w. record w { request_exit = true })
      else (do call (World.Call.timeout (pos 100)); redraw_main)

  -- `exitProgram`; the arguments of its `winframe` are taken from right to left.
  unfoldable pub exit_program : Cmd
  unfolding answer_exit
  exit_program = do
    n ← get_nwin main
    y ← λ w. sub32 (sub32 w.main_win.layout.height 5) 2 / 2
    x ← λ w. sub32 (sub32 w.main_win.layout.width 35) 2 / 2
    winframe env n y x (y + 5) ((x + 35) % u32_mod) ""
    ignore (mvwprintwc env n (y + 1) (x + 1) default (lit "       Are you sure exit ?       "))
    ignore (mvwprintwc env n (y + 2) (x + 1) default (lit "                                 "))
    ignore (mvwprintwc env n (y + 3) (x + 1) default (lit "       Type 'y' exit             "))
    ignore (mvwprintwc env n (y + 4) (x + 1) default (lit "       Other continue.           "))
    call (World.Call.wrefresh n)
    call (World.Call.timeout (negsuc 0))
    ch ← λ w. env.key w.log
    call World.Call.getch
    answer_exit ch

  unfoldable pub print_lines : Option ℕ → (y x : ℕ) → List String → Cmd
  print_lines n y x [] w = (pos 0, w)
  print_lines n y x (s ∷ ss) w =
      print_lines n (y + 1) x ss (mvwprintwc env n y x default (lit s) w).1

  -- `helperHandler`
  unfoldable pub show_help : (y x : ℕ) → Cmd
  unfolding redraw_main print_lines
  show_help y x = do
    n ← get_nwin main
    window_clear env main
    print_lines n y x helper_str
    winframe env n (sub32 y 2) (sub32 x 2) ((y + length helper_str + 4) % u32_mod)
        ((x + max_len_from 0 helper_str + 4) % u32_mod) "HELP"
    call (World.Call.wrefresh n)
    call (World.Call.timeout (negsuc 0))
    call World.Call.getch
    redraw_main
    call (World.Call.timeout (pos 200))

  unfoldable pub helper_handler : Cmd
  unfolding show_help help_startx help_starty
  helper_handler w =
      let y = help_starty w.main_win.layout.height in
      let x = help_startx w.main_win.layout.width in
      if is_neg x || is_neg y then (pos 0, w) else show_help (to_u32 y) (to_u32 x) w

  -- `mainHandleInput`
  unfoldable pub main_handle_input : ℤ → Cmd
  main_handle_input ch = do
    when (is_key b'q' ch) (exit_program)
    when (is_key b'h' ch || is_key b'?' ch) (helper_handler)
    return handle_none

  unfoldable pub tab_is_due : ℕ → TabId → World → Bool
  tab_is_due now id w =
      ltb 0 (tab_period id)
      && leb ((w.tab_times (to_u32 w.active_tab) + tab_period id) % u64_mod) now

  -- `mainUpdate`
  unfoldable pub main_update : ℕ → Cmd
  unfolding tab_is_due
  main_update flags w0 =
      let (now, w) = read_clock env w0 in
      let i = to_u32 w.active_tab in
      let r = tabinfo_update env i w in
      let (later, w') = read_clock env r.1 in
      if device_driver_is_loaded (get_active_device w)
      then (elim (get_tab_info_by_index i) [
        | none ↦ crash w
        | some id ↦
            if tab_is_due now id w
            then (if is_zero r.0
                then (pos 0, record w' { tab_times = set_time w'.tab_times i later })
                else r)
            else (pos 0, w)
      ])
      else (pos 0, w)

  -- `mainOps`
  abbrev pub main_ops : WindowOps
  main_ops = record {
    init = some main_init;
    exit = some main_exit;
    update = some main_update;
    handle_input = some main_handle_input;
  }
