-- ===== src/Tui/TabWindow.antt =====
-- tui/tabwindow.c: the list of tab pages and the keys that switch between them.
pub mod Cycle
use amdtop.Base.{
  ℕ, zero, suc, ◌+◌, Bool, false, ◌||◌, Option, none, some, [], ◌∷◌, ℤ, pos, negsuc, inc, dec,
  is_neg, to_u32, of_u32, sub32, leb, ◌==◌, if◌then◌else◌,
}
use amdtop.Tui.World
use amdtop.Tui.World.{
  tab, main, default, blue, Text, lit, fmt, World, Cmd, Env, ◌>>◌, ◌>>=◌, return, ignore, call,
  modify, when, get_nwin,
}
use amdtop.Tui.Screen.{window_clear, mvwprintwc}
use amdtop.Tui.Tabinfo.{label_name, get_tab_info_by_index, get_tab_info_count}
use amdtop.Tui.Dispatch.{WindowOps, handle_none, handle_handled}
use amdtop.Tui.MainWindow.{main_init, main_exit}

-- The keys of ncurses.
abbrev pub key_npage : ℤ
key_npage = pos 0x152

abbrev pub key_ppage : ℤ
key_ppage = pos 0x153

abbrev pub is_next : ℤ → Bool
is_next (pos n) = n == 0x152 || n == 14
is_next (negsuc n) = false

abbrev pub is_previous : ℤ → Bool
is_previous (pos n) = n == 0x153 || n == 16
is_previous (negsuc n) = false

abbrev pub eq_int : ℤ → ℤ → Bool
eq_int (pos a) (pos b) = a == b
eq_int (pos a) (negsuc b) = false
eq_int (negsuc a) (pos b) = false
eq_int (negsuc a) (negsuc b) = a == b

-- The tab that a key asks for; `gTabCount` is unsigned, and so is the first comparison.
unfoldable pub next_tab : ℕ → ℤ → ℤ → ℤ
next_tab count ch t =
    if is_next ch
    then (if leb count (to_u32 (inc t)) then pos 0 else inc t)
    else (if is_previous ch then (if is_neg (dec t) then of_u32 (sub32 count 1) else dec t) else t)

module _ (env : Env) where
  -- The marks of `updateActiveTab` from row `i` on.
  unfoldable pub mark_tabs : Option ℕ → ℤ → (i rounds : ℕ) → Cmd
  mark_tabs n index i zero w = (pos 0, w)
  mark_tabs n index i (suc k) w =
      mark_tabs n index (i + 1) k
        (mvwprintwc env n (1 + i) 1 default (lit (if eq_int (pos i) index then "*" else " ")) w).1

  -- `updateActiveTab`
  unfoldable pub update_active_tab : ℤ → Cmd
  unfolding mark_tabs
  update_active_tab index = do
    n ← get_nwin tab
    count ← λ w. w.tab_count
    ignore (mark_tabs n index 0 count)
    call (World.Call.wrefresh n)

  -- The loop of `tabInit`: one line for each page. The table has no NULL within its bounds.
  unfoldable pub print_tabs : Option ℕ → (i rounds : ℕ) → Cmd
  print_tabs n i zero w = (pos 0, w)
  print_tabs n i (suc k) w = elim (get_tab_info_by_index i) [
    | none ↦ World.crash w
    | some id ↦
        print_tabs n (i + 1) k
          (call (World.Call.mvwprintw n (1 + i) 3 (fmt (label_name id) ((i + 1) ∷ []))) w).1
  ]

  -- `tabInit`
  unfoldable pub tab_init : Cmd
  unfolding print_tabs update_active_tab get_tab_info_count
  tab_init = do
    modify (λ w. record w { tab_count = get_tab_info_count })
    n ← get_nwin tab
    count ← λ w. w.tab_count
    print_tabs n 0 count
    y ← λ w. sub32 w.tab_win.layout.height 2
    ignore (mvwprintwc env n y 1 blue (lit "[h or ? for help!]"))
    call (World.Call.wrefresh n)
    t ← λ w. w.active_tab
    update_active_tab t

  unfoldable pub tab_exit : Cmd
  tab_exit = return (pos 0)

  -- The end of `tabHandleInput`, where the tab has changed.
  unfoldable pub switch_tab : ℤ → Cmd
  unfolding update_active_tab
  switch_tab t = do
    main_exit env
    modify (λ w. record w { active_tab = t })
    window_clear env main
    main_init env
    update_active_tab t

  -- `tabHandleInput`
  unfoldable pub tab_handle_input : ℤ → Cmd
  unfolding switch_tab next_tab
  tab_handle_input ch = do
    t ← λ w. next_tab w.tab_count ch w.active_tab
    old ← λ w. w.active_tab
    (if eq_int t old then return (pos 0) else switch_tab t)
    return (if is_next ch || is_previous ch then handle_handled else handle_none)

  unfoldable pub tab_update : ℕ → Cmd
  tab_update flags = return (pos 0)

  -- `tabOps`
  abbrev pub tab_ops : WindowOps
  tab_ops = record {
    init = some tab_init;
    exit = some tab_exit;
    update = some tab_update;
    handle_input = some tab_handle_input;
  }
