-- ===== src/Tui/Screen.antt =====
-- The drawing routines of tui/window.c.
use amdtop.Base.{
  ℕ, zero, suc, ◌+◌, ◌*◌, ◌-◌, ◌/◌, ◌%◌, Option, none, ◌∷◌, pos, u32_mod, u64_mod, sub32, ltb,
}
use amdtop.Tui.World
use amdtop.Tui.World.{
  WinType, ColorType, Text, default, label_name, label_value, lit, Cmd, Env, ◌>>◌, ◌>>=◌, ignore,
  call, when, get_nwin,
}
use Prim.Native.String.{String}

-- `winclear`: one `waddch` for each cell.
unfoldable pub add_blanks : ℕ → Option ℕ → Cmd
add_blanks zero n w = (pos 0, w)
add_blanks (suc k) n w = add_blanks k n (record w { log = World.Call.waddch n ∷ w.log })

module _ (env : Env) where
  unfoldable pub winclear : Option ℕ → Cmd
  unfolding add_blanks
  winclear n w = add_blanks (env.getmaxy w.log n * env.getmaxx w.log n) n w

  -- `WindowClear`
  unfoldable pub window_clear : WinType → Cmd
  unfolding winclear
  window_clear t = do
    n ← get_nwin t
    c ← λ w. w.has_color
    when c (call (World.Call.wattrset n default))
    call (World.Call.wclear n)
    winclear n
    call (World.Call.box n)

  -- `mvwprintwc`: its result is that of `vwprintw`. The colour is switched on and off around it.
  unfoldable pub mvwprintwc : Option ℕ → (y x : ℕ) → ColorType → Text → Cmd
  mvwprintwc n y x c t = do
    call (World.Call.wmove n y x)
    call (World.Call.printw n c t)
    λ w. (env.printw_ret w.log, w)

  -- `mvwprintw2c`: the label and the value in their colours, but nothing on the last line of the
  -- window or below it. No caller looks at its result.
  unfoldable pub mvwprintw2c : Option ℕ → (y x : ℕ) → (label value : Text) → Cmd
  mvwprintw2c n y x label value = do
    maxy ← λ w. env.getmaxy w.log n
    when (ltb (y + 1) maxy) (
        call (World.Call.wmove n y x)
        >> call (World.Call.printw n label_name label)
        >> call (World.Call.printw n label_value value))

  -- `mvwprintwc_center`, for a text of `size` characters.
  unfoldable pub mvwprintwc_center : Option ℕ → ColorType → Text → ℕ → Cmd
  unfolding mvwprintwc
  mvwprintwc_center n c t size = do
    maxx ← λ w. env.getmaxx w.log n
    maxy ← λ w. env.getmaxy w.log n
    ignore (mvwprintwc n (maxy / 2) ((maxx + u64_mod - size) % u64_mod / 2 % u32_mod) c t)

  -- `winframe`
  unfoldable pub winframe : Option ℕ → (starty startx endy endx : ℕ) → String → Cmd
  unfolding mvwprintwc
  winframe n starty startx endy endx label = do
    call (World.Call.hline n starty startx (sub32 endx startx))
    call (World.Call.hline n endy startx (sub32 endx startx))
    call (World.Call.vline n starty startx (sub32 endy starty))
    call (World.Call.vline n starty (sub32 endx 1) (sub32 endy starty))
    call (World.Call.corner n starty startx)
    call (World.Call.corner n endy startx)
    call (World.Call.corner n starty (sub32 endx 1))
    call (World.Call.corner n endy (sub32 endx 1))
    ignore (mvwprintwc n starty ((startx + 2) % u32_mod) default (lit label))

-- The loops of `DrawMainWindowBorder`: `rounds` steps from `x` or `y` on.
unfoldable pub fill_row : (y x rounds : ℕ) → Cmd
fill_row y x zero w = (pos 0, w)
fill_row y x (suc k) w = fill_row y (x + 1) k (record w { log = World.Call.mvaddch y x ∷ w.log })

unfoldable pub fill_rows : (y x columns rounds : ℕ) → Cmd
unfolding fill_row
fill_rows y x columns zero w = (pos 0, w)
fill_rows y x columns (suc k) w = fill_rows (y + 1) x columns k (fill_row y x columns w).1

-- `DrawMainWindowBorder`: the blanks, then the frame one cell outside the context. A loop whose
-- index starts at -1 is not entered, since it is compared as an unsigned number.
unfoldable pub draw_main_window_border : (starty startx height width : ℕ) → Cmd
unfolding fill_rows
draw_main_window_border starty startx height width =
    let top = sub32 starty 1 in
    let left = sub32 startx 1 in
    let bottom = (starty + height) % u32_mod in
    let right = (startx + width) % u32_mod in
    do
      fill_rows top left (right - left) (bottom - top)
      call (World.Call.hline none top left ((width + 2) % u32_mod))
      call (World.Call.hline none bottom left ((width + 2) % u32_mod))
      call (World.Call.vline none top left ((height + 2) % u32_mod))
      call (World.Call.vline none top right ((height + 2) % u32_mod))
      call (World.Call.corner none top left)
      call (World.Call.corner none bottom left)
      call (World.Call.corner none top right)
      call (World.Call.corner none bottom right)
