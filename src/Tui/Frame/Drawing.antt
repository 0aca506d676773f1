-- ===== src/Tui/Frame/Drawing.antt =====
-- The drawing routines of tui/window.c leave the selections, the device table and the flags alone.
use amdtop.Base.{ℕ, zero, suc, ◌+◌, ◌*◌, refl, Bool, Option}
use amdtop.Tui.World
use amdtop.Tui.World.{WinType, ColorType, Text, World, Cmd, Env, call, ignore}
use amdtop.Tui.Screen.{
  add_blanks, winclear, window_clear, mvwprintwc, mvwprintwc_center, winframe, fill_row, fill_rows,
  draw_main_window_border,
}
use amdtop.Tui.Frame.{Frame, Frame-refl, Frame-trans, Keeps, Keeps->>, Keeps-call, keeps}
use Prim.Native.String.{String}

pub Frame-log : {q : Bool} (w : World) (h : World.History) → Frame q w (record w { log = h })
Frame-log w h = record {
  device = refl;
  tab = refl;
  table = refl;
  count = refl;
  setup = refl;
  exit = λ h. refl;
  fault = λ h. refl;
}

Frame-add_blanks : {q : Bool} (k : ℕ) (n : Option ℕ) (w : World) → Frame q w (add_blanks k n w).1
unfolding add_blanks
Frame-add_blanks zero n w = Frame-refl w
Frame-add_blanks (suc k) n w = Frame-trans (Frame-log w _) (Frame-add_blanks k n _)

Frame-fill_row : {q : Bool} (y x k : ℕ) (w : World) → Frame q w (fill_row y x k w).1
unfolding fill_row
Frame-fill_row y x zero w = Frame-refl w
Frame-fill_row y x (suc k) w = Frame-trans (Frame-log w _) (Frame-fill_row y (x + 1) k _)

Frame-fill_rows : {q : Bool} (y x c k : ℕ) (w : World) → Frame q w (fill_rows y x c k w).1
unfolding fill_rows
Frame-fill_rows y x c zero w = Frame-refl w
Frame-fill_rows y x c (suc k) w =
    Frame-trans (Frame-fill_row y x c w) (Frame-fill_rows (y + 1) x c k _)

Keeps-fill_rows : {q : Bool} (y x c k : ℕ) → Keeps q (fill_rows y x c k)
Keeps-fill_rows y x c k = record { apply = Frame-fill_rows y x c k }

pub Keeps-draw_main_window_border :
    {q : Bool} (y x h w : ℕ) → Keeps q (draw_main_window_border y x h w)
unfolding draw_main_window_border
Keeps-draw_main_window_border y x h w = search (keeps, Keeps-fill_rows) depth 14

module _ (env : Env) {q : Bool} where
  pub Keeps-winclear : (n : Option ℕ) → Keeps q (winclear env n)
  unfolding winclear
  Keeps-winclear n = record {
    apply = λ w. Frame-add_blanks (env.getmaxy w.log n * env.getmaxx w.log n) n w;
  }

  pub Keeps-window_clear : (t : WinType) → Keeps q (window_clear env t)
  unfolding window_clear
  Keeps-window_clear t = search (keeps, Keeps-winclear) depth 12

  pub Keeps-mvwprintwc :
      (n : Option ℕ) (y x : ℕ) (c : ColorType) (t : Text) → Keeps q (mvwprintwc env n y x c t)
  unfolding mvwprintwc
  Keeps-mvwprintwc n y x c t =
      Keeps->> (Keeps-call _) (Keeps->> (Keeps-call _) (record { apply = λ w. Frame-refl w }))

  pub Keeps-mvwprintwc_center :
      (n : Option ℕ) (c : ColorType) (t : Text) (size : ℕ)
      → Keeps q (mvwprintwc_center env n c t size)
  unfolding mvwprintwc_center
  Keeps-mvwprintwc_center n c t size = search (keeps, Keeps-mvwprintwc) depth 12

  pub Keeps-winframe :
      (n : Option ℕ) (sy sx ey ex : ℕ) (label : String) → Keeps q (winframe env n sy sx ey ex label)
  unfolding winframe
  Keeps-winframe n sy sx ey ex label = search (keeps, Keeps-mvwprintwc) depth 16
