-- ===== src/Tui/Layout.antt =====
-- `InitWinLayout` of tui/window.c: the arithmetic of the layout, on uint32_t.
pub mod Tiling
use amdtop.Base.{ℕ, ◌+◌, ◌*◌, ◌/◌, sub32, ltb, if◌then◌else◌}
use amdtop.Tui.World.{WindowLayout}

-- `WINDOW_DEVICE_HEIGHT`, `WINDOW_TAB_WIDTH`, `WINDOW_STATUS_HEIGH`, `DEFAULT_WINDOW_SIZE`
abbrev pub window_device_height : ℕ
window_device_height = 6

abbrev pub window_tab_width : ℕ
window_tab_width = 20

abbrev pub window_status_height : ℕ
window_status_height = 3

abbrev pub default_window_size : ℕ
default_window_size = 80

-- What `InitWinLayout` computes.
pub record Geometry : Type 0 where
  pub width : ℕ
  pub height : ℕ
  pub startx : ℕ
  pub starty : ℕ
  pub device : WindowLayout
  pub tab : WindowLayout
  pub main : WindowLayout
  pub status : WindowLayout

-- The size of the context on a terminal of `total` columns or lines.
unfoldable pub context_size : ℕ → ℕ → ℕ
context_size least total =
    let scaled = total * default_window_size / 100 in
    if ltb scaled least then sub32 total 2 else scaled

unfoldable pub win_layout : (width height startx starty : ℕ) → Geometry
win_layout width height startx starty =
    let tab_height = sub32 (sub32 height window_device_height) window_status_height in
    record {
      width = width;
      height = height;
      startx = startx;
      starty = starty;
      device = record { starty = 0; startx = 0; width = width; height = window_device_height };
      tab = record {
        starty = 0 + window_device_height;
        startx = 0;
        width = window_tab_width;
        height = tab_height;
      };
      main = record {
        starty = 0 + window_device_height;
        startx = 0 + window_tab_width;
        width = sub32 width window_tab_width;
        height = tab_height;
      };
      status = record {
        starty = sub32 height window_status_height;
        startx = 0;
        width = width;
        height = window_status_height;
      };
    }

unfoldable pub geometry : (cols lines : ℕ) → Geometry
unfolding context_size win_layout
geometry cols lines =
    let width = context_size 112 cols in
    let height = context_size 42 lines in
    win_layout width height (sub32 cols width / 2) (sub32 lines height / 2)
