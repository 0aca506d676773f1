-- ===== src/Tui/Layout/Tiling.antt =====
-- The four windows on the screen: `InitWinLayout` of tui/window.c.
use amdtop.Base.{
  ℕ, ◌+◌, ◌-◌, ◌/◌, sub32, ◌≡◌, ◌≤◌, ◌<◌, ◌&&◌, arith, ltb, leb, if◌then◌else◌, ◌⊎◌, ◌^◌,
}
use amdtop.Tui.World.{WindowLayout}
use amdtop.Tui.Layout.{Geometry, geometry, context_size, win_layout}

-- 1 if the cell lies in the window, both relative to the context.
abbrev pub covers : WindowLayout → ℕ → ℕ → ℕ
covers l y x =
    if leb l.starty y && ltb y (l.starty + l.height) && leb l.startx x && ltb x (l.startx + l.width)
    then 1
    else 0

-- How many of the four windows a cell lies in.
abbrev pub covered : Geometry → ℕ → ℕ → ℕ
covered g y x = covers g.device y x + covers g.tab y x + covers g.main y x + covers g.status y x

-- The context leaves two cells of the screen at least, and no more than it must on a small screen.
context_size_bounds :
    (least total : ℕ)
    → 10 ≤ least
    → 2 ≤ total
    → total < 2 ^ 24
    → (context_size least total + 2 ≤ total)
      × ((least ≤ context_size least total) ⊎ (context_size least total + 2 ≡ total))
unfolding context_size
context_size_bounds least total l h k = ground arith

win_layout_tiles :
    (width height startx starty y x : ℕ)
    → 20 ≤ width
    → width < 2 ^ 32
    → 9 ≤ height
    → height < 2 ^ 32
    → y < height
    → x < width
    → covered (win_layout width height startx starty) y x ≡ 1
unfolding win_layout
win_layout_tiles width height startx starty y x w1 w2 h1 h2 hy hx = ground arith

-- On a screen of at least 22 columns and 11 lines and fewer than 2 ^ 24 of each, each cell of the context lies in exactly one of the
-- four windows.
pub geometry_tiles :
    (cols lines y x : ℕ)
    → 22 ≤ cols
    → cols < 2 ^ 24
    → 11 ≤ lines
    → lines < 2 ^ 24
    → y < (geometry cols lines).height
    → x < (geometry cols lines).width
    → covered (geometry cols lines) y x ≡ 1
unfolding geometry win_layout
geometry_tiles cols lines y x c1 c2 l1 l2 hy hx =
    let (cw, cd) = context_size_bounds 112 cols (omega arith) (omega arith) c2 in
    let (lw, ld) = context_size_bounds 42 lines (omega arith) (omega arith) l2 in
    win_layout_tiles (context_size 112 cols) (context_size 42 lines)
      (sub32 cols (context_size 112 cols) / 2) (sub32 lines (context_size 42 lines) / 2) y x
      (omega arith) (omega arith) (omega arith) (omega arith) hy hx

-- On a screen of at least two and fewer than 2 ^ 24 columns and lines, the context and a frame one cell wide around it lie
-- on the screen, and the margins on the two sides differ by one cell at most.
geometry_centred :
    (cols lines : ℕ)
    → 2 ≤ cols
    → cols < 2 ^ 24
    → 2 ≤ lines
    → lines < 2 ^ 24
    → let g = geometry cols lines in
      (1 ≤ g.startx)
      × (g.startx + g.width + 1 ≤ cols)
      × (1 ≤ g.starty)
      × (g.starty + g.height + 1 ≤ lines)
      × (g.startx ≤ cols - (g.startx + g.width))
      × (cols - (g.startx + g.width) ≤ g.startx + 1)
      × (g.starty ≤ lines - (g.starty + g.height))
      × (lines - (g.starty + g.height) ≤ g.starty + 1)
unfolding geometry win_layout
geometry_centred cols lines c1 c2 l1 l2 =
    let (cw, cd) = context_size_bounds 112 cols (omega arith) c1 c2 in
    let (lw, ld) = context_size_bounds 42 lines (omega arith) l1 l2 in omega arith

-- On a screen of 2 to 10 lines the height of the tab and of the main window wraps below zero.
pub geometry_wraps :
    (cols lines : ℕ)
    → 2 ≤ lines
    → lines < 11
    → (2 ^ 32 - 9 ≤ (geometry cols lines).tab.height)
      × ((geometry cols lines).main.height ≡ (geometry cols lines).tab.height)
unfolding geometry win_layout context_size
geometry_wraps cols lines h k = ground arith
