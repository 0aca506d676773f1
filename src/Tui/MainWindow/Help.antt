-- ===== src/Tui/MainWindow/Help.antt =====
-- The guard of `helperHandler` in tui/mainwindow.c against a window that is too small.
use amdtop.Base.{ℕ, ◌-◌, ◌≡◌, ◌<◌, ◌≤◌, ◌^◌, false, arith, is_neg, ltb, to_u32}
use amdtop.Tui.MainWindow.{help_startx, help_starty}

-- For a height that a `uint32_t` holds, the first coordinate is negative, so that the window is refused,
-- exactly when the window has fewer than 16 rows, the lines of the help page.
help_starty-is_neg : (height : ℕ) → height < 2 ^ 32 → is_neg (help_starty height) ≡ ltb height 16
unfolding help_starty
help_starty-is_neg height h = ground arith

-- For a width that a `uint32_t` holds the second coordinate is never negative: no width is refused.
help_startx-is_neg : (width : ℕ) → width < 2 ^ 32 → is_neg (help_startx width) ≡ false
unfolding help_startx
help_startx-is_neg width h = ground arith

-- In a window of fewer than 30 columns the page is written some 2 ^ 31 columns to the right.
help_startx-narrow : (width : ℕ) → width < 30 → 2 ^ 31 - 15 ≤ to_u32 (help_startx width)
unfolding help_startx
help_startx-narrow width h = ground arith
