-- ===== src/Tests.antt =====
-- The theorems at concrete inputs: a card on a 120 by 50 terminal, a kernel that reports one
-- connector, two encoders, one pipe and no framebuffer, two cards in /dev/dri, and a
-- card whose texts fill their lengths.
mod Screens
mod Pages
mod Kernel
mod Cards
mod Files
mod Displays
mod Blocks
mod Firmware
