-- ===== src/Tui.antt =====
-- The terminal front end, tui/.
pub mod Device
pub mod World
pub mod Layout
pub mod Screen
pub mod Bar
pub mod Dispatch
pub mod Tabinfo
pub mod MainWindow
pub mod StatusWindow
pub mod TabWindow
pub mod DeviceWindow
pub mod Main
pub mod Frame
pub mod Invariant
pub mod Selection
pub mod Rings
pub mod Fences
pub mod Firmware
pub mod State
pub mod Display
