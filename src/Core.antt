-- ===== src/Core.antt =====
-- The core library (core/): its calls of the kernel, the mode setting over a model of its
-- allocations, and the handles of the cards.
pub mod Heap
pub mod Ioctl
pub mod Atombios
pub mod Handles
pub mod Info
pub mod Mode
pub mod Debug
