-- ===== src/Tui/DeviceWindow/Clamp.antt =====
-- The keys that switch between graphics cards stop at the two ends of the list (tui/devicewindow.c).
use amdtop.Base.{ℕ, zero, suc, ◌+◌, ◌-◌, ◌^◌, ◌≡◌, ◌<◌, pos, ltb, if◌then◌else◌, arith}
use amdtop.Tui.DeviceWindow.{next_device}

-- With fewer than 2 ^ 31 devices and one of them selected, F3 selects the device before it and F4 the
-- one behind it, and at the first and at the last device they change nothing.
next_device_clamps :
    (count i : ℕ)
    → i < count
    → count < 2 ^ 31
    → (next_device count (pos 0x10b) (pos i) ≡ pos (i - 1))
      × (next_device count (pos 0x10c) (pos i) ≡ pos (if ltb (i + 1) count then i + 1 else i))
unfolding next_device
next_device_clamps count zero h k = (ground arith, ground arith)
next_device_clamps count (suc i) h k = (ground arith, ground arith)
