-- ===== src/Tui/Invariant/Selected.antt =====
-- The device that the windows show (tui/context.c).
use amdtop.Base.{
  ◌≡◌, ◌<◌, ◌%◌, true, none, ℤ, pos, negsuc, is_some, leb, to_u32, u32_mod, arith, if◌then◌else◌,
}
use native.Mathlib.Nat.{mod-eq_of_lt}
use amdtop.Tui.Device.{DeviceContext}
use amdtop.Tui.World.{World, get_active_device}
use amdtop.Tui.Invariant.{Below, Good, TableOk}

in_table :
    (c : DeviceContext) (a : ℤ)
    → TableOk c
    → Below a c.device_count
    → is_some (if leb (to_u32 a) c.device_count then c.devs (to_u32 a) else none) ≡ true
in_table c (pos i) ok l =
    let few = ok.few in
    let same : i % u32_mod ≡ i = mod-eq_of_lt (omega arith) in
    let full = ok.full i l in rw same (ground (arith, full))
in_table c (negsuc i) ok l = absurd l

-- In a state with the invariant of the reachable states, if there is a device, `getAcitveDevice` finds
-- one.
get_active_device-Good :
    (w : World) → Good w → 0 < w.dctx.device_count → is_some (get_active_device w) ≡ true
unfolding get_active_device
get_active_device-Good w good some_device =
    in_table w.dctx w.active_device good.table (good.device.1 some_device)
