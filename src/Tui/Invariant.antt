-- ===== src/Tui/Invariant.antt =====
-- The invariant of the front end, and which commands keep it.
pub mod Sound
pub mod Windows
pub mod Reach
pub mod Selected
pub mod Exit
pub mod Quit
use amdtop.Base.{
  ℕ, zero, suc, ◌+◌, ◌≡◌, ◌≤◌, ◌<◌, Bool, true, false, Option, none, some, ℤ, pos, negsuc, is_some,
  to_u32, u32_mod, ◌%◌, leb, get_elem?-lt, arith,
}
use amdtop.Tui.Device.{DeviceContext, max_card_support}
use amdtop.Tui.World.{World}
use amdtop.Tui.Tabinfo.{tabinfo_count, tabinfo_list, get_tab_info_by_index}
use amdtop.Tui.TabWindow.{next_tab}
use amdtop.Tui.DeviceWindow.{next_device}
use amdtop.Tui.Frame.{Frame, TabOk}

-- 0 ≤ i < n for an `int`
abbrev pub Below : ℤ → ℕ → Type 0
Below (pos i) n = i < n
Below (negsuc i) n = ⊥

-- The device table: at most as many devices as slots, and none missing.
pub record TableOk (c : DeviceContext) : Type 0 where
  pub few : c.device_count ≤ max_card_support
  pub full : (i : ℕ) → i < c.device_count → is_some (c.devs i) ≡ true

-- The selections name a page and, if there are devices, a device; no NULL pointer was followed outside
-- the handlers of the tab pages.
pub record Good (w : World) : Type 0 where
  pub tab : Below w.active_tab tabinfo_count
  pub device :
      (Below w.active_device (suc w.dctx.device_count))
      × (0 < w.dctx.device_count → Below w.active_device w.dctx.device_count)
  pub table : TableOk w.dctx
  pub safe : w.fault ≡ false

-- The four windows are installed, and the number of pages is known.
pub record Ready (w : World) : Type 0 where
  pub setup : w.setup ≡ true
  pub count : w.tab_count ≡ tabinfo_count

pub get_tab_info_by_index-some :
    (i : ℕ) → i < tabinfo_count → is_some (get_tab_info_by_index i) ≡ true
unfolding get_tab_info_by_index
get_tab_info_by_index-some i h =
    let inside : leb tabinfo_count i ≡ false = ground arith in
    rw inside (get_elem?-lt tabinfo_list i h)

Below-TabOk : (t : ℤ) → Below t tabinfo_count → is_some (get_tab_info_by_index (to_u32 t)) ≡ true
Below-TabOk (negsuc i) h = elim h [ ]
Below-TabOk (pos i) h =
    let small : i % u32_mod ≡ i = omega arith in rw small (get_tab_info_by_index-some i h)

pub Good-TabOk : {w : World} → Good w → TabOk w
Good-TabOk {w} g = Below-TabOk w.active_tab g.tab

-- A page key leads from a page to a page.
pub next_tab-Below : (ch t : ℤ) → Below t 10 → Below (next_tab 10 ch t) 10
unfolding next_tab
next_tab-Below ch (negsuc i) h = elim h [ ]
next_tab-Below ch (pos i) h = ground arith

-- A device key leads from a device to a device.
pub next_device-Below :
    (n : ℕ) (ch i : ℤ) → n ≤ 8 → 0 < n → Below i n → Below (next_device n ch i) n
unfolding next_device
next_device-Below n ch (negsuc i) small h k = elim k [ ]
next_device-Below n ch (pos i) small h k = ground arith
