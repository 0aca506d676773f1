-- ===== src/Tui/Tabinfo.antt =====
-- tui/tabinfo.c and tui/tabinfo.h: the table of tab pages and the calls through `struct TabInfo`.
use amdtop.Base.{
  Bool, ◌||◌, ℕ, ◌*◌, Option, none, some, List, [], ◌∷◌, ◌++◌, ℤ, pos, einval, is_some, length,
  get_elem?, leb, ◌==◌, if◌then◌else◌,
}
use amdtop.Tui.World.{World, Call, Cmd, Env}
use Prim.Native.String.{String}

-- `enum TabID`
pub data TabId : Type 0 where
  system device driver stat firmware ring fence vbios display about : TabId

-- `tabinfoList`
abbrev pub tabinfo_list : List TabId
tabinfo_list =
    TabId.stat ∷ system ∷ device ∷ driver ∷ ring ∷ firmware ∷ vbios ∷ display ∷ fence ∷ about ∷ []

-- `labelName` of each page
abbrev pub label_name : TabId → String
label_name system = "System"
label_name device = "Device"
label_name driver = "Driver"
label_name TabId.stat = "Stat"
label_name firmware = "Firmware"
label_name ring = "Ring"
label_name fence = "Fence"
label_name vbios = "Bios"
label_name display = "Display"
label_name about = "About"

-- `MS_2_NS`
abbrev pub ms_2_ns : ℕ → ℕ
ms_2_ns x = x * 1000 * 1000

-- `period` of each page
abbrev pub tab_period : TabId → ℕ
tab_period TabId.stat = ms_2_ns 500
tab_period fence = ms_2_ns 500
tab_period display = ms_2_ns 500
tab_period _ = 0

abbrev pub tabinfo_count : ℕ
tabinfo_count = length tabinfo_list

-- `getTabInfoByIndex`
unfoldable pub get_tab_info_by_index : ℕ → Option TabId
get_tab_info_by_index i = if leb tabinfo_count i then none else get_elem? tabinfo_list i

unfoldable pub get_tab_info_count : ℕ
get_tab_info_count = tabinfo_count

-- A page's handler runs, if it is not NULL. A crash in it is noted in `page_fault`.
unfoldable pub run_handler : (World → Option (ℤ × List Call × Bool)) → Cmd
run_handler h w = elim (h w) [
  | none ↦ (pos 0, w)
  | some (ret, calls, crashed) ↦
      (ret, record w { log = calls ++ w.log; page_fault = w.page_fault || crashed })
]

abbrev pub set_time : (ℕ → ℕ) → ℕ → ℕ → ℕ → ℕ
set_time f i t j = if j == i then t else f j

module _ (env : Env) where
  -- `TabinfoInit`, `TabinfoExit`, `TabinfoUpdate` on the page of an index; a page is NULL out of range.
  unfoldable pub tabinfo_init : ℕ → Cmd
  unfolding run_handler get_tab_info_by_index
  tabinfo_init i w =
      if is_some (get_tab_info_by_index i)
      then (let r = run_handler (env.tab_init i) w in
          (r.0, record (r.1) { tab_times = set_time r.1.tab_times i 0 }))
      else (einval, w)

  unfoldable pub tabinfo_exit : ℕ → Cmd
  unfolding run_handler get_tab_info_by_index
  tabinfo_exit i w =
      if is_some (get_tab_info_by_index i) then run_handler (env.tab_exit i) w else (einval, w)

  unfoldable pub tabinfo_update : ℕ → Cmd
  unfolding run_handler get_tab_info_by_index
  tabinfo_update i w =
      if is_some (get_tab_info_by_index i) then run_handler (env.tab_update i) w else (einval, w)
