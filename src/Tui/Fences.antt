-- ===== src/Tui/Fences.antt =====
-- tui/fenceinfo.c: the fences of each ring, over the files of debugfs (core/gpudridebug.c).
pub mod Overflow
use amdtop.Base.{
  ℕ, suc, ◌+◌, ◌/◌, Bool, true, false, Option, none, some, List, [], ◌∷◌, ℤ, pos, negsuc, is_zero,
  if◌then◌else◌,
}
use amdtop.Base.Text.{Bytes}
use amdtop.Core.Debug.{AmdGpuRing, Scan, amd_gpu_ring_info}
use amdtop.Core.Debug.Fences.{AmdGpuFenceInfo, amd_gpu_query_fence_info}
use amdtop.Tui.Tabinfo.{ms_2_ns}
use amdtop.Tui.World
use amdtop.Tui.World.{
  WinType, World, Env, Cmd, History, Text, fmt, lit, default, red, ◌>>◌, call, crash, get_win,
  get_active_device,
}
use amdtop.Tui.Screen.{mvwprintwc, mvwprintw2c, mvwprintwc_center}

abbrev pub max_ring_count : ℕ
max_ring_count = 20

-- What geteuid, the directory of debugfs of a card and its fence file say, each at a call.
pub record DebugFs : Type 0 where
  pub is_root : History → Bool
  pub entries : History → ℕ → Option (List Bytes)
  pub fences : History → ℕ → Option (List Bytes)

-- The statics `gpuRings`, of which the first `ring_count` are in the list, with their device, and the
-- `period` of the page.
pub record FencePage : Type 0 where
  pub gpu_rings : List AmdGpuRing
  pub ring_count : ℕ
  pub device : ℕ
  pub period : ℕ

abbrev pub start_page : FencePage
start_page = record { gpu_rings = []; ring_count = 0; device = 0; period = ms_2_ns 500 }

-- What `amdGpuRingInfo` leaves in the statics; a directory that is not there, and a write behind the array,
-- end the program.
unfoldable pub keep_rings : ℕ → Option Scan → FencePage → World → ℤ × FencePage × World
keep_rings device none p w = (negsuc 0, p, (crash w).1)
keep_rings device (some s) p w =
    if s.fault
    then (negsuc 0, p, (crash w).1)
    else (pos 0, record p { gpu_rings = s.rings; ring_count = s.ring_num; device = device }, w)

module _ (env : Env) (fs : DebugFs) where
  -- `getRingInfo` behind the test; `current_device` is never set, and NULL.
  unfoldable pub fetch_rings : Option ℕ → FencePage → World → ℤ × FencePage × World
  unfolding keep_rings
  fetch_rings none p w = (negsuc 0, p, (crash w).1)
  fetch_rings (some g) p w =
      keep_rings g (amd_gpu_ring_info (fs.entries w.log g) (some max_ring_count)) p
        (record w { log = World.Call.query "ring info" g ∷ w.log })

  -- `getRingInfo`
  unfoldable pub get_ring_info : FencePage → World → ℤ × FencePage × World
  unfolding fetch_rings
  get_ring_info p w = elim (get_active_device w) [
    | none ↦ (pos 0, p, w)
    | some d ↦ fetch_rings d.gpu_device p w
  ]

  -- The line of a ring, up to its name.
  unfoldable pub print_fences : Option ℕ → (line x : ℕ) → Option (ℤ × AmdGpuFenceInfo) → Cmd
  print_fences n line x none = crash
  print_fences n line x (some (ret, i)) =
      if is_zero ret
      then mvwprintw2c env n line x (fmt "%-15s:" []) (
          fmt " %08x  %08x  %08x  %08x  %08x  %08x  %08x" (
            i.signaled ∷ i.emitted ∷ i.trailing_fence ∷ i.emitted_trial ∷ i.preempted ∷ i.reset
            ∷ i.both ∷ []))
      else (λ w. (ret, w))

  -- A round of the loop.
  unfoldable pub print_ring : Option ℕ → (device line x : ℕ) → AmdGpuRing → Cmd
  unfolding print_fences
  print_ring n device line x r w =
      print_fences n line x (amd_gpu_query_fence_info r.shortname (fs.fences w.log device))
        (record w { log = World.Call.query "fence info" device ∷ w.log })

  unfoldable pub print_rings : Option ℕ → (device line x : ℕ) → List AmdGpuRing → Cmd
  unfolding print_ring
  print_rings n device line x [] w = (pos 0, w)
  print_rings n device line x (r ∷ rs) w =
      (print_ring n device line x r >> print_rings n device (line + 1) x rs) w

  -- The heads of the columns.
  unfoldable pub print_heads : Option ℕ → (line x : ℕ) → Cmd
  print_heads n line x w = (
    pos 0,
    (mvwprintwc env n line x default
        (lit "RingName       : signal    emitted   ttrail     e-trail   preempt   reset     both")
        w).1,
  )

  -- `update_fence_info`; `device->gpuDevice` is read of a device that may not be there.
  unfoldable pub update_fence_info : WinType → FencePage → Cmd
  unfolding print_rings print_heads
  update_fence_info t p w = elim (get_active_device w) as (λ o. ℤ × World) [
    | none ↦ crash w
    | some d ↦
        (print_heads (get_win t w).nwin 2 ((get_win t w).layout.width / 20)
            >> print_rings (get_win t w).nwin p.device 3 ((get_win t w).layout.width / 20)
                p.gpu_rings)
          w
  ]

  -- `tabFenceInfoUpdate`
  unfoldable pub tab_fence_info_update : WinType → FencePage → World → ℤ × FencePage × World
  unfolding update_fence_info
  tab_fence_info_update t p w =
      let r = (update_fence_info t p >> call (World.Call.wrefresh (get_win t w).nwin)) w in
      (r.0, p, r.1)

  -- What `tabFenceInfoInit` does for a user who may not read the files.
  unfoldable pub refuse : WinType → FencePage → World → ℤ × FencePage × World
  refuse t p w = (
    pos 0,
    record p { period = 0 },
    ((mvwprintwc_center env (get_win t w).nwin red (lit "Superuser permissions are Required") 34
          >> call (World.Call.wrefresh (get_win t w).nwin))
        w).1,
  )

  -- `tabFenceInfoInit` behind the query.
  unfoldable pub show_rings : WinType → ℤ × FencePage × World → ℤ × FencePage × World
  unfolding tab_fence_info_update
  show_rings t r = if is_zero r.0 then tab_fence_info_update t r.1 r.2 else r

  -- `tabFenceInfoInit`
  unfoldable pub tab_fence_info_init : WinType → FencePage → World → ℤ × FencePage × World
  tab_fence_info_init t p w =
      let w' = record w { log = World.Call.query "geteuid" 0 ∷ w.log } in
      if fs.is_root w.log then show_rings t (get_ring_info p w') else refuse t p w'
