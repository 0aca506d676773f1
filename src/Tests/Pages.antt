-- ===== src/Tests/Pages.antt =====
-- The theorems on the selection, on leaving the program and on the pages.
use amdtop.Base.{
  ◌||◌, ◌≡◌, ◌≤◌, ◌*◌, ◌-◌, ◌/◌, ltb, if◌then◌else◌, ◌&&◌, refl, true, false, some, [], ◌∷◌, ℤ, pos,
  negsuc, zero, arith, is_zero,
}
use amdtop.Tui.World
use amdtop.Tui.World.{World, Env, History, get_active_device}
use amdtop.Tui.Main.{round, event_loop}
use amdtop.Tui.Invariant.Reach.{Inv}
use amdtop.Tui.Invariant.Quit.{SaysYes, event_loop-quits}
use amdtop.Tui.TabWindow.{key_npage}
use amdtop.Tui.Selection.{act_all, actions, view, press}
use amdtop.Tui.Selection.Refines.{press_refines}
use amdtop.Tui.Rings.{HwIpInfo, IpQueries, ipinfos, calc_ring_count, get_ring_info}
use amdtop.Tui.Rings.Count.{digit_sum, calc_ring_count-digit_sum}
use amdtop.Tui.Rings.Page.{tab_ring_info_init}
use amdtop.Tui.Rings.Room.{no_handle, overflows, Sized, fault-tab_ring_info_init}
use amdtop.Tui.Display.{DisplayInfo, DisplayState}
use amdtop.Tui.State.{StatePage, Label, Answers, active_handle}
use amdtop.Tui.State.Cpu.{CpuStat, cpu_percent}
use amdtop.Tui.State.Cpu.Percent.{idle_time, cpu_percent-idle}
use amdtop.Tui.State.Handlers.{tab_state_info_init}
use amdtop.Tui.State.Drawable.{Sane}
use amdtop.Tui.State.Start.{Calm, refresh_crashes, fault-state_page}
use amdtop.Tests.Screens.{terminal, ready, ready-Inv, gauge}

press_refines_example :
    (view (press terminal (key_npage ∷ pos 0x10c ∷ key_npage ∷ []) ready)
      ≡ act_all (actions (key_npage ∷ pos 0x10c ∷ key_npage ∷ [])) (view ready))
    × Inv (press terminal (key_npage ∷ pos 0x10c ∷ key_npage ∷ []) ready)
press_refines_example =
    press_refines terminal (key_npage ∷ pos 0x10c ∷ key_npage ∷ []) ready ready-Inv

-- A user who types `q` and then, when asked, `y`.
abbrev leaving : History → ℤ
leaving [] = pos b'q'
leaving (World.Call.timeout (negsuc zero) ∷ h) = pos b'y'
leaving (c ∷ h) = pos b'q'

abbrev departing : Env
departing = record terminal { key = leaving }

departing-SaysYes : SaysYes departing
unfolding SaysYes
departing-SaysYes h = refl

event_loop-quits_example :
    ((round departing ready).1.request_exit ≡ true)
    × ((event_loop departing 2 ready).0 ≡ some (pos 0))
event_loop-quits_example = event_loop-quits departing 0 ready departing-SaysYes refl refl

calc_ring_count-digit_sum_example :
    (calc_ring_count 0xff ≡ digit_sum 32 0xff) × (calc_ring_count 0xff ≤ 32)
calc_ring_count-digit_sum_example = calc_ring_count-digit_sum 0xff

abbrev one_ring : HwIpInfo
one_ring = record {
  inst = 0;
  version_major = 10;
  version_minor = 3;
  capabilities = 0;
  ib_start_alignment = 32;
  ib_size_alignment = 32;
  available_rings = 1;
}

-- A card with five instances of each kind of ring.
abbrev five : IpQueries
five = record { hw_ip_count = λ h t. (pos 0, 5); hw_ip_info = λ h t i. (pos 0, one_ring) }

ipinfos-Sized : Sized ipinfos
unfolding Sized
ipinfos-Sized = (refl, (refl, (refl, (refl, (refl, (refl, (refl, (refl, (refl, refl)))))))))

fault-tab_ring_info_init_example :
    (tab_ring_info_init terminal five World.main ipinfos ready).2.fault ≡ (
      no_handle ready
      || (is_zero (get_ring_info five ipinfos ready).0
          && overflows (tab_ring_info_init terminal five World.main ipinfos ready).1))
fault-tab_ring_info_init_example =
    fault-tab_ring_info_init terminal five World.main ipinfos ready ipinfos-Sized refl

abbrev earlier : CpuStat
earlier = record {
  user = 10;
  nice = 0;
  system = 10;
  idle = 80;
  iowait = 0;
  irq = 0;
  soft_irq = 0;
  total = 100;
}

-- All of the time since then went to one user.
abbrev busy : CpuStat
busy = record earlier { user = 110; total = 200 }

cpu_percent-idle_example :
    cpu_percent busy earlier
    ≡ some (
        if ltb ((idle_time busy - idle_time earlier) * 1000) (busy.total - earlier.total)
        then 0
        else 1000 - (idle_time busy - idle_time earlier) * 1000 / (busy.total - earlier.total))
cpu_percent-idle_example =
    cpu_percent-idle busy earlier (omega arith) (omega arith) (omega arith) (omega arith)
      (omega arith) (omega arith)

-- A card of 8 GiB.
abbrev calm : Answers
calm = record {
  sensor = λ h t. (pos 0, 40);
  mem_info = λ h t. (pos 0, (record { total = 8589934592; used = 1048576 }));
  device_info = λ h. (pos 0, (record { max_engine_clock = 2000000; max_memory_clock = 1000000 }));
  total_mem = λ h. 16000000;
  free_mem = λ h. 8000000;
  proc_stat = λ h. some earlier;
  proc_stat_after = λ h. some busy;
  clients = λ h. (pos 0, []);
  has_passwd = λ h u. true;
  is_root = λ h. true;
  getcury = λ h n. 7;
}

calm-Sane : Sane calm
calm-Sane = record {
  engine = λ h. (omega arith, omega arith);
  memory_clock = λ h. (omega arith, omega arith);
  sized = λ h t. (omega arith, omega arith);
  main_memory = λ h. (omega arith, omega arith);
  named = λ h u. refl;
  few = λ h. omega arith;
}

abbrev corner : Label
corner = record { y = 0; x = 0 }

-- The statics of the page as the program starts.
abbrev fresh : StatePage
fresh = record {
  bars = λ t. record gauge { max = 0 };
  temp_label = corner;
  power_label = corner;
  psclk_label = corner;
  pmclk_label = corner;
  cpu = record { last_stat = earlier; stat = earlier; last_percent = 0; first = true };
  ui_clients_starty = 0;
  ui_clients_count = 0;
  has_root_permission = false;
  need_refresh = true;
}

ready-Calm : Calm (ready ∷ ready ∷ ready ∷ [])
unfolding Calm active_handle get_active_device
ready-Calm = ((refl, refl), ((refl, refl), ((refl, refl), refl)))

fault-state_page_example :
    ((tab_state_info_init terminal calm World.main fresh ready).2.fault ≡ false)
    × (refresh_crashes terminal calm World.main
          (ready ∷ ready ∷ [])
          (tab_state_info_init terminal calm World.main fresh ready).1
        ≡ false)
fault-state_page_example =
    fault-state_page terminal calm World.main fresh ready (ready ∷ ready ∷ []) calm-Sane ready-Calm

abbrev pub monitor : DisplayInfo
monitor = record {
  present = true;
  connector_id = 77;
  connector_type = 11;
  connector_type_id = 1;
  mm_width = 600;
  mm_height = 340;
  mode_count = 12;
  dpms_value = 0;
  crtc_id = 50;
  encoder_type = 2;
  startx = 0;
  starty = 0;
  width = 1920;
  height = 1080;
  vrefresh = 60;
  connector_name = "HDMIA";
  encoder_name = "TMDS";
  dpms_state = 0;
  edid = [];
  edid_len = 0;
  monitor_name = [];
  serial_numer = [];
  manufacturer = [];
  year = 0;
  week = 0;
}

abbrev pub one_monitor : DisplayState
one_monitor = record {
  valid = true;
  alive_connector_count = 1;
  displayinfo = monitor ∷ [];
  connector_count = 3;
  encoder_count = 4;
  crtc_count = 2;
  fb_count = 1;
}
