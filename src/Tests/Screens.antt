-- ===== src/Tests/Screens.antt =====
-- The theorems on the front end: a terminal of 120 columns and 50 lines on which Page Down is typed,
-- and one graphics card.
use amdtop.Base.{
  ◌+◌, ◌-◌, ◌^◌, ◌==◌, ◌≡◌, ◌≤◌, refl, true, false, none, some, [], pos, arith, length,
  if◌then◌else◌,
}
use amdtop.Tui.Device.{Device, DeviceContext, Answers, VendorType}
use amdtop.Tui.World.{World, Env, default}
use amdtop.Tui.Tabinfo.{get_tab_info_by_index}
use amdtop.Tui.Layout.{geometry, context_size, win_layout}
use amdtop.Tui.Layout.Tiling.{covered, geometry_tiles, geometry_wraps}
use amdtop.Tui.Bar.{Bar, bar_set_value}
use amdtop.Tui.Bar.Value.{fault-bar_set_value}
use amdtop.Tui.Dispatch.{windows_dispatch_input}
use amdtop.Tui.TabWindow.{key_npage}
use amdtop.Tui.Main.{round, all_ops, start}
use amdtop.Tui.Frame.{Frame}
use amdtop.Tui.Frame.Dispatch.{selected, Frame-windows_dispatch_input}
use amdtop.Tui.Invariant.{TableOk, Good}
use amdtop.Tui.Invariant.Exit.{request_exit-round}
use amdtop.Tui.Invariant.Reach.{Inv}

abbrev pub loaded : Answers
loaded = record {
  irq_ret = pos 0;
  irq = 60;
  has_kernel_driver = true;
  driver_name_ret = pos 0;
  gpu_by_bus = some 4;
}

abbrev pub terminal : Env
terminal = record {
  cols = λ l. 120;
  lines = λ l. 50;
  has_colors = λ l. true;
  new_window = λ l. some (1 + length l);
  getmaxx = λ l n. 20;
  getmaxy = λ l n. 4;
  getcurx = λ l n. 6;
  key = λ l. key_npage;
  clock = λ l. length l;
  printw_ret = λ l. pos 0;
  gpu_load_ret = λ l. pos 0;
  gpu_load = λ l. 12;
  has_kernel_driver = λ l i. true;
  answers = λ l i. loaded;
  tab_init = λ i w. some (pos 0, [], false);
  tab_exit = λ i w. some (pos 0, [], false);
  tab_update = λ i w. some (pos 0, [], false);
}

abbrev pub card : Device
card = record {
  id = 0;
  vendor_id = 0x1002;
  device_id = 0x73df;
  sub_vendor_id = 0;
  sub_device_id = 0;
  revision_id = 1;
  pdev = record {
    vendor_id = 0x1002;
    device_id = 0x73df;
    subvendor_id = 0;
    subdevice_id = 0;
    revision = 1;
    device_class = 0x30000;
    domain = 0;
    bus = 3;
    dev = 0;
    func = 0;
  };
  gpu_device = some 4;
  vendor_type = VendorType.amd;
  driver_is_loaded = true;
  irq = 60;
  pci_class = 0x30000;
  domain = 0;
  bus = 3;
  dev = 0;
  func = 0;
}

abbrev pub one_card : DeviceContext
one_card = record {
  devs = λ i. if i == 0 then some card else none;
  device_count = 1;
  fault = false;
}

one_card-TableOk : TableOk one_card
one_card-TableOk = record { few = omega arith; full = λ i l. ground arith }

-- The program with its windows installed.
abbrev pub ready : World
ready = record (start one_card) { setup = true; tab_count = 10 }

Frame-windows_dispatch_input_example :
    Frame false
      (selected key_npage ready)
      (windows_dispatch_input (all_ops terminal) key_npage ready).1
unfolding get_tab_info_by_index
Frame-windows_dispatch_input_example =
    Frame-windows_dispatch_input terminal key_npage ready refl refl

geometry_tiles_example : covered (geometry 120 50) 12 30 ≡ 1
unfolding geometry context_size win_layout
geometry_tiles_example =
    geometry_tiles 120 50 12 30 (omega arith) (omega arith) (omega arith) (omega arith)
      (omega arith) (omega arith)

geometry_wraps_example :
    (2 ^ 32 - 9 ≤ (geometry 80 10).tab.height)
    × ((geometry 80 10).main.height ≡ (geometry 80 10).tab.height)
geometry_wraps_example = geometry_wraps 80 10 (omega arith) (omega arith)

abbrev pub gauge : Bar
gauge = record {
  name = "load";
  unit = "%";
  unit_size = 1;
  y = 2;
  x = 3;
  width = 6;
  nwin = some 1;
  max = 100;
  value = 0;
  percent = 0;
  bar_start = 8;
  label_start = 15;
  last_label_size = 0;
  color_type = default;
}

fault-bar_set_value_example : (bar_set_value terminal gauge 55 ready).2.fault ≡ (gauge.max == 0)
fault-bar_set_value_example = fault-bar_set_value terminal gauge 55 ready (omega arith) refl

ready-Good : Good ready
ready-Good = record {
  tab = ground arith;
  device = (ground arith, λ h. ground arith);
  table = one_card-TableOk;
  safe = refl;
}

pub ready-Inv : Inv ready
ready-Inv = record { good = ready-Good; ready = record { setup = refl; count = refl } }

request_exit-round_example : (round terminal ready).1.request_exit ≡ false
request_exit-round_example = request_exit-round terminal ready ready-Inv refl
