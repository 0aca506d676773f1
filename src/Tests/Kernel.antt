-- ===== src/Tests/Kernel.antt =====
-- The theorems on core/gpumode.c and tui/device.c, with an allocator that answers a new address each
-- time and with one that always fails.
use amdtop.Base.{
  ℕ, ◌+◌, ◌≡◌, ◌≤◌, refl, Bool, true, false, Option, none, some, List, [], ◌∷◌, length, ℤ, pos, ◌/◌,
  arith,
}
use amdtop.Core.Heap.{Events, Heap, alloc, alloc_some, free, copy}
use amdtop.Core.Heap.Ledger.{Owes}
use amdtop.Core.Mode.{
  ModeInfo, Counts, ConnectorInfo, Sys, ModeResource, Connector, PropBlob, Property,
}
use amdtop.Core.Mode.Resources.{
  get_mode_resource, free_mode_resource, build, alloc_temps, alloc_next, duplicate, duplicate_all,
  free_temps,
}
use amdtop.Core.Mode.Resources.Owned.{free_mode_resource-get_mode_resource, get_mode_resource-none}
use amdtop.Core.Mode.Resources.Report.{Reports, get_mode_resource-Reports}
use amdtop.Core.Mode.Resources.Bounds.{fault-get_mode_resource}
use amdtop.Core.Mode.Connectors
use amdtop.Core.Mode.Connectors.{get_connector, free_connector, copy_mode_info}
use amdtop.Core.Mode.Connectors.Owned.{free_connector-get_connector}
use amdtop.Core.Mode.Connectors.Bounds.{fault-get_connector}
use amdtop.Core.Mode.Blobs
use amdtop.Core.Mode.Properties
use amdtop.Core.Mode.Properties.{
  get_property, free_property, bare, alloc_blobs, duplicate_enums, duplicate_any, is_enum, is_blob,
}
use amdtop.Core.Mode.Properties.Owned.{free_property-get_property}
use amdtop.Core.Mode.Blobs.{get_prop_blob, free_prop_blob}
use amdtop.Core.Mode.Blobs.Owned.{free_prop_blob-get_prop_blob}
use amdtop.Tui.Device.{PciDevice, DeviceContext, Answers, init_device_context, free_device_context}
use amdtop.Tui.Device.Table.{Full, displays, init_device_context-Full}
use amdtop.Tui.Device.Release.{length-free_device_context}

abbrev pub vga_mode : ModeInfo
vga_mode = record {
  clock = 25175;
  hdisplay = 640;
  hsync_start = 656;
  hsync_end = 752;
  htotal = 800;
  hskew = 0;
  vdisplay = 480;
  vsync_start = 490;
  vsync_end = 492;
  vtotal = 525;
  vscan = 0;
  vrefresh = 60;
  flags = 10;
  type = 64;
  name = "640x480";
}

abbrev one_card : Counts
one_card = record { fbs = 0; crtcs = 1; encoders = 2; connectors = 1 }

abbrev hdmi : ConnectorInfo
hdmi = record {
  prop_count = 1;
  encoder_count = 1;
  mode_count = 1;
  encoder_id = 5;
  connector_id = 7;
  connector_type = 11;
  connector_type_id = 1;
  mm_width = 300;
  mm_height = 200;
  connection = 1;
  subpixel = 1;
}

abbrev answering : (Events → Option ℕ) → Sys
answering malloc = record {
  malloc = malloc;
  resources = λ l. record {
    ret = pos 0;
    counts = one_card;
    fb_ids = [];
    crtc_ids = 3 ∷ [];
    encoder_ids = 5 ∷ 6 ∷ [];
    connector_ids = 7 ∷ [];
  };
  connector = λ l id. record {
    ret = pos 0;
    info = hdmi;
    encoders = 5 ∷ [];
    modes = vga_mode ∷ [];
    props = 1 ∷ [];
    prop_values = 0 ∷ [];
  };
  encoder = λ l id. (
    pos 0,
    record { id = id; encoder_type = 2; crtc_id = 3; possible_crtcs = 1; possible_clones = 0 },
  );
  crtc = λ l id. (
    pos 0,
    record {
      crtc_id = id;
      fb_id = 0;
      count_connectors = 0;
      set_connectors_ptr = 0;
      x = 0;
      y = 0;
      mode_valid = 1;
      mode = vga_mode;
    },
  );
  blob = λ l id. record { ret = pos 0; id = id; length = 2; content = 9 ∷ 8 ∷ [] };
  property = λ l id. record {
    ret = pos 0;
    info = record {
      prop_id = id;
      flags = 8;
      count_values = 2;
      count_enum_blobs = 2;
      name = "DPMS";
    };
    values = 0 ∷ 3 ∷ [];
    enum_blobs = 5 ∷ 6 ∷ [];
  };
}

abbrev pub working : Sys
working = answering (λ l. some (100 + length l))

abbrev exhausted : Sys
exhausted = answering (λ l. none)

abbrev pub fresh : Heap
fresh = record { log = []; fault = false }

-- The parts of what a query gives back.
abbrev heap_of : {A : Type 0} → ℤ × Option A × Heap → Heap
heap_of (ret, r, h) = h

abbrev given_or : {A : Type 0} → A → ℤ × Option A × Heap → A
given_or d (ret, some r, h) = r
given_or d (ret, none, h) = d

abbrev attempt : Option (ℤ × Option ModeResource × Heap) → ℤ × Option ModeResource × Heap
attempt none = (pos 0, none, fresh)
attempt (some r) = r

abbrev no_resource : ModeResource
no_resource = record {
  self = none;
  counts = one_card;
  arrays = record { fb_ids = none; crtc_ids = none; encoder_ids = none; connector_ids = none };
}

abbrev no_connector : Connector
no_connector = record {
  self = none;
  info = hdmi;
  arrays = record { encoders = none; modes = none; props = none; prop_values = none };
  modes = [];
}

abbrev no_blob : PropBlob
no_blob = record { self = none; id = 0; length = 0; content = none }

free_mode_resource-get_mode_resource_example :
    Owes 100 fresh
      (free_mode_resource
        (given_or no_resource (attempt (get_mode_resource working 1 fresh)))
        (heap_of (attempt (get_mode_resource working 1 fresh)))).1
      0
unfolding get_mode_resource build alloc_temps alloc_next duplicate duplicate_all free_temps alloc
    alloc_some free copy
free_mode_resource-get_mode_resource_example =
    free_mode_resource-get_mode_resource working 100 1 fresh
      (heap_of (attempt (get_mode_resource working 1 fresh)))
      (given_or no_resource (attempt (get_mode_resource working 1 fresh))) refl

get_mode_resource-none_example :
    Owes 100 fresh (heap_of (attempt (get_mode_resource exhausted 1 fresh))) 0
unfolding get_mode_resource build alloc_temps alloc_next duplicate duplicate_all free_temps alloc
    alloc_some free copy
get_mode_resource-none_example =
    get_mode_resource-none exhausted 100 1 fresh
      (heap_of (attempt (get_mode_resource exhausted 1 fresh))) refl

fault-get_mode_resource_example :
    (heap_of (attempt (get_mode_resource working 1 fresh))).fault ≡ false
unfolding get_mode_resource build alloc_temps alloc_next duplicate duplicate_all free_temps alloc
    alloc_some free copy
fault-get_mode_resource_example =
    fault-get_mode_resource working 1 fresh (heap_of (attempt (get_mode_resource working 1 fresh)))
      (pos 0) (some (given_or no_resource (attempt (get_mode_resource working 1 fresh)))) refl

free_connector-get_connector_example :
    Owes 100 fresh
      (free_connector
        (given_or no_connector (get_connector working 7 fresh))
        (heap_of (get_connector working 7 fresh))).1
      0
unfolding get_connector Connectors.build Connectors.alloc_temps alloc_next duplicate
    Connectors.duplicate_all Connectors.free_temps alloc alloc_some free copy
free_connector-get_connector_example =
    free_connector-get_connector working 100 7 fresh (heap_of (get_connector working 7 fresh))
      (given_or no_connector (get_connector working 7 fresh)) refl

free_prop_blob-get_prop_blob_example :
    Owes 100 fresh
      (free_prop_blob
        (given_or no_blob (get_prop_blob working 9 fresh))
        (heap_of (get_prop_blob working 9 fresh))).1
      0
unfolding get_prop_blob Blobs.build alloc_next duplicate alloc alloc_some free copy
free_prop_blob-get_prop_blob_example =
    free_prop_blob-get_prop_blob working 100 9 fresh (heap_of (get_prop_blob working 9 fresh))
      (given_or no_blob (get_prop_blob working 9 fresh)) refl

abbrev no_property : Property
no_property =
    bare none (record { prop_id = 0; flags = 0; count_values = 0; count_enum_blobs = 0; name = "" })

free_property-get_property_example :
    Owes 100 fresh
      (free_property
        (given_or no_property (get_property working 4 fresh))
        (heap_of (get_property working 4 fresh))).1
      0
unfolding get_property Properties.build Properties.alloc_temps alloc_blobs duplicate_enums
    duplicate_any Properties.is_incomplete Properties.free_temps is_enum is_blob alloc_next
    duplicate alloc alloc_some free copy
free_property-get_property_example =
    free_property-get_property working 100 4 fresh (heap_of (get_property working 4 fresh))
      (given_or no_property (get_property working 4 fresh)) (λ l. refl) refl

abbrev card : PciDevice
card = record {
  vendor_id = 0x1002;
  device_id = 0x73df;
  subvendor_id = 0;
  subdevice_id = 0;
  revision = 1;
  device_class = 0x30000;
  domain = 0;
  bus = 3;
  dev = 0;
  func = 0;
}

abbrev loaded : Answers
loaded = record {
  irq_ret = pos 0;
  irq = 60;
  has_kernel_driver = true;
  driver_name_ret = pos 0;
  gpu_by_bus = some 4;
}

abbrev empty_table : DeviceContext
empty_table = record { devs = λ i. none; device_count = 0; fault = false }

abbrev three_cards : List (PciDevice × Bool × Answers)
three_cards = (card, false, loaded) ∷ (card, false, loaded) ∷ (card, false, loaded) ∷ []

abbrev filled_table : DeviceContext
filled_table = (init_device_context (pos 0) three_cards empty_table).1

init_device_context-Full_example :
    Full filled_table
    × (filled_table.device_count ≤ displays three_cards)
    × (filled_table.fault ≡ false)
unfolding displays
init_device_context-Full_example =
    init_device_context-Full (pos 0) three_cards empty_table (omega arith) refl

length-free_device_context_example :
    (length (free_device_context filled_table).0 ≡ (filled_table.device_count + 1) / 2)
    × ((free_device_context filled_table).1 ≡ false)
unfolding displays init_device_context
length-free_device_context_example =
    length-free_device_context filled_table
      (init_device_context-Full (pos 0) three_cards empty_table (omega arith) refl).0 (omega arith)
      refl

get_mode_resource-Reports_example :
    (l : Events) × Reports
      (working.resources l)
      (given_or no_resource (attempt (get_mode_resource working 1 fresh)))
unfolding get_mode_resource build alloc_temps alloc_next duplicate duplicate_all free_temps alloc
    alloc_some free copy
get_mode_resource-Reports_example =
    get_mode_resource-Reports working 1 fresh
      (heap_of (attempt (get_mode_resource working 1 fresh)))
      (given_or no_resource (attempt (get_mode_resource working 1 fresh))) refl

fault-get_connector_example : (get_connector working 7 fresh).2.fault ≡ false
fault-get_connector_example =
    fault-get_connector working 7 fresh
      (λ l l'. record { props = refl; encoders = refl; modes = refl })
