-- ===== src/Tui/Device.antt =====
-- tui/device.c and tui/device.h: the table of graphics cards and the life of its entries.
-- What libpciaccess and the file system answer is a value of `PciDevice` and of `Answers`.
pub mod Table
pub mod Release
use amdtop.Base.{
  ℕ, suc, zero, ◌+◌, ◌-◌, ◌/◌, ◌%◌, ◌^◌, Bool, true, false, ◌||◌, Option, none, some, List, [], ◌∷◌,
  ℤ, pos, is_zero, eacces, eagain, ltb, leb, ◌==◌, if◌then◌else◌,
}

pub data VendorType : Type 0 where
  amd unknow : VendorType

-- The fields of `struct pci_device` that the program reads.
pub record PciDevice : Type 0 where
  pub vendor_id : ℕ
  pub device_id : ℕ
  pub subvendor_id : ℕ
  pub subdevice_id : ℕ
  pub revision : ℕ
  pub device_class : ℕ
  pub domain : ℕ
  pub bus : ℕ
  pub dev : ℕ
  pub func : ℕ

-- `struct Device`; the three names are left out, `gpu_device` is the handle of the opened card.
pub record Device : Type 0 where
  pub id : ℕ
  pub vendor_id : ℕ
  pub device_id : ℕ
  pub sub_vendor_id : ℕ
  pub sub_device_id : ℕ
  pub revision_id : ℕ
  pub pdev : PciDevice
  pub gpu_device : Option ℕ
  pub vendor_type : VendorType
  pub driver_is_loaded : Bool
  pub irq : ℕ
  pub pci_class : ℕ
  pub domain : ℕ
  pub bus : ℕ
  pub dev : ℕ
  pub func : ℕ

-- `GPU_MAX_CARD_SUPPORT`
abbrev pub max_card_support : ℕ
max_card_support = 8

-- `struct DeviceContext`: the slots of `devs`, NULL as `none`. `fault` says that a slot from 8 on was
-- written, which lies behind the array, in the bytes of the count; what happens after that is not modelled.
pub record DeviceContext : Type 0 where
  pub devs : ℕ → Option Device
  pub device_count : ℕ
  pub fault : Bool

abbrev pub set_slot : (ℕ → Option Device) → ℕ → Option Device → ℕ → Option Device
set_slot f i d j = if j == i then d else f j

-- What the system says about one device: the result and value of `DeviceGetIrqNumber`, whether a
-- kernel driver is bound, the result of `DeviceGetDriverName`, and what `gpuGetDeviceByBus` finds.
pub record Answers : Type 0 where
  pub irq_ret : ℤ
  pub irq : ℕ
  pub has_kernel_driver : Bool
  pub driver_name_ret : ℤ
  pub gpu_by_bus : Option ℕ

-- A fresh `struct Device`: calloc, then the three assignments of `AllocDevice`.
abbrev blank_device : ℕ → PciDevice → Device
blank_device n p = record {
  id = n;
  vendor_id = 0;
  device_id = 0;
  sub_vendor_id = 0;
  sub_device_id = 0;
  revision_id = 0;
  pdev = p;
  gpu_device = none;
  vendor_type = amd;
  driver_is_loaded = false;
  irq = 0;
  pci_class = 0;
  domain = 0;
  bus = 0;
  dev = 0;
  func = 0;
}

unfoldable pub update_device_info : Answers → Device → ℤ × Device
update_device_info a d =
    if is_zero a.driver_name_ret
    then (elim a.gpu_by_bus [
      | none ↦ (eacces, record d { gpu_device = none })
      | some g ↦ (pos 0, record d { gpu_device = some g; driver_is_loaded = true })
    ])
    else (a.driver_name_ret, record d { driver_is_loaded = false })

-- The assignments of `InitDevice` behind its test of the vendor; the address is in four `uint8_t`.
abbrev copy_pci : PciDevice → Device → Device
copy_pci p d = record d {
  vendor_type = amd;
  domain = p.domain % 2 ^ 8;
  bus = p.bus % 2 ^ 8;
  dev = p.dev % 2 ^ 8;
  func = p.func % 2 ^ 8;
  vendor_id = p.vendor_id;
  device_id = p.device_id;
  sub_vendor_id = p.subvendor_id;
  sub_device_id = p.subdevice_id;
  revision_id = p.revision;
  pci_class = p.device_class;
  driver_is_loaded = false;
}

unfoldable pub init_device : Answers → Device → ℤ × Device
unfolding update_device_info
init_device a d =
    let amd_device = copy_pci d.pdev d in
    if d.pdev.vendor_id == 0x1002
    then (if is_zero a.irq_ret
        then (let ready = record amd_device { irq = a.irq } in
            if a.has_kernel_driver then update_device_info a ready else (pos 0, ready))
        else (a.irq_ret, amd_device))
    else (pos 0, record d { vendor_type = unknow })

-- `none` is an allocation that failed. There is no test of the table's size.
unfoldable pub alloc_device : Bool → DeviceContext → PciDevice → Option Device × DeviceContext
alloc_device fails ctx p =
    let d = blank_device ctx.device_count p in
    if fails then (none, ctx) else (
      some d,
      record {
        devs = set_slot ctx.devs ctx.device_count (some d);
        device_count = ctx.device_count + 1;
        fault = ctx.fault || leb max_card_support ctx.device_count;
      },
    )

-- `devs[deviceCount--] = NULL`: the slot behind the last device is cleared.
unfoldable pub free_device : DeviceContext → DeviceContext
free_device ctx = record {
  devs = set_slot ctx.devs ctx.device_count none;
  device_count = ctx.device_count - 1;
  fault = ctx.fault || leb max_card_support ctx.device_count;
}

-- The loop of `FreeDeviceContext` from slot `i` on: the ids of the devices it frees, and whether it wrote
-- behind the array.
unfoldable pub free_loop : ℕ → ℕ → DeviceContext → List ℕ × Bool
unfolding free_device
free_loop zero i ctx = ([], ctx.fault)
free_loop (suc fuel) i ctx =
    let freed = free_device ctx in
    let next = free_loop fuel (i + 1) (record freed { devs = set_slot freed.devs i none }) in
    let skip = free_loop fuel (i + 1) ctx in
    if ltb i ctx.device_count
    then (elim (ctx.devs i) as (λ o. List ℕ × Bool) [
      | none ↦ skip
      | some d ↦ (d.id ∷ next.0, next.1)
    ])
    else ([], ctx.fault)

unfoldable pub free_device_context : DeviceContext → List ℕ × Bool
unfolding free_loop
free_device_context ctx = free_loop (ctx.device_count + 1) 0 ctx

-- One round of the loop of `InitDeviceContext`: a display class device is added and initialised.
-- The Boolean says whether the allocation fails.
unfoldable pub add_device : PciDevice → Bool → Answers → DeviceContext → ℤ × DeviceContext
unfolding alloc_device init_device
add_device p fails a ctx =
    let slot = ctx.device_count in
    if p.device_class / 2 ^ 16 == 3
    then (let (made, ctx') = alloc_device fails ctx p in
        elim made [
          | none ↦ (eagain, ctx')
          | some d ↦
              let r = init_device a d in
              (r.0, record ctx' { devs = set_slot ctx'.devs slot (some r.1) })
        ])
    else (pos 0, ctx)

unfoldable pub init_loop : List (PciDevice × Bool × Answers) → DeviceContext → ℤ × DeviceContext
unfolding add_device
init_loop [] ctx = (pos 0, ctx)
init_loop ((p, fails, a) ∷ rest) ctx =
    let r = add_device p fails a ctx in
    let more = init_loop rest r.1 in if is_zero r.0 then more else r

-- `init_ret` is the result of `pci_system_init`, the list what the iterator yields.
unfoldable pub init_device_context :
    ℤ → List (PciDevice × Bool × Answers) → DeviceContext → ℤ × DeviceContext
unfolding init_loop
init_device_context init_ret found ctx =
    let empty = record ctx { device_count = 0 } in
    if is_zero init_ret then init_loop found empty else (init_ret, empty)

unfoldable pub get_device_by_index : DeviceContext → ℕ → Option Device
get_device_by_index ctx i =
    if ctx.device_count == 0 || leb ctx.device_count i then none else ctx.devs i

unfoldable pub device_driver_is_loaded : Option Device → Bool
device_driver_is_loaded none = false
device_driver_is_loaded (some d) = if d.driver_is_loaded then true else false
