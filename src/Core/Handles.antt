-- ===== src/Core/Handles.antt =====
-- core/gpudevice.h and core/gpudevice.c: opening the cards of /dev/dri.
-- The system is a parameter: what open, fstat, readdir and malloc answer, and what the kernel says
-- about the bus of a card, is a function of all events so far. The directory is there.
pub mod Numbered
pub mod Owned
pub mod ByBus
use amdtop.Base.{
  ℕ, zero, suc, ◌+◌, ◌==◌, Bool, true, false, ◌||◌, ◌&&◌, Option, none, some, List, [], ◌∷◌, ℤ, pos,
  negsuc, is_some, is_neg, is_zero, leb, ltb, length, eio, enomem, if◌then◌else◌,
}
use Prim.Native.String.{String}

-- `enum DeviceType`
pub data DeviceType : Type 0 where
  unknow card render control : DeviceType

abbrev pub type_code : DeviceType → ℕ
type_code unknow = 0
type_code card = 1
type_code render = 2
type_code control = 3

-- `struct GpuDevice` without `gpuInfo`, which is never set.
pub record GpuDevice : Type 0 where
  pub fd : ℤ
  pub index : ℕ
  pub major : ℕ
  pub minor : ℕ
  pub type : DeviceType

-- An entry of /dev/dri: its name, whether it begins with a dot, and how long its beginning agrees
-- with `render` and `card`.
pub record DirEntry : Type 0 where
  pub name : String
  pub is_hidden : Bool
  pub starts_render : Bool
  pub starts_card : Bool

-- What fstat returns, and what it says about the file.
pub record Stat : Type 0 where
  pub ret : ℤ
  pub is_chr : Bool
  pub major : ℕ
  pub minor : ℕ

-- The address of a card on the bus, from `struct GpuPciInfo`.
pub record PciAddress : Type 0 where
  pub domain : ℕ
  pub bus : ℕ
  pub dev : ℕ
  pub func : ℕ

-- A descriptor that is opened or closed, and a question to the system.
pub data Event : Type 0 where
  opened : ℤ → Event
  closed : ℤ → Event
  asked : String → Event

abbrev pub Events : Type 0
Events = List Event

-- All events so far, the latest first; `fault` says that an element behind the end of an array has
-- been written.
pub record Files : Type 0 where
  pub log : Events
  pub fault : Bool

abbrev note : Event → Files → Files
note e s = record s { log = e ∷ s.log }

-- The system.
pub record Sys : Type 0 where
  pub open_file : Events → String → ℤ
  pub fstat : Events → ℤ → Stat
  pub entries : Events → List DirEntry
  pub alloc : Events → ℕ → Bool
  pub pci_info : Events → GpuDevice → ℤ × PciAddress

abbrev pub gpu_max_card_support : ℕ
gpu_max_card_support = 8

abbrev pub drm_major : ℕ
drm_major = 226

-- `getDeviceTypebyName`
unfoldable pub get_device_type_by_name : DirEntry → DeviceType
get_device_type_by_name e =
    if e.starts_render then render else (if e.starts_card then card else unknow)

-- `gpuCloseDevice`
unfoldable pub gpu_close_device : GpuDevice → Files → Files
gpu_close_device d s = if is_neg d.fd || is_zero d.fd then s else note (closed d.fd) s

abbrev pub count_in : Option GpuDevice → ℕ → ℕ
count_in none i = i
count_in (some d) i = suc i

abbrev pub collect : Option GpuDevice → List GpuDevice → List GpuDevice
collect none ds = ds
collect (some d) ds = d ∷ ds

abbrev pub same_address : PciAddress → PciAddress → Bool
same_address a b =
    (a.domain == b.domain) && (a.bus == b.bus) && (a.dev == b.dev) && (a.func == b.func)

module _ (sys : Sys) where
  -- `gpuOpenDevice` on a descriptor that has been opened; what it writes is there if it returns 0 or
  -- more.
  unfoldable pub check_device : GpuDevice → ℤ → Files → ℤ × Option GpuDevice × Files
  check_device d fd s =
      let st = sys.fstat s.log fd in
      let s' = note (asked "fstat") s in
      if is_neg st.ret
      then (st.ret, none, s')
      else (if st.is_chr && (st.major == drm_major)
          then (st.ret, some (record d { fd = fd; major = st.major; minor = st.minor }), s')
          else (eio, none, s'))

  -- `gpuOpenDevice`
  unfoldable pub gpu_open_device : GpuDevice → String → Files → ℤ × Option GpuDevice × Files
  unfolding check_device
  gpu_open_device d name s =
      let fd = sys.open_file s.log name in
      if is_neg fd
      then (fd, none, note (asked "open") s)
      else check_device d fd (note (opened fd) s)

  -- A round of the loop of `gpuGetDevices` with `index` devices so far: the result of the last call
  -- of gpuOpenDevice and the device, if there is one. The array has room for eight.
  unfoldable pub try_entry :
      DeviceType → (ret : ℤ) (index : ℕ) → DirEntry → Files → ℤ × Option GpuDevice × Files
  unfolding gpu_open_device get_device_type_by_name
  try_entry t ret index e s =
      if e.is_hidden
      then (ret, none, s)
      else (if type_code t == type_code (get_device_type_by_name e)
          then (let (r, o, s') =
                gpu_open_device
                  (record { fd = pos 0; index = index; major = 0; minor = 0; type = t }) e.name s in
              (
                r,
                o,
                (record s' { fault = s'.fault || (is_some o && leb gpu_max_card_support index) }),
              ))
          else (ret, none, s))

  unfoldable pub scan :
      DeviceType → (ret : ℤ) (index : ℕ) → List DirEntry → Files → ℤ × List GpuDevice × Files
  unfolding try_entry
  scan t ret index [] s = (ret, [], s)
  scan t ret index (e ∷ es) s =
      let (r, o, s') = try_entry t ret index e s in
      let (r', ds, s'') = scan t r (count_in o index) es s' in (r', collect o ds, s'')

  -- `gpuGetDevices` with a place for the devices. A failed allocation loses them.
  unfoldable pub gpu_get_devices : DeviceType → Files → ℤ × List GpuDevice × Files
  unfolding scan
  gpu_get_devices t s =
      let es = sys.entries s.log in
      let (ret, ds, s') = scan t (pos 0) 0 es (note (asked "readdir") s) in
      let s'' = note (asked "malloc") s' in
      if sys.alloc s'.log (length ds) then (ret, ds, s'') else (enomem, [], s'')

  -- `gpuGetDeviceCount`
  unfoldable pub gpu_get_device_count : DeviceType → Files → ℤ × Files
  unfolding scan
  gpu_get_device_count t s =
      let (ret, ds, s') = scan t (pos 0) 0 (sys.entries s.log) (note (asked "readdir") s) in
      (if is_zero ret then pos (length ds) else ret, s')

  -- The loop of `gpuGetDeviceByBus`, with the device found so far.
  unfoldable pub find_loop :
      PciAddress → List GpuDevice → Option GpuDevice → Files → Option GpuDevice × Files
  unfolding gpu_close_device
  find_loop at [] found s = (found, s)
  find_loop at (d ∷ ds) found s =
      let (ret, info) = sys.pci_info s.log d in
      let s' = note (asked "uevent") s in
      let hit = same_address info at in
      let rest =
        find_loop at ds (if hit then some d else found)
          (if hit then s' else gpu_close_device d s') in
      if is_zero ret then rest else (none, s')

  -- `gpuGetDeviceByBus`
  unfoldable pub gpu_get_device_by_bus : DeviceType → PciAddress → Files → Option GpuDevice × Files
  unfolding gpu_get_devices find_loop
  gpu_get_device_by_bus t at s =
      let (ret, ds, s') = gpu_get_devices t s in
      let rest = find_loop at ds none s' in if is_zero ret then rest else (none, s')
