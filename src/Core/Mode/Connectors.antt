-- ===== src/Core/Mode/Connectors.antt =====
-- core/gpumode.c: `gpuGetConnector` and `gpuFreeConnector`.
-- A connector's counts are those of the second ioctl; they are not compared with the first one's.
pub mod Owned
pub mod Bounds
use amdtop.Base.{
  ℕ, Bool, true, false, ◌||◌, not, Option, none, some, if◌then◌else◌, ℤ, pos, is_zero, enomem, List,
  [], map,
}
use amdtop.Core.Heap.{Block, Heap, ask, alloc, is_missing, free, write}
use amdtop.Core.Mode.{ModeInfo, ConnectorInfo, ConnectorArrays, Connector, ConnectorReply, Sys}
use amdtop.Core.Mode.Resources.{alloc_next, duplicate}

-- `copyModeInfo` between two structs that are there.
unfoldable pub copy_mode_info : ModeInfo → ModeInfo
copy_mode_info m = record {
  clock = m.clock;
  hdisplay = m.hdisplay;
  hsync_start = m.hsync_start;
  hsync_end = m.hsync_end;
  htotal = m.htotal;
  hskew = m.hskew;
  vdisplay = m.vdisplay;
  vsync_start = m.vsync_start;
  vsync_end = m.vsync_end;
  vtotal = m.vtotal;
  vscan = m.vscan;
  vrefresh = m.vrefresh;
  flags = m.flags;
  type = m.type;
  name = m.name;
}

abbrev pub fill : ConnectorReply → ConnectorArrays → ConnectorArrays
fill r a = record {
  encoders = write r.encoders a.encoders;
  modes = a.modes;
  props = write r.props a.props;
  prop_values = write r.prop_values a.prop_values;
}

-- Lines 246 to 249.
unfoldable pub free_temps : ConnectorArrays → Heap → Heap
free_temps a h = free a.props (free a.prop_values (free a.modes (free a.encoders h)))

-- Lines 222 to 225.
unfoldable pub free_arrays : ConnectorArrays → Heap → Heap
free_arrays a h = free a.prop_values (free a.props (free a.encoders (free a.modes h)))

-- Lines 218 to 221.
abbrev pub is_incomplete : ConnectorInfo → ConnectorArrays → Bool
is_incomplete c a =
    is_missing c.encoder_count a.encoders
    || is_missing c.mode_count a.modes
    || is_missing c.prop_count a.prop_values
    || is_missing c.prop_count a.props

-- What the loop over `copyModeInfo` leaves behind `modeInfos`.
abbrev pub copy_modes : Option Block → List ModeInfo → List ModeInfo
copy_modes none ms = []
copy_modes (some b) ms = map copy_mode_info ms

module _ (sys : Sys) where
  -- Lines 164 to 183.
  unfoldable pub alloc_temps : ConnectorInfo → Heap → Bool × ConnectorArrays × Heap
  unfolding alloc_next
  alloc_temps c h =
      let encoders = alloc_next sys true c.encoder_count h in
      let modes = alloc_next sys encoders.0 c.mode_count encoders.2 in
      let props = alloc_next sys modes.0 c.prop_count modes.2 in
      let prop_values = alloc_next sys props.0 c.prop_count props.2 in
      (
        prop_values.0,
        record {
          encoders = encoders.1;
          modes = modes.1;
          props = props.1;
          prop_values = prop_values.1;
        },
        prop_values.2,
      )

  -- Lines 194 to 216.
  unfoldable pub duplicate_all : ConnectorInfo → ConnectorArrays → Heap → ConnectorArrays × Heap
  unfolding duplicate
  duplicate_all c a h =
      let encoders = duplicate sys c.encoder_count a.encoders h in
      let props = duplicate sys c.prop_count a.props encoders.1 in
      let prop_values = duplicate sys c.prop_count a.prop_values props.1 in
      let modes = duplicate sys c.mode_count a.modes prop_values.1 in
      (
        record {
          encoders = encoders.0;
          modes = modes.0;
          props = props.0;
          prop_values = prop_values.0;
        },
        modes.1,
      )

  -- Lines 189 to 251.
  unfoldable pub build : ConnectorReply → ConnectorArrays → Heap → ℤ × Option Connector × Heap
  unfolding duplicate_all free_temps free_arrays
  build r temps h =
      let (self, h1) = alloc sys.malloc 1 h in
      let (arrays, h2) = duplicate_all r.info temps h1 in
      let conn : Connector = record {
        self = self;
        info = r.info;
        arrays = arrays;
        modes = copy_modes temps.modes r.modes;
      } in
      elim self [
        | none ↦ (pos 0, none, free_temps temps h1)
        | some s ↦
            if is_incomplete r.info arrays
            then (enomem, none, free (some s) (free_arrays arrays h2))
            else (pos 0, some conn, free_temps temps h2)
      ]

  -- `gpuGetConnector`
  unfoldable pub get_connector : ℕ → Heap → ℤ × Option Connector × Heap
  unfolding alloc_temps build free_temps
  get_connector id h =
      let first = sys.connector h.log id in
      let (ok, temps, h1) = alloc_temps first.info (ask "GETCONNECTOR" h) in
      let second = sys.connector h1.log id in
      let h2 = ask "GETCONNECTOR" h1 in
      if not (is_zero first.ret)
      then (first.ret, none, ask "GETCONNECTOR" h)
      else (if not ok
          then (first.ret, none, free_temps temps h1)
          else (if not (is_zero second.ret)
              then (second.ret, none, h2)
              else build second (fill second temps) h2))

-- `gpuFreeConnector`
unfoldable pub free_connector : Connector → Heap → ℤ × Heap
unfolding free_arrays
free_connector c h = (pos 0, free c.self (free_arrays c.arrays h))
