-- ===== src/Core/Mode/Resources.antt =====
-- core/gpumode.c: `gpuGetModeResouce` and `gpuFreeModeResource`.
pub mod Owned
pub mod Room
pub mod Bounds
pub mod Report
use amdtop.Base.{
  ℕ, zero, suc, Bool, true, false, ◌||◌, ◌&&◌, not, Option, none, some, ◌==◌, if◌then◌else◌, ℤ, pos,
  is_zero, enomem,
}
use amdtop.Core.Heap.{Block, Heap, ask, alloc, alloc_some, is_missing, free, write, copy}
use amdtop.Core.Mode.{Counts, Arrays, ModeResource, CardReply, Sys}

abbrev pub same_counts : Counts → Counts → Bool
same_counts a b =
    a.fbs == b.fbs && a.crtcs == b.crtcs && a.encoders == b.encoders && a.connectors == b.connectors

-- What the second ioctl writes through the four pointers.
abbrev pub fill : CardReply → Arrays → Arrays
fill r a = record {
  fb_ids = write r.fb_ids a.fb_ids;
  crtc_ids = write r.crtc_ids a.crtc_ids;
  encoder_ids = write r.encoder_ids a.encoder_ids;
  connector_ids = write r.connector_ids a.connector_ids;
}

-- Lines 108 to 111.
unfoldable pub free_temps : Arrays → Heap → Heap
free_temps a h = free a.connector_ids (free a.encoder_ids (free a.crtc_ids (free a.fb_ids h)))

-- Lines 100 to 103.
unfoldable pub free_arrays : Arrays → Heap → Heap
free_arrays a h = free a.fb_ids (free a.crtc_ids (free a.encoder_ids (free a.connector_ids h)))

-- Lines 96 to 99.
abbrev pub is_incomplete : Counts → Arrays → Bool
is_incomplete c a =
    is_missing c.fbs a.fb_ids
    || is_missing c.connectors a.connector_ids
    || is_missing c.crtcs a.crtc_ids
    || is_missing c.encoders a.encoder_ids

module _ (sys : Sys) where
  -- One pointer: nothing happens behind an allocation that failed. The Boolean says whether none has.
  unfoldable pub alloc_next : Bool → ℕ → Heap → Bool × Option Block × Heap
  alloc_next false n h = (false, none, h)
  alloc_next true n h = let (b, h') = alloc_some sys.malloc n h in (not (is_missing n b), b, h')

  -- Lines 24 to 43.
  unfoldable pub alloc_temps : Counts → Heap → Bool × Arrays × Heap
  alloc_temps c h =
      let connectors = alloc_next true c.connectors h in
      let encoders = alloc_next connectors.0 c.encoders connectors.2 in
      let crtcs = alloc_next encoders.0 c.crtcs encoders.2 in
      let fbs = alloc_next crtcs.0 c.fbs crtcs.2 in
      (
        fbs.0,
        record {
          fb_ids = fbs.1;
          crtc_ids = crtcs.1;
          encoder_ids = encoders.1;
          connector_ids = connectors.1;
        },
        fbs.2,
      )

  -- One array of the result: `if (n) { p = xAlloc(n); if (p) memcpy(p, src, n); }`
  unfoldable pub duplicate : ℕ → Option Block → Heap → Option Block × Heap
  duplicate n src h = let (b, h') = alloc_some sys.malloc n h in copy n b src h'

  -- Lines 69 to 91.
  unfoldable pub duplicate_all : Counts → Arrays → Heap → Arrays × Heap
  duplicate_all c a h =
      let connectors = duplicate c.connectors a.connector_ids h in
      let encoders = duplicate c.encoders a.encoder_ids connectors.1 in
      let crtcs = duplicate c.crtcs a.crtc_ids encoders.1 in
      let fbs = duplicate c.fbs a.fb_ids crtcs.1 in
      (
        record {
          fb_ids = fbs.0;
          crtc_ids = crtcs.0;
          encoder_ids = encoders.0;
          connector_ids = connectors.0;
        },
        fbs.1,
      )

  -- Lines 60 to 113: the result is what `*modeResource` is set to, if it is set.
  unfoldable pub build : Counts → Arrays → Heap → ℤ × Option ModeResource × Heap
  build c temps h =
      let (self, h1) = alloc sys.malloc 1 h in
      let (arrays, h2) = duplicate_all c temps h1 in
      let res : ModeResource = record { self = self; counts = c; arrays = arrays } in
      elim self [
        | none ↦ (pos 0, none, free_temps temps h1)
        | some s ↦
            if is_incomplete c arrays
            then (enomem, some res, free_arrays arrays h2)
            else (pos 0, some res, free_temps temps h2)
      ]

  -- `gpuGetModeResouce`; `none` is a retry that the fuel does not pay for.
  unfoldable pub get_mode_resource : ℕ → Heap → Option (ℤ × Option ModeResource × Heap)
  get_mode_resource zero h = none
  get_mode_resource (suc fuel) h =
      let first = sys.resources h.log in
      let (ok, temps, h1) = alloc_temps first.counts (ask "GETRESOURCES" h) in
      let second = sys.resources h1.log in
      let filled = fill second temps in
      let h2 = ask "GETRESOURCES" h1 in
      let retry = get_mode_resource fuel (free_temps filled h2) in
      if not (is_zero first.ret)
      then some (first.ret, none, ask "GETRESOURCES" h)
      else (if not ok
          then some (first.ret, none, free_temps temps h1)
          else (if not (is_zero second.ret)
              then some (second.ret, none, h2)
              else (if same_counts first.counts second.counts
                  then some (build second.counts filled h2)
                  else retry)))

-- `gpuFreeModeResource`
unfoldable pub free_mode_resource : ModeResource → Heap → ℤ × Heap
free_mode_resource r h = (pos 0, free r.self (free_arrays r.arrays h))
