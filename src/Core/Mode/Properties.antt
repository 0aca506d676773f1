-- ===== src/Core/Mode/Properties.antt =====
-- core/gpumode.c: `gpuGetProperty` and `gpuFreeProperty`.
pub mod Owned
use amdtop.Base.{
  ℕ, ◌/◌, ◌%◌, ◌==◌, Bool, true, false, not, ◌&&◌, ◌||◌, is_some, Option, none, some, if◌then◌else◌,
  ℤ, pos, is_zero, enomem,
}
use amdtop.Core.Heap.{Block, Heap, ask, alloc, copy, is_missing, free, write}
use amdtop.Core.Mode.{PropertyInfo, PropertyTemps, PropertyReply, Property, Sys}
use amdtop.Core.Mode.Resources.{alloc_next, duplicate}

-- `flags & (DRM_MODE_PROP_ENUM | DRM_MODE_PROP_BITMASK)` and `flags & DRM_MODE_PROP_BLOB`
unfoldable pub is_enum : PropertyInfo → Bool
is_enum r = not (r.flags / 8 % 2 == 0) || not (r.flags / 32 % 2 == 0)

unfoldable pub is_blob : PropertyInfo → Bool
is_blob r = not (r.flags / 16 % 2 == 0)

abbrev fill : PropertyReply → PropertyTemps → PropertyTemps
fill r t = record { values = write r.values t.values; enum_blobs = write r.enum_blobs t.enum_blobs }

-- `xFree(values_ptr); xFree(enum_blob_ptr);`
unfoldable pub free_temps : PropertyTemps → Heap → Heap
free_temps t h = free t.enum_blobs (free t.values h)

unfoldable pub free_arrays : Property → Heap → Heap
free_arrays p h = free p.blob_ids (free p.enums (free p.values h))

-- A result without its copies.
abbrev pub bare : Option Block → PropertyInfo → Property
bare self r = record {
  self = self;
  prop_id = r.prop_id;
  flags = r.flags;
  name = r.name;
  count_values = r.count_values;
  values = none;
  count_enums = 0;
  enums = none;
  count_blobs = 0;
  blob_ids = none;
}

-- The test of the copies.
unfoldable pub is_incomplete : PropertyInfo → Property → Bool
is_incomplete r p =
    is_missing r.count_values p.values
    || (is_enum r && not (is_some p.enums))
    || (is_blob r && not (is_some p.values))
    || (is_blob r && not (is_some p.blob_ids))

module _ (sys : Sys) where
  -- The arrays for the ids of blobs take the place of those before them.
  unfoldable pub alloc_blobs :
      Bool → PropertyInfo → PropertyTemps → Heap → Bool × PropertyTemps × Heap
  alloc_blobs ok r t h =
      let values = alloc sys.malloc r.count_enum_blobs h in
      let blobs = alloc sys.malloc r.count_enum_blobs values.1 in
      if ok && is_blob r && not (r.count_enum_blobs == 0)
      then (
        is_some values.0 && is_some blobs.0,
        record { values = values.0; enum_blobs = blobs.0 },
        blobs.1,
      )
      else (ok, t, h)

  -- The temporary arrays.
  unfoldable pub alloc_temps : PropertyInfo → Heap → Bool × PropertyTemps × Heap
  unfolding alloc_blobs
  alloc_temps r h =
      let values = alloc_next sys true r.count_values h in
      let enums = alloc_next sys values.0 (if is_enum r then r.count_enum_blobs else 0) values.2 in
      alloc_blobs enums.0 r (record { values = values.1; enum_blobs = enums.1 }) enums.2

  -- `p = xAlloc(n); if (p) memcpy(p, src, n);`
  unfoldable pub duplicate_any : ℕ → Option Block → Heap → Option Block × Heap
  duplicate_any n src h = let (dst, h') = alloc sys.malloc n h in copy n dst src h'

  -- The copies of the enumeration, or of the blobs, which take the place of the values.
  unfoldable pub duplicate_enums : PropertyInfo → PropertyTemps → Property → Heap → Property × Heap
  unfolding duplicate_any
  duplicate_enums r t p h =
      let n = r.count_enum_blobs in
      let enums = duplicate_any n t.enum_blobs h in
      let values = duplicate_any n t.values h in
      let blobs = duplicate_any n t.enum_blobs values.1 in
      if is_enum r
      then (record p { count_enums = n; enums = enums.0 }, enums.1)
      else (if is_blob r
          then (record p { count_blobs = n; values = values.0; blob_ids = blobs.0 }, blobs.1)
          else (p, h))

  -- What follows the second ioctl.
  unfoldable pub build : PropertyInfo → PropertyTemps → Heap → ℤ × Option Property × Heap
  unfolding duplicate_enums is_incomplete free_arrays free_temps
  build r t h =
      let (self, h1) = alloc sys.malloc 1 h in
      let (values, h2) = duplicate sys r.count_values t.values h1 in
      let (p, h3) = duplicate_enums r t (record (bare self r) { values = values }) h2 in
      elim self [
        | none ↦ (pos 0, none, free_temps t h1)
        | some s ↦
            if is_incomplete r p
            then (enomem, none, free (some s) (free_arrays p h3))
            else (pos 0, some p, free_temps t h3)
      ]

  -- `gpuGetProperty`
  unfoldable pub get_property : ℕ → Heap → ℤ × Option Property × Heap
  unfolding alloc_temps build
  get_property id h =
      let first = sys.property h.log id in
      let (ok, temps, h1) = alloc_temps first.info (ask "GETPROPERTY" h) in
      let second = sys.property h1.log id in
      let h2 = ask "GETPROPERTY" h1 in
      if not (is_zero first.ret)
      then (first.ret, none, ask "GETPROPERTY" h)
      else (if not ok
          then (pos 0, none, free_temps temps h1)
          else (if not (is_zero second.ret)
              then (second.ret, none, h2)
              else build second.info (fill second temps) h2))

-- `gpuFreeProperty`
unfoldable pub free_property : Property → Heap → ℤ × Heap
unfolding free_arrays
free_property p h = (pos 0, free p.self (free_arrays p h))
