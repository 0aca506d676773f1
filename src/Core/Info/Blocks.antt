-- ===== src/Core/Info/Blocks.antt =====
-- core/gpuinfo.c: the two queries that hand out memory, gpuQueryDriverInfo and gpuQueryVBiosInfo.
-- The allocator, the kernel and the file vbios_version are a parameter, functions of all events so far.
pub mod Owned
pub mod Ends
pub mod Image
use amdtop.Base.{
  ℕ, zero, suc, ◌+◌, ◌-◌, ◌==◌, Bool, true, false, ◌||◌, not, Option, none, some, List, [], ◌∷◌, ℤ,
  pos, is_zero, ltb, length, eio, enomem, if◌then◌else◌,
}
use amdtop.Base.Text.{take}
use amdtop.Core.Heap.{Block, Events, Heap, ask, alloc, free, write}

-- An answer to DRM_IOCTL_VERSION: the lengths, the numbers, and what is written through the three pointers.
pub record VersionReply : Type 0 where
  pub ret : ℤ
  pub version_major : ℕ
  pub version_minor : ℕ
  pub name_len : ℕ
  pub date_len : ℕ
  pub desc_len : ℕ
  pub name : List ℕ
  pub date : List ℕ
  pub desc : List ℕ

-- The bytes of the file vbios_version, `none` where it cannot be opened.
pub record Sys : Type 0 where
  pub malloc : Events → Option ℕ
  pub version : Events → VersionReply
  pub vbios_size : Events → ℤ × ℕ
  pub vbios_image : Events → ℤ × List ℕ
  pub vbios_version : Events → Option (List ℕ)

-- `struct GpuDriverInfo`
pub record GpuDriverInfo : Type 0 where
  pub version_major : ℕ
  pub version_minor : ℕ
  pub driver_name : Option Block
  pub date : Option Block
  pub desc : Option Block

-- `struct GpuVBiosInfo`
pub record GpuVBiosInfo : Type 0 where
  pub vbios_version : List ℕ
  pub image : Option Block
  pub imagelen : ℕ

-- The bytes before the first zero.
abbrev pub text_of : List ℕ → List ℕ
text_of [] = []
text_of (c ∷ s) = if c == 0 then [] else c ∷ text_of s

-- A zero in a block of the allocator, which clears it: one that was written, or one that was left.
abbrev pub has_end : Block → Bool
has_end b = ltb (length (text_of b.words)) b.size

-- `gpuQueryVbiosVersion`: at most 99 bytes are read, and a zero replaces the last of them.
unfoldable pub gpu_query_vbios_version : Option (List ℕ) → List ℕ → ℤ × List ℕ
gpu_query_vbios_version none old = (eio, old)
gpu_query_vbios_version (some []) old = (eio, old)
gpu_query_vbios_version (some (c ∷ s)) old =
    let read = take 99 (c ∷ s) in (pos 0, text_of (take (length read - 1) read))

module _ (sys : Sys) where
  -- `strdup`: it reads NULL, or behind the end of a block without a zero.
  unfoldable pub strdup : Option Block → Heap → Option Block × Heap
  strdup none h = (none, record h { fault = true })
  strdup (some b) h =
      let (copy, h') = alloc sys.malloc (length (text_of b.words) + 1) h in
      (write (text_of b.words) copy, record h' { fault = h'.fault || not (has_end b) })

  -- What follows the second ioctl.
  unfoldable pub copy_version :
      VersionReply → (name date desc : Option Block) → Heap → GpuDriverInfo × Heap
  unfolding strdup
  copy_version v name date desc h =
      let (driver_name, h1) = strdup name h in
      let (desc', h2) = strdup desc h1 in
      let (date', h3) = strdup date h2 in
      (
        record {
          version_major = v.version_major;
          version_minor = v.version_minor;
          driver_name = driver_name;
          date = date';
          desc = desc';
        },
        free desc (free date (free name h3)),
      )

  -- `gpuQueryDriverInfo`; the result is what is set, if it is.
  unfoldable pub gpu_query_driver_info : Heap → ℤ × Option GpuDriverInfo × Heap
  unfolding copy_version
  gpu_query_driver_info h =
      let first = sys.version h.log in
      let h0 = ask "VERSION" h in
      let (name, h1) = alloc sys.malloc first.name_len h0 in
      let (date, h2) = alloc sys.malloc first.date_len h1 in
      let (desc, h3) = alloc sys.malloc first.desc_len h2 in
      let second = sys.version h3.log in
      let h4 = ask "VERSION" h3 in
      let (info, h5) =
        copy_version second (write second.name name) (write second.date date)
          (write second.desc desc) h4 in
      if not (is_zero first.ret)
      then (first.ret, none, h0)
      else (if not (is_zero second.ret)
          then (second.ret, none, h4)
          else (second.ret, some info, h5))

  -- What follows the ioctl that reads the image.
  unfoldable pub keep_image : Option Block → GpuVBiosInfo → Heap → ℤ × GpuVBiosInfo × Heap
  unfolding gpu_query_vbios_version
  keep_image image info h =
      let (ret, bytes) = sys.vbios_image h.log in
      let h1 = ask "VBIOS_IMAGE" h in
      let (ret', version) = gpu_query_vbios_version (sys.vbios_version h1.log) info.vbios_version in
      let read = record info { image = write bytes image } in
      if not (is_zero ret)
      then (ret, record info { image = image }, free image h1)
      else (ret', record read { vbios_version = version }, h1)

  -- `gpuQueryVBiosInfo`
  unfoldable pub gpu_query_vbios_info : GpuVBiosInfo → Heap → ℤ × GpuVBiosInfo × Heap
  unfolding keep_image
  gpu_query_vbios_info info h =
      let (ret, len) = sys.vbios_size h.log in
      let h0 = ask "VBIOS_SIZE" h in
      let (image, h1) = alloc sys.malloc len h0 in
      let sized = record info { imagelen = len } in
      if not (is_zero ret) then (ret, info, h0) else (elim image as (λ o. ℤ × GpuVBiosInfo × Heap) [
        | none ↦ (enomem, record sized { image = none }, h1)
        | some b ↦ keep_image (some b) sized h1
      ])
