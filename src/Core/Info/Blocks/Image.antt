-- ===== src/Core/Info/Blocks/Image.antt =====
-- gpuQueryVBiosInfo of core/gpuinfo.c: who frees the image.
use amdtop.Base.{
  ℕ, ◌≡◌, Bool, true, false, not, ◌&&◌, Option, none, some, ℤ, is_zero, arith, enomem,
  if◌then◌else◌,
}
use amdtop.Core.Heap.{Block, Heap, ask, alloc, free, write}
use amdtop.Core.Heap.Ledger.{held, Owes, Owes-alloc, Owes-ask, Owes-free, held-write}
use amdtop.Core.Info.Blocks.{
  Sys, GpuVBiosInfo, keep_image, gpu_query_vbios_version, gpu_query_vbios_info,
}

module _ (sys : Sys) (q : ℕ) where
  -- The heap at the second ioctl.
  unfoldable pub after_size : Heap → Heap
  after_size h = (alloc sys.malloc (sys.vbios_size h.log).1 (ask "VBIOS_SIZE" h)).1

  Owes-kept :
      (b : Bool) (h h1 : Heap) (image : Option Block) (ret ret' : ℤ) (failed made : GpuVBiosInfo)
      → Owes q h h1 (held q image)
      → held q made.image ≡ held q image
      → let out : ℤ × GpuVBiosInfo × Heap =
          if not b then (ret, failed, free image h1) else (ret', made, h1) in
        Owes q h out.2 (if b then held q (out.1).image else 0)
  unfolding Owes
  Owes-kept true h h1 image ret ret' failed made e f = omega arith
  Owes-kept false h h1 image ret ret' failed made e f = Owes-free q h h1 image 0 (omega arith)

  Owes-keep_image :
      (h h1 : Heap) (image : Option Block) (info : GpuVBiosInfo)
      → Owes q h h1 (held q image)
      → let out = keep_image sys image info h1 in
        Owes q h out.2 (if is_zero (sys.vbios_image h1.log).0 then held q (out.1).image else 0)
  unfolding keep_image Owes
  Owes-keep_image h h1 image info e =
      let (ret, bytes) = sys.vbios_image h1.log in
      let h2 = ask "VBIOS_IMAGE" h1 in
      let (ret', version) = gpu_query_vbios_version (sys.vbios_version h2.log) info.vbios_version in
      let read : GpuVBiosInfo = record info { image = write bytes image } in
      let e2 = Owes-ask q "VBIOS_IMAGE" h1 in
      Owes-kept (is_zero ret) h h2 image ret ret' (record info { image = image })
        (record read { vbios_version = version }) (omega arith) (held-write q bytes image)

  taken_image :
      (h : Heap)
      → let m = alloc sys.malloc (sys.vbios_size h.log).1 (ask "VBIOS_SIZE" h) in
        Owes q h m.1 (held q m.0)
  unfolding Owes
  taken_image h =
      let e0 = Owes-ask q "VBIOS_SIZE" h in
      let e1 = Owes-alloc sys.malloc q (sys.vbios_size h.log).1 (ask "VBIOS_SIZE" h) in omega arith

  Owes-sized :
      (b : Bool) (h h0 h1 : Heap) (image : Option Block) (ret : ℤ) (info sized : GpuVBiosInfo)
      → Owes q h h0 0
      → Owes q h h1 (held q image)
      → let out : ℤ × GpuVBiosInfo × Heap =
          if not b then (ret, info, h0) else (elim image as (λ o. ℤ × GpuVBiosInfo × Heap) [
            | none ↦ (enomem, record sized { image = none }, h1)
            | some k ↦ keep_image sys (some k) sized h1
          ]) in
        Owes q h out.2 (if b && is_zero (sys.vbios_image h1.log).0 then held q (out.1).image else 0)
  unfolding held
  Owes-sized false h h0 h1 image ret info sized e f = e
  Owes-sized true h h0 h1 none ret info sized e f = none_held (is_zero (sys.vbios_image h1.log).0)
    where
      none_held : (c : Bool) → Owes q h h1 (if c then held q none else 0)
      none_held true = f
      none_held false = f
  Owes-sized true h h0 h1 (some k) ret info sized e f = Owes-keep_image h h1 (some k) sized f

  -- After `gpuQueryVBiosInfo` the image that it set is allocated once more than before the call when
  -- both ioctls succeed, also where the version cannot be read and an error is returned, and nothing
  -- is allocated when one of them fails.
  pub Owes-gpu_query_vbios_info :
      (h : Heap) (info : GpuVBiosInfo)
      → let out = gpu_query_vbios_info sys info h in
        Owes q h out.2 (
          if is_zero (sys.vbios_size h.log).0 && is_zero (sys.vbios_image (after_size h).log).0
          then held q (out.1).image
          else 0)
  unfolding gpu_query_vbios_info after_size
  Owes-gpu_query_vbios_info h info =
      let (ret, len) = sys.vbios_size h.log in
      let h0 = ask "VBIOS_SIZE" h in
      let (image, h1) = alloc sys.malloc len h0 in
      Owes-sized (is_zero ret) h h0 h1 image ret info (record info { imagelen = len })
        (Owes-ask q "VBIOS_SIZE" h) (taken_image h)
