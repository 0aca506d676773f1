-- ===== src/Core/Mode/Blobs.antt =====
-- core/gpumode.c: `gpuGetPropBlob` and `gpuFreePropBlob`, and the two queries that allocate nothing.
pub mod Owned
use amdtop.Base.{
  ℕ, Bool, true, false, not, Option, none, some, if◌then◌else◌, ℤ, pos, is_zero, enomem,
}
use amdtop.Core.Heap.{Block, Heap, ask, alloc, is_missing, free, write}
use amdtop.Core.Mode.{ModeInfo, PropBlob, BlobReply, Encoder, Crtc, DrmCrtc, Sys}
use amdtop.Core.Mode.Resources.{alloc_next, duplicate}
use amdtop.Core.Mode.Connectors.{copy_mode_info}

module _ (sys : Sys) where
  -- Lines 385 to 408.
  unfoldable pub build : BlobReply → Option Block → Heap → ℤ × Option PropBlob × Heap
  build r temp h =
      let (self, h1) = alloc sys.malloc 1 h in
      let (content, h2) = duplicate sys r.length temp h1 in
      let made : PropBlob = record {
        self = self;
        id = r.id;
        length = r.length;
        content = content;
      } in
      elim self [
        | none ↦ (pos 0, none, free temp h1)
        | some s ↦
            if is_missing r.length content
            then (enomem, none, free (some s) (free content h2))
            else (pos 0, some made, free temp h2)
      ]

  -- `gpuGetPropBlob`
  unfoldable pub get_prop_blob : ℕ → Heap → ℤ × Option PropBlob × Heap
  unfolding build
  get_prop_blob id h =
      let first = sys.blob h.log id in
      let (ok, temp, h1) = alloc_next sys true first.length (ask "GETPROPBLOB" h) in
      let second = sys.blob h1.log id in
      let h2 = ask "GETPROPBLOB" h1 in
      if not (is_zero first.ret)
      then (first.ret, none, ask "GETPROPBLOB" h)
      else (if not ok
          then (first.ret, none, free temp h1)
          else (if not (is_zero second.ret)
              then (second.ret, none, h2)
              else build second (write second.content temp) h2))

  -- `gpuGetEncoder`; an error leaves the struct of the caller alone.
  unfoldable pub get_encoder : ℕ → Encoder → Heap → ℤ × Encoder × Heap
  get_encoder id encoder h =
      let (ret, found) = sys.encoder h.log id in
      if is_zero ret
      then (
        ret,
        record encoder {
          id = found.id;
          encoder_type = found.encoder_type;
          crtc_id = found.crtc_id;
          possible_crtcs = found.possible_crtcs;
          possible_clones = found.possible_clones;
        },
        ask "GETENCODER" h,
      )
      else (ret, encoder, ask "GETENCODER" h)

  -- `gpuGetCrtc`; `gamma_size` is assigned to itself.
  unfoldable pub get_crtc : ℕ → Crtc → Heap → ℤ × Crtc × Heap
  unfolding copy_mode_info
  get_crtc id crtc h =
      let (ret, found) = sys.crtc h.log id in
      if is_zero ret
      then (
        pos 0,
        record crtc {
          id = found.crtc_id;
          fb_id = found.fb_id;
          count_connectors = found.count_connectors;
          set_connectors_ptr = found.set_connectors_ptr;
          x = found.x;
          y = found.y;
          mode_info = copy_mode_info found.mode;
          width = found.mode.hdisplay;
          height = found.mode.vdisplay;
          gamma_size = crtc.gamma_size;
          mode_valid = found.mode_valid;
        },
        ask "GETCRTC" h,
      )
      else (ret, crtc, ask "GETCRTC" h)

-- `gpuFreePropBlob`
unfoldable pub free_prop_blob : PropBlob → Heap → ℤ × Heap
free_prop_blob b h = (pos 0, free b.self (free b.content h))
