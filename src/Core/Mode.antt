-- ===== src/Core/Mode.antt =====
-- core/gpumode.h and core/gpumode.c: what the kernel says about the display hardware, copied into
-- blocks that the caller frees.
-- The kernel is a parameter: its answer to an ioctl, the arrays that it writes through the pointers
-- included, is a function of all events so far. A pointer is the block behind it or NULL.
pub mod Names
pub mod Settled
pub mod Resources
pub mod Connectors
pub mod Blobs
pub mod Properties
use amdtop.Base.{
  ℕ, ◌+◌, Bool, true, false, ◌||◌, Option, none, some, List, [], ◌∷◌, ◌==◌, if◌then◌else◌, ℤ,
  is_zero, not, ◌&&◌,
}
use Prim.Native.String.{String}
use amdtop.Core.Heap.{Block, Events, Heap}

-- `struct GpuModeInfo`, and the fields of `struct drm_mode_modeinfo`, which are the same.
pub record ModeInfo : Type 0 where
  pub clock : ℕ
  pub hdisplay : ℕ
  pub hsync_start : ℕ
  pub hsync_end : ℕ
  pub htotal : ℕ
  pub hskew : ℕ
  pub vdisplay : ℕ
  pub vsync_start : ℕ
  pub vsync_end : ℕ
  pub vtotal : ℕ
  pub vscan : ℕ
  pub vrefresh : ℕ
  pub flags : ℕ
  pub type : ℕ
  pub name : String

-- The four counts of `struct drm_mode_card_res`.
pub record Counts : Type 0 where
  pub fbs : ℕ
  pub crtcs : ℕ
  pub encoders : ℕ
  pub connectors : ℕ

-- The four pointers of `struct drm_mode_card_res` or of `struct GpuModeResource`.
pub record Arrays : Type 0 where
  pub fb_ids : Option Block
  pub crtc_ids : Option Block
  pub encoder_ids : Option Block
  pub connector_ids : Option Block

-- `struct GpuModeResource`, `self` its own block.
pub record ModeResource : Type 0 where
  pub self : Option Block
  pub counts : Counts
  pub arrays : Arrays

-- An answer to DRM_IOCTL_MODE_GETRESOURCES: the result, the counts and the ids that it writes.
pub record CardReply : Type 0 where
  pub ret : ℤ
  pub counts : Counts
  pub fb_ids : List ℕ
  pub crtc_ids : List ℕ
  pub encoder_ids : List ℕ
  pub connector_ids : List ℕ

-- `struct GpuConnector` up to its pointers, and the same fields of `struct drm_mode_get_connector`.
pub record ConnectorInfo : Type 0 where
  pub prop_count : ℕ
  pub encoder_count : ℕ
  pub mode_count : ℕ
  pub encoder_id : ℕ
  pub connector_id : ℕ
  pub connector_type : ℕ
  pub connector_type_id : ℕ
  pub mm_width : ℕ
  pub mm_height : ℕ
  pub connection : ℕ
  pub subpixel : ℕ

-- The pointers of `struct drm_mode_get_connector` or of `struct GpuConnector`.
pub record ConnectorArrays : Type 0 where
  pub encoders : Option Block
  pub modes : Option Block
  pub props : Option Block
  pub prop_values : Option Block

-- `struct GpuConnector`, `self` its own block; `modes` stands for the array behind `modeInfos`.
pub record Connector : Type 0 where
  pub self : Option Block
  pub info : ConnectorInfo
  pub arrays : ConnectorArrays
  pub modes : List ModeInfo

-- An answer to DRM_IOCTL_MODE_GETCONNECTOR.
pub record ConnectorReply : Type 0 where
  pub ret : ℤ
  pub info : ConnectorInfo
  pub encoders : List ℕ
  pub modes : List ModeInfo
  pub props : List ℕ
  pub prop_values : List ℕ

-- `struct GpuEncoder`
pub record Encoder : Type 0 where
  pub id : ℕ
  pub encoder_type : ℕ
  pub crtc_id : ℕ
  pub possible_crtcs : ℕ
  pub possible_clones : ℕ

-- `struct GpuCrtc` without the two fields that are never set.
pub record Crtc : Type 0 where
  pub id : ℕ
  pub set_connectors_ptr : ℕ
  pub count_connectors : ℕ
  pub fb_id : ℕ
  pub x : ℕ
  pub y : ℕ
  pub width : ℕ
  pub height : ℕ
  pub gamma_size : ℕ
  pub mode_valid : ℕ
  pub mode_info : ModeInfo

-- The fields of `struct drm_mode_crtc` that are read.
pub record DrmCrtc : Type 0 where
  pub crtc_id : ℕ
  pub fb_id : ℕ
  pub count_connectors : ℕ
  pub set_connectors_ptr : ℕ
  pub x : ℕ
  pub y : ℕ
  pub mode_valid : ℕ
  pub mode : ModeInfo

-- `struct GpuPropBlob`, `self` its own block.
pub record PropBlob : Type 0 where
  pub self : Option Block
  pub id : ℕ
  pub length : ℕ
  pub content : Option Block

-- An answer to DRM_IOCTL_MODE_GETPROPBLOB.
pub record BlobReply : Type 0 where
  pub ret : ℤ
  pub id : ℕ
  pub length : ℕ
  pub content : List ℕ

-- The fields of `struct drm_mode_get_property` without its pointers.
pub record PropertyInfo : Type 0 where
  pub prop_id : ℕ
  pub flags : ℕ
  pub count_values : ℕ
  pub count_enum_blobs : ℕ
  pub name : String

-- Its two pointers.
pub record PropertyTemps : Type 0 where
  pub values : Option Block
  pub enum_blobs : Option Block

-- An answer to DRM_IOCTL_MODE_GETPROPERTY.
pub record PropertyReply : Type 0 where
  pub ret : ℤ
  pub info : PropertyInfo
  pub values : List ℕ
  pub enum_blobs : List ℕ

-- `struct GpuProp`, `self` its own block.
pub record Property : Type 0 where
  pub self : Option Block
  pub prop_id : ℕ
  pub flags : ℕ
  pub name : String
  pub count_values : ℕ
  pub values : Option Block
  pub count_enums : ℕ
  pub enums : Option Block
  pub count_blobs : ℕ
  pub blob_ids : Option Block

-- The allocator and the kernel.
pub record Sys : Type 0 where
  pub malloc : Events → Option ℕ
  pub resources : Events → CardReply
  pub connector : Events → ℕ → ConnectorReply
  pub encoder : Events → ℕ → ℤ × Encoder
  pub crtc : Events → ℕ → ℤ × DrmCrtc
  pub blob : Events → ℕ → BlobReply
  pub property : Events → ℕ → PropertyReply
