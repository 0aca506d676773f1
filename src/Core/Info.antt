-- ===== src/Core/Info.antt =====
-- core/gpuinfo.h and core/gpuinfo.c: the questions about a card that are one ioctl each.
-- The kernel is a parameter: its answer is a function of all requests so far. It writes a struct as a
-- list of numbers, and what it does not write stays 0.
pub mod Names
pub mod Codes
pub mod Blocks
use amdtop.Base.{
  ℕ, zero, suc, ◌==◌, Bool, true, false, Option, none, some, List, [], ◌∷◌, ℤ, pos, is_zero, is_neg,
  to_u32, ltb, get_elem?, einval, if◌then◌else◌,
}

-- The fields of `struct drm_amdgpu_info` that are set.
pub record Request : Type 0 where
  pub query : ℕ
  pub type : ℕ
  pub inst : ℕ
  pub index : ℕ

abbrev pub Requests : Type 0
Requests = List Request

abbrev pub Kernel : Type 0
Kernel = Requests → Request → ℤ × List ℕ

-- `struct GpuMemInfo`, `struct GpuFwInfo` without its unused text, `struct GpuSensorInfo` and
-- `struct GpuHwIPInfo`, without the device.
pub record GpuMemInfo : Type 0 where
  pub type : ℕ
  pub total : ℕ
  pub used : ℕ

pub record GpuFwInfo : Type 0 where
  pub type : ℕ
  pub inst : ℕ
  pub index : ℕ
  pub version : ℕ
  pub feature : ℕ

pub record GpuHwIpInfo : Type 0 where
  pub iptype : ℕ
  pub inst : ℕ
  pub version_major : ℕ
  pub version_minor : ℕ
  pub capabilities : ℕ
  pub ib_start_alignment : ℕ
  pub ib_size_alignment : ℕ
  pub available_rings : ℕ

-- The number at a place of what the kernel wrote.
abbrev pub field : List ℕ → ℕ → ℕ
field [] i = 0
field (n ∷ ns) zero = n
field (n ∷ ns) (suc i) = field ns i

-- `fwtypeMap` in the order of `enum GpuFwType`, and `sensorMap` in that of `enum GpuSensorType`.
abbrev pub fw_type_map : List ℕ
fw_type_map = 1 ∷ 2 ∷ 8 ∷ 4 ∷ 5 ∷ 6 ∷ 7 ∷ 12 ∷ 13 ∷ 11 ∷ 10 ∷ 14 ∷ []

abbrev pub sensor_map : List ℕ
sensor_map = 1 ∷ 2 ∷ 4 ∷ 3 ∷ 5 ∷ 6 ∷ 7 ∷ 8 ∷ 9 ∷ []

abbrev pub known : ℕ → ℤ
known code = if code == 0 then einval else pos code

-- An entry of a table with `count` entries; `none` is an entry behind its end.
unfoldable pub type_map : List ℕ → (count type : ℕ) → Option ℤ
type_map table count type =
    if ltb count type then some einval else elim (get_elem? table type) as (λ o. Option ℤ) [
      | none ↦ none
      | some code ↦ some (known code)
    ]

-- `amdGpuFwTypeMap` and `amdGpuSensorTypeMap`
unfoldable pub amd_gpu_fw_type_map : ℕ → Option ℤ
unfolding type_map
amd_gpu_fw_type_map type = type_map fw_type_map 12 type

unfoldable pub amd_gpu_sensor_type_map : ℕ → Option ℤ
unfolding type_map
amd_gpu_sensor_type_map type = type_map sensor_map 9 type

module _ (kernel : Kernel) where
  -- The request of `gpuQuerySensorInfo` for a sensor of the kernel's.
  unfoldable pub ask_sensor : ℤ → ℕ → Requests → ℤ × ℕ × Requests
  ask_sensor code value l =
      let r : Request = record { query = 0x1D; type = to_u32 code; inst = 0; index = 0 } in
      let (ret, ns) = kernel l r in
      if is_neg code
      then (code, value, l)
      else (ret, (if is_zero ret then field ns 0 else value), r ∷ l)

  -- `gpuQuerySensorInfo`
  unfoldable pub gpu_query_sensor_info : ℕ → ℕ → Requests → Option (ℤ × ℕ × Requests)
  unfolding ask_sensor
  gpu_query_sensor_info type value l = elim (amd_gpu_sensor_type_map type) [
    | none ↦ none
    | some code ↦ some (ask_sensor code value l)
  ]

  -- The request of `gpuQueryFWInfo`; `fw_type` is unsigned, so it is never negative.
  unfoldable pub ask_fw :
      ℤ → (type inst index : ℕ) → GpuFwInfo → Requests → ℤ × GpuFwInfo × Requests
  ask_fw code type inst index info l =
      let r : Request = record { query = 0x0e; type = to_u32 code; inst = inst; index = index } in
      let (ret, ns) = kernel l r in
      if is_zero ret
      then (
        ret,
        record {
          type = type;
          inst = inst;
          index = index;
          version = field ns 0;
          feature = field ns 1;
        },
        r ∷ l,
      )
      else (ret, info, r ∷ l)

  -- `gpuQueryFWInfo`
  unfoldable pub gpu_query_fw_info :
      (type inst index : ℕ) → GpuFwInfo → Requests → Option (ℤ × GpuFwInfo × Requests)
  unfolding ask_fw
  gpu_query_fw_info type inst index info l = elim (amd_gpu_fw_type_map type) [
    | none ↦ none
    | some code ↦ some (ask_fw code type inst index info l)
  ]

  -- `gpuQueryHwIpCount`
  unfoldable pub gpu_query_hw_ip_count : (type count : ℕ) → Requests → ℤ × ℕ × Requests
  gpu_query_hw_ip_count type count l =
      let r : Request = record { query = 0x03; type = type; inst = 0; index = 0 } in
      let (ret, ns) = kernel l r in (ret, (if is_zero ret then field ns 0 else count), r ∷ l)

  -- `gpuQueryHwIpInfo`
  unfoldable pub gpu_query_hw_ip_info :
      (type inst : ℕ) → GpuHwIpInfo → Requests → ℤ × GpuHwIpInfo × Requests
  gpu_query_hw_ip_info type inst info l =
      let r : Request = record { query = 0x02; type = type; inst = inst; index = 0 } in
      let (ret, ns) = kernel l r in
      if is_zero ret
      then (
        ret,
        record {
          iptype = type;
          inst = inst;
          version_major = field ns 0;
          version_minor = field ns 1;
          capabilities = field ns 2;
          ib_start_alignment = field ns 3;
          ib_size_alignment = field ns 4;
          available_rings = field ns 5;
        },
        r ∷ l,
      )
      else (ret, info, r ∷ l)

  -- The second request of `gpuQueryMemInfo`, for the part in use.
  unfoldable pub ask_usage :
      (query type total : ℕ) → GpuMemInfo → Requests → ℤ × GpuMemInfo × Requests
  ask_usage query type total info l =
      let r : Request = record { query = query; type = 0; inst = 0; index = 0 } in
      let (ret, ns) = kernel l r in
      if is_zero ret
      then (ret, record { type = type; total = total; used = field ns 0 }, r ∷ l)
      else (ret, record info { total = total }, r ∷ l)

  -- `gpuQueryMemInfo`
  unfoldable pub gpu_query_mem_info : ℕ → GpuMemInfo → Requests → ℤ × GpuMemInfo × Requests
  unfolding ask_usage
  gpu_query_mem_info type info l =
      let r : Request = record { query = 0x14; type = 0; inst = 0; index = 0 } in
      let (ret, ns) = kernel l r in
      if is_zero ret
      then (if type == 0
          then ask_usage 0x10 type (field ns 0) info (r ∷ l)
          else (if type == 1
              then ask_usage 0x17 type (field ns 1) info (r ∷ l)
              else (if type == 2
                  then ask_usage 0x11 type (field ns 2) info (r ∷ l)
                  else (einval, info, r ∷ l))))
      else (ret, info, r ∷ l)
