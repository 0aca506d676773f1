-- ===== src/Core/Info/Codes.antt =====
-- Which questions the kernel is asked (core/gpuinfo.c).
use amdtop.Base.{
  ℕ, zero, suc, ◌-◌, ◌==◌, ◌≡◌, ◌<◌, Option, none, some, ◌∷◌, ℤ, pos, is_zero, to_u32,
  if◌then◌else◌, refl, sym, arith, ltb,
}
use mathlib.Core.Path.{subst}
use amdtop.Core.Info.{
  Request, Requests, Kernel, field, type_map, amd_gpu_sensor_type_map, ask_sensor,
  gpu_query_sensor_info,
}

-- The sensor of `enum GpuSensorType` that a number AMDGPU_INFO_SENSOR_* of the kernel stands for.
abbrev pub sensor_of : ℕ → ℕ
sensor_of n = if ltb n 3 then n - 1 else if n == 3 then 3 else if n == 4 then 2 else n - 1

-- The call asks the kernel once, about the sensor, and returns what it says.
unfoldable pub Asks : Kernel → (type value : ℕ) → Requests → Option (ℤ × ℕ × Requests) → Type 0
Asks kernel type value l o =
    (r : Request) × (o
      ≡ some (
        (kernel l r).0,
        (if is_zero (kernel l r).0 then field (kernel l r).1 0 else value),
        r ∷ l,
      ))
    × (r.query ≡ 0x1D)
    × (sensor_of r.type ≡ type)

module _ (kernel : Kernel) where
  Asks-ask_sensor :
      (code type value : ℕ) (l : Requests)
      → sensor_of (to_u32 (pos code)) ≡ type
      → Asks kernel type value l (some (ask_sensor kernel (pos code) value l))
  unfolding Asks ask_sensor
  Asks-ask_sensor code type value l e =
      (record { query = 0x1D; type = to_u32 (pos code); inst = 0; index = 0 }, refl, refl, e)

  mapped :
      (code type value : ℕ) (l : Requests)
      → amd_gpu_sensor_type_map type ≡ some (pos code)
      → sensor_of (to_u32 (pos code)) ≡ type
      → Asks kernel type value l (gpu_query_sensor_info kernel type value l)
  unfolding gpu_query_sensor_info
  mapped code type value l e f =
      subst
        (λ o. Asks kernel type value l (elim o as (λ o. Option (ℤ × ℕ × Requests)) [
          | none ↦ none
          | some code ↦ some (ask_sensor kernel code value l)
        ]))
        (sym e) (Asks-ask_sensor code type value l f)

-- For each of the nine sensors gpuQuerySensorInfo makes one request, from whose number the sensor can be
-- told, and it returns what the kernel returns, with the kernel's number if that is 0.
pub gpu_query_sensor_info-Asks :
    (kernel : Kernel) (type value : ℕ) (l : Requests)
    → type < 9
    → Asks kernel type value l (gpu_query_sensor_info kernel type value l)
unfolding amd_gpu_sensor_type_map type_map
gpu_query_sensor_info-Asks kernel zero value l known = mapped kernel 1 0 value l refl refl
gpu_query_sensor_info-Asks kernel (suc zero) value l known = mapped kernel 2 1 value l refl refl
gpu_query_sensor_info-Asks kernel (suc (suc zero)) value l known =
    mapped kernel 4 2 value l refl refl
gpu_query_sensor_info-Asks kernel (suc (suc (suc zero))) value l known =
    mapped kernel 3 3 value l refl refl
gpu_query_sensor_info-Asks kernel (suc (suc (suc (suc zero)))) value l known =
    mapped kernel 5 4 value l refl refl
gpu_query_sensor_info-Asks kernel (suc (suc (suc (suc (suc zero))))) value l known =
    mapped kernel 6 5 value l refl refl
gpu_query_sensor_info-Asks kernel (suc (suc (suc (suc (suc (suc zero)))))) value l known =
    mapped kernel 7 6 value l refl refl
gpu_query_sensor_info-Asks kernel (suc (suc (suc (suc (suc (suc (suc zero))))))) value l known =
    mapped kernel 8 7 value l refl refl
gpu_query_sensor_info-Asks kernel (suc (suc (suc (suc (suc (suc (suc (suc zero)))))))) value l
      known =
    mapped kernel 9 8 value l refl refl
gpu_query_sensor_info-Asks kernel (suc (suc (suc (suc (suc (suc (suc (suc (suc t))))))))) value l
      known =
    let none_left : zero ≡ suc zero = omega arith in cc
