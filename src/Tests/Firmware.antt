-- ===== src/Tests/Firmware.antt =====
-- The theorem on the firmware page, for a card without VCN.
use amdtop.Base.{◌≡◌, refl, [], ◌∷◌, map, List, ℕ, ℤ, pos, negsuc, ◌==◌, if◌then◌else◌}
use amdtop.Core.Info.{Request, amd_gpu_fw_type_map, type_map}
use amdtop.Tui.World.{get_active_device}
use amdtop.Tui.Firmware.{fw_infos, start_page, get_firmware_info}
use amdtop.Tui.Firmware.Fetched.{refreshed, asked_for, get_firmware_info-refreshed}
use amdtop.Tests.Screens.{ready, card}

abbrev without_vcn : Request → ℤ × List ℕ
without_vcn r = if r.type == 14 then (negsuc 21, []) else (pos 0, r.type ∷ 1 ∷ [])

get_firmware_info-refreshed_example :
    get_firmware_info (λ i l r. without_vcn r) start_page ready ≡ (
      negsuc 21,
      record { infos = map (refreshed without_vcn) fw_infos; requests = asked_for fw_infos [] },
      ready,
    )
unfolding get_active_device amd_gpu_fw_type_map type_map
get_firmware_info-refreshed_example =
    get_firmware_info-refreshed without_vcn start_page ready card 4 refl refl (
      refl,
      (refl, (refl, (refl, (refl, (refl, (refl, (refl, (refl, (refl, (refl, (refl, tt))))))))))),
    )
