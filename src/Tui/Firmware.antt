-- ===== src/Tui/Firmware.antt =====
-- tui/firmwareinfo.c: the versions of the firmware of a card, over core/gpuinfo.c.
pub mod Fetched
use amdtop.Base.{
  ℕ, suc, ◌+◌, ◌/◌, Bool, true, false, Option, none, some, List, [], ◌∷◌, ℤ, pos, negsuc, is_zero,
  if◌then◌else◌,
}
use amdtop.Core.Info.{Kernel, Requests, GpuFwInfo, gpu_query_fw_info}
use amdtop.Tui.World
use amdtop.Tui.World.{
  WinType, World, Env, Cmd, lit, fmt, ◌>>◌, call, crash, get_win, get_active_device,
}
use amdtop.Tui.Screen.{mvwprintw2c}
use Prim.Native.String.{String}

-- `struct firmware_info`, without the pointer `parse_version`, which nothing calls.
pub record FirmwareInfo : Type 0 where
  pub name : String
  pub fw_type : ℕ
  pub fw_info : GpuFwInfo

abbrev fw : String → ℕ → FirmwareInfo
fw name t = record {
  name = name;
  fw_type = t;
  fw_info = record { type = 0; inst = 0; index = 0; version = 0; feature = 0 };
}

-- `fw_infos`, as the program starts
abbrev pub fw_infos : List FirmwareInfo
fw_infos =
    fw "MC" 2
    ∷ fw "ME" 3
    ∷ fw "PFP" 4
    ∷ fw "CE" 5
    ∷ fw "RLC" 6
    ∷ fw "SOS" 7
    ∷ fw "ASD" 8
    ∷ fw "SDMA" 9
    ∷ fw "SMC" 10
    ∷ fw "VCE" 0
    ∷ fw "UVD" 1
    ∷ fw "VCN" 11
    ∷ []

-- What `gpuQueryFWInfo` leaves for an entry; `none` where it read behind its table.
abbrev pub answered :
    FirmwareInfo → Option (ℤ × GpuFwInfo × Requests) → Option (ℤ × FirmwareInfo × Requests)
answered f none = none
answered f (some (ret, info, l)) = some (ret, record f { fw_info = info }, l)

abbrev pub put :
    FirmwareInfo
    → Option (ℤ × List FirmwareInfo × Requests)
    → Option (ℤ × List FirmwareInfo × Requests)
put f none = none
put f (some (ret, fs, l)) = some (ret, f ∷ fs, l)

-- The static `fw_infos` and all requests to the kernel so far.
pub record FirmwarePage : Type 0 where
  pub infos : List FirmwareInfo
  pub requests : Requests

abbrev pub start_page : FirmwarePage
start_page = record { infos = fw_infos; requests = [] }

module _ (kernel : Kernel) where
  -- The loop of `getFirmwareInfo`, with the result so far.
  unfoldable pub fetch_loop :
      ℤ → List FirmwareInfo → Requests → Option (ℤ × List FirmwareInfo × Requests)
  fetch_loop ret [] l = some (ret, [], l)
  fetch_loop ret (f ∷ fs) l =
      elim (answered f (gpu_query_fw_info kernel f.fw_type 0 0 f.fw_info l)) [
        | none ↦ none
        | some r ↦ put r.1 (fetch_loop r.0 fs r.2)
      ]

-- What the loop leaves in the static; a read behind the table ends the program.
unfoldable pub keep_infos :
    Option (ℤ × List FirmwareInfo × Requests) → FirmwarePage → World → ℤ × FirmwarePage × World
keep_infos none p w = (negsuc 0, p, (crash w).1)
keep_infos (some (ret, fs, l)) p w = (ret, record { infos = fs; requests = l }, w)

module _ (env : Env) where
  -- The loop of `tabFirmwareInfoInit`.
  unfoldable pub print_infos : Option ℕ → (line x info_x : ℕ) → List FirmwareInfo → Cmd
  print_infos n line x info_x [] w = (pos 0, w)
  print_infos n line x info_x (f ∷ fs) w =
      (mvwprintw2c env n line x (lit " Type:") (lit f.name)
          >> mvwprintw2c env n (line + 1) info_x (lit "Version   :")
              (fmt " %08x" (f.fw_info.version ∷ []))
          >> mvwprintw2c env n (line + 1) (info_x + 40) (lit "Feature   :")
              (fmt " %08x" (f.fw_info.feature ∷ []))
          >> print_infos n (line + 2) x info_x fs)
        w

  -- `tabFirmwareInfoInit` behind the query.
  unfoldable pub show_infos : WinType → ℤ × FirmwarePage × World → ℤ × FirmwarePage × World
  unfolding print_infos
  show_infos t (ret, p, w) =
      let x = (get_win t w).layout.width / 20 in
      let n = (get_win t w).nwin in
      let r = (print_infos n 1 x (x + 7) p.infos >> call (World.Call.wrefresh n)) w in
      if is_zero ret then (pos 0, p, r.1) else (ret, p, w)

module _ (kernels : ℕ → Kernel) where
  -- `getFirmwareInfo`; its `current_device` is never set, and NULL. The card is the one whose
  -- device is opened, and a device that is not open ends the program.
  unfoldable pub get_firmware_info : FirmwarePage → World → ℤ × FirmwarePage × World
  unfolding keep_infos
  get_firmware_info p w = elim (get_active_device w) as (λ o. ℤ × FirmwarePage × World) [
    | none ↦ (pos 0, p, w)
    | some d ↦ elim d.gpu_device as (λ o. ℤ × FirmwarePage × World) [
      | none ↦ (negsuc 0, p, (crash w).1)
      | some g ↦ keep_infos (fetch_loop (kernels g) (pos 0) p.infos p.requests) p w
    ]
  ]

module _ (env : Env) (kernels : ℕ → Kernel) where
  -- `tabFirmwareInfoInit`
  unfoldable pub tab_firmware_info_init : WinType → FirmwarePage → World → ℤ × FirmwarePage × World
  unfolding get_firmware_info show_infos
  tab_firmware_info_init t p w = show_infos env t (get_firmware_info kernels p w)
