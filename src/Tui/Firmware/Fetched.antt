-- ===== src/Tui/Firmware/Fetched.antt =====
-- getFirmwareInfo and tabFirmwareInfoInit of tui/firmwareinfo.c: which answers are kept and shown.
use amdtop.Base.{
  ℕ, ◌≡◌, refl, Bool, true, false, Option, none, some, is_some, List, [], ◌∷◌, map, ℤ, pos, negsuc,
  is_zero, to_u32, ap, ◌∙◌, if◌then◌else◌,
}
use amdtop.Core.Info.{
  Kernel, Request, Requests, GpuFwInfo, field, amd_gpu_fw_type_map, ask_fw, gpu_query_fw_info,
}
use amdtop.Tui.World.{WinType, World, Env, get_active_device, crash}
use amdtop.Tui.Device.{Device}
use amdtop.Tui.Firmware.{
  FirmwareInfo, FirmwarePage, fetch_loop, keep_infos, answered, put, get_firmware_info, show_infos,
  tab_firmware_info_init,
}

-- All entries have a type that is in the table of the kernel's numbers.
abbrev pub InTable : List FirmwareInfo → Type 0
InTable [] = Unit {0}
InTable (f ∷ fs) = (is_some (amd_gpu_fw_type_map f.fw_type) ≡ true) × InTable fs

abbrev number : Option ℤ → ℕ
number none = 0
number (some code) = to_u32 code

-- The request for an entry.
abbrev pub request : FirmwareInfo → Request
request f = record {
  query = 14;
  type = number (amd_gpu_fw_type_map f.fw_type);
  inst = 0;
  index = 0;
}

-- All requests, in the order of the entries.
abbrev pub asked_for : List FirmwareInfo → Requests → Requests
asked_for [] l = l
asked_for (f ∷ fs) l = asked_for fs (request f ∷ l)

-- A kernel whose answers depend on the request only.
module _ (answer : Request → ℤ × List ℕ) where
  -- An entry after its own query: what the kernel wrote, or what was there when it refused.
  abbrev with_reply : ℤ × List ℕ → FirmwareInfo → FirmwareInfo
  with_reply (ret, ns) f =
      let wrote : GpuFwInfo = record {
        type = f.fw_type;
        inst = 0;
        index = 0;
        version = field ns 0;
        feature = field ns 1;
      } in
      if is_zero ret then record f { fw_info = wrote } else f

  abbrev pub refreshed : FirmwareInfo → FirmwareInfo
  refreshed f = with_reply (answer (request f)) f

  -- The result for the last entry.
  abbrev pub last_result : ℤ → List FirmwareInfo → ℤ
  last_result ret [] = ret
  last_result ret (f ∷ fs) = last_result (answer (request f)).0 fs

  abbrev kernel : Kernel
  kernel l r = answer r

  answered-query :
      (f : FirmwareInfo) (l : Requests)
      → is_some (amd_gpu_fw_type_map f.fw_type) ≡ true
      → answered f (gpu_query_fw_info kernel f.fw_type 0 0 f.fw_info l)
        ≡ some ((answer (request f)).0, refreshed f, request f ∷ l)
  unfolding gpu_query_fw_info ask_fw
  answered-query f l e = step (amd_gpu_fw_type_map f.fw_type) e
    where
      kept :
          (b : Bool) (ret : ℤ) (info : GpuFwInfo) (r : Request)
          → answered f (some (if b then (ret, info, r ∷ l) else (ret, f.fw_info, r ∷ l)))
            ≡ some (ret, (if b then record f { fw_info = info } else f), r ∷ l)
      kept true ret info r = refl
      kept false ret info r = refl

      to_request : Option ℤ → Request
      to_request o = record { query = 14; type = number o; inst = 0; index = 0 }

      step :
          (o : Option ℤ)
          → is_some o ≡ true
          → answered f (elim o as (λ o. Option (ℤ × GpuFwInfo × Requests)) [
            | none ↦ none
            | some code ↦ some (ask_fw kernel code f.fw_type 0 0 f.fw_info l)
          ])
            ≡ some
                ((answer (to_request o)).0, with_reply (answer (to_request o)) f, to_request o ∷ l)
      step none n = cc
      step (some code) n =
          let (ret, ns) = answer (to_request (some code)) in
          kept (is_zero ret) ret
            (record {
              type = f.fw_type;
              inst = 0;
              index = 0;
              version = field ns 0;
              feature = field ns 1;
            })
            (to_request (some code))

  fetch_loop-refreshed :
      (ret : ℤ) (fs : List FirmwareInfo) (l : Requests)
      → InTable fs
      → fetch_loop kernel ret fs l ≡ some (last_result ret fs, map refreshed fs, asked_for fs l)
  unfolding fetch_loop
  fetch_loop-refreshed ret [] l k = refl
  fetch_loop-refreshed ret (f ∷ fs) l k =
      ap
        (λ o. elim o as (λ o. Option (ℤ × List FirmwareInfo × Requests)) [
          | none ↦ none
          | some r ↦ put r.1 (fetch_loop kernel r.0 fs r.2)
        ])
        (answered-query f l k.0)
      ∙ ap (put (refreshed f)) (fetch_loop-refreshed (answer (request f)).0 fs (request f ∷ l) k.1)

  -- With a card that is opened and a kernel whose answers depend on the request only,
  -- `getFirmwareInfo` asks once for each entry and in their order, whatever fails, keeps the
  -- versions of those that succeed, and returns the result for the last entry.
  pub get_firmware_info-refreshed :
      (p : FirmwarePage) (w : World) (d : Device) (g : ℕ)
      → get_active_device w ≡ some d
      → d.gpu_device ≡ some g
      → InTable p.infos
      → get_firmware_info (λ i. kernel) p w ≡ (
        last_result (pos 0) p.infos,
        record { infos = map refreshed p.infos; requests = asked_for p.infos p.requests },
        w,
      )
  unfolding get_firmware_info keep_infos
  get_firmware_info-refreshed p w d g e o k =
      let fetched =
        ap (λ r. keep_infos r p w) (fetch_loop-refreshed (pos 0) p.infos p.requests k) in
      let opened =
        ap
          (λ c. elim c as (λ o. ℤ × FirmwarePage × World) [
            | none ↦ (negsuc 0, p, (crash w).1)
            | some i ↦ keep_infos (fetch_loop kernel (pos 0) p.infos p.requests) p w
          ])
          o in
      ap
        (λ c. elim c as (λ o. ℤ × FirmwarePage × World) [
          | none ↦ (pos 0, p, w)
          | some c ↦ elim c.gpu_device as (λ o. ℤ × FirmwarePage × World) [
            | none ↦ (negsuc 0, p, (crash w).1)
            | some i ↦ keep_infos (fetch_loop kernel (pos 0) p.infos p.requests) p w
          ]
        ])
        e
      ∙ (opened ∙ fetched)

  -- When the query for the last entry fails the page is not drawn, whatever the others gave.
  tab_firmware_info_init-undrawn :
      (env : Env) (t : WinType) (p : FirmwarePage) (w : World) (d : Device) (g : ℕ)
      → get_active_device w ≡ some d
      → d.gpu_device ≡ some g
      → InTable p.infos
      → is_zero (last_result (pos 0) p.infos) ≡ false
      → (tab_firmware_info_init env (λ i. kernel) t p w).2 ≡ w
  unfolding tab_firmware_info_init show_infos
  tab_firmware_info_init-undrawn env t p w d g e o k z =
      ap (λ r. (show_infos env t r).2) (get_firmware_info-refreshed p w d g e o k) ∙ simp z refl
