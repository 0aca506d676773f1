-- ===== src/Core/Handles/ByBus.antt =====
-- The search for a card by its bus: what it finds, and what it leaves open (core/gpudevice.c).
use amdtop.Base.{
  ◌+◌, ◌≡◌, Bool, true, false, ◌||◌, sym, Option, none, some, List, [], ◌∷◌, ℤ, pos, is_neg,
  is_zero, length, enomem, refl, arith, ◌∙◌, inl, inr, Bool-cases, if◌then◌else◌,
}
use mathlib.Core.Path.{subst}
use amdtop.Core.Handles.{
  DeviceType, GpuDevice, PciAddress, Files, Sys, asked, scan, gpu_get_devices, gpu_close_device,
  find_loop, gpu_get_device_by_bus, same_address,
}
use amdtop.Core.Handles.Owned.{
  hit, opens, closes, Leaves, holders, at_address, last_of, Sound, Open, Leaves-scan, Open-scan,
}

-- The test picks exactly the devices at an address.
pub record PicksAt (where_is : GpuDevice → PciAddress) (at : PciAddress) (picks : GpuDevice → Bool)
    : Type 0 where
  pub only : (d : GpuDevice) → picks d ≡ true → where_is d ≡ at
  pub all : (d : GpuDevice) → where_is d ≡ at → picks d ≡ true

address-≡ :
    (a b : PciAddress)
    → a.domain ≡ b.domain
    → a.bus ≡ b.bus
    → a.dev ≡ b.dev
    → a.func ≡ b.func
    → a ≡ b
address-≡ a b e1 e2 e3 e4 = cc

same_address-≡ : (a b : PciAddress) → same_address a b ≡ true → a ≡ b
same_address-≡ a b e =
    address-≡ a b (ground (arith, e)) (ground (arith, e)) (ground (arith, e)) (ground (arith, e))

same_address_refl : (a : PciAddress) → same_address a a ≡ true
same_address_refl a = ground arith

same_address-picks :
    (where_is : GpuDevice → PciAddress) (at : PciAddress) (picks : GpuDevice → Bool) (d : GpuDevice)
    → PicksAt where_is at picks
    → same_address (where_is d) at ≡ picks d
same_address-picks where_is at picks d p = elim (Bool-cases (same_address (where_is d) at)) [
  | inl e ↦ e ∙ sym (p.all d (same_address-≡ (where_is d) at e))
  | inr e ↦ elim (Bool-cases (picks d)) [
    | inl f ↦
        let g = subst (λ a. same_address a at ≡ true) (sym (p.only d f)) (same_address_refl at) in
        cc
    | inr f ↦ e ∙ sym f
  ]
]

module _ (sys : Sys) (where_is : GpuDevice → PciAddress) (sound : Sound sys where_is)
    (at : PciAddress) (picks : GpuDevice → Bool) (p : PicksAt where_is at picks) where
  last_of-find_loop :
      (ds : List GpuDevice) (found : Option GpuDevice) (s : Files)
      → (find_loop sys at ds found s).0 ≡ last_of picks found ds
  unfolding find_loop last_of
  last_of-find_loop [] found s = refl
  last_of-find_loop (d ∷ ds) found s =
      let s' = record s { log = asked "uevent" ∷ s.log } in
      let hit = picks d in
      simp (sound.located s.log d, same_address-picks where_is at picks d p)
        (last_of-find_loop ds (if hit then some d else found)
          (if hit then s' else gpu_close_device d s'))

  fault-gpu_close_device : (d : GpuDevice) (s : Files) → (gpu_close_device d s).fault ≡ s.fault
  unfolding gpu_close_device
  fault-gpu_close_device d s = ground arith

  fault-find_loop :
      (ds : List GpuDevice) (found : Option GpuDevice) (s : Files)
      → (find_loop sys at ds found s).1.fault ≡ s.fault
  unfolding find_loop
  fault-find_loop [] found s = refl
  fault-find_loop (d ∷ ds) found s =
      let s' = record s { log = asked "uevent" ∷ s.log } in
      elim (Bool-cases (same_address (where_is d) at)) [
        | inl h ↦ simp (sound.located s.log d, h) (fault-find_loop ds (some d) s')
        | inr h ↦
            simp (sound.located s.log d, h)
              (fault-find_loop ds found (gpu_close_device d s') ∙ fault-gpu_close_device d s')
      ]

  closes-gpu_close_device :
      (x : ℤ) (d : GpuDevice) (s : Files)
      → (is_neg d.fd || is_zero d.fd) ≡ false
      → (closes x (gpu_close_device d (record s { log = asked "uevent" ∷ s.log })).log
          ≡ hit x d.fd + closes x s.log)
        × (opens x (gpu_close_device d (record s { log = asked "uevent" ∷ s.log })).log
            ≡ opens x s.log)
  unfolding gpu_close_device closes opens
  closes-gpu_close_device x d s e = simp e (refl, refl)

  -- The loop closes the devices at other addresses, once each.
  closes-find_loop :
      (x : ℤ) (ds : List GpuDevice) (found : Option GpuDevice) (s : Files)
      → Open sys where_is sound x ds
      → (closes x (find_loop sys at ds found s).1.log + holders x (at_address picks ds)
          ≡ holders x ds + closes x s.log)
        × (opens x (find_loop sys at ds found s).1.log ≡ opens x s.log)
  unfolding find_loop holders at_address Open closes opens
  closes-find_loop x [] found s o = (omega arith, refl)
  closes-find_loop x (d ∷ ds) found s (here, there) = elim (Bool-cases (picks d)) [
    | inl h ↦
        let s' = record s { log = asked "uevent" ∷ s.log } in
        let (c, o) = closes-find_loop x ds (some d) s' there in
        simp (sound.located s.log d, same_address-picks where_is at picks d p, h)
          (omega (arith, c), o)
    | inr h ↦
        let s' = record s { log = asked "uevent" ∷ s.log } in
        let (c, o) = closes-find_loop x ds found (gpu_close_device d s') there in
        let (one, same) = closes-gpu_close_device x d s here in
        simp (sound.located s.log d, same_address-picks where_is at picks d p, h)
          (omega (arith, c, one), o ∙ same)
  ]

Leaves-gpu_get_devices :
    (sys : Sys) (where_is : GpuDevice → PciAddress) (t : DeviceType) (x : ℤ) (s : Files)
    (sound : Sound sys where_is)
    → (gpu_get_devices sys t s).0 ≡ pos 0
    → Leaves x s (gpu_get_devices sys t s).2 (holders x (gpu_get_devices sys t s).1)
      × Open sys where_is sound x (gpu_get_devices sys t s).1
unfolding gpu_get_devices Leaves closes opens
Leaves-gpu_get_devices sys where_is t x s sound ok =
    let s' = record s { log = asked "readdir" ∷ s.log } in
    let es = sys.entries s.log in
    let r = scan sys t (pos 0) 0 es s' in
    elim (Bool-cases (sys.alloc r.2.log (length r.1))) [
      | inl e ↦ simp e (
        Leaves-scan sys where_is sound x t (pos 0) 0 es s',
        Open-scan sys where_is sound x t (pos 0) 0 es s',
      )
      | inr e ↦ let l : enomem ≡ pos 0 = simp e at ok in cc
    ]

-- When fstat succeeds, all files are character devices of drm, open never answers 0, the address of
-- each device is known and stays the same, a test picks exactly the devices at the address asked for,
-- and gpuGetDevices returns 0 and has not written behind its array of eight, gpuGetDeviceByBus finds the
-- last of its devices that the test picks, if there is one, of the descriptors that it opens exactly
-- those of the devices that the test picks stay open, and it does not write behind the array either.
pub gpu_get_device_by_bus-Leaves :
    (sys : Sys) (where_is : GpuDevice → PciAddress) (t : DeviceType) (at : PciAddress)
    (picks : GpuDevice → Bool) (x : ℤ) (s : Files)
    → Sound sys where_is
    → PicksAt where_is at picks
    → (gpu_get_devices sys t s).0 ≡ pos 0
    → (gpu_get_devices sys t s).2.fault ≡ false
    → ((gpu_get_device_by_bus sys t at s).0 ≡ last_of picks none (gpu_get_devices sys t s).1)
      × Leaves x s
          (gpu_get_device_by_bus sys t at s).1
          (holders x (at_address picks (gpu_get_devices sys t s).1))
      × ((gpu_get_device_by_bus sys t at s).1.fault ≡ false)
unfolding gpu_get_device_by_bus Leaves
gpu_get_device_by_bus-Leaves sys where_is t at picks x s sound p ok whole =
    let r = gpu_get_devices sys t s in
    let (opened, kept) = Leaves-gpu_get_devices sys where_is t x s sound ok in
    let (c, o) = closes-find_loop sys where_is sound at picks p x r.1 none r.2 kept in
    simp ok (
      last_of-find_loop sys where_is sound at picks p r.1 none r.2,
      omega (arith, c, o, opened),
      fault-find_loop sys where_is sound at picks p r.1 none r.2 ∙ whole,
    )
