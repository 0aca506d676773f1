-- ===== src/Tui/Device/Release.antt =====
-- What `FreeDeviceContext` frees (tui/device.c).
use amdtop.Base.{
  ℕ, zero, suc, ◌+◌, ◌-◌, ◌/◌, ◌≡◌, ◌≤◌, ◌<◌, Bool, true, false, ◌||◌, leb, Option, none, some,
  List, [], ◌∷◌, is_some, ltb, if◌then◌else◌, refl, arith, length, ap, ◌∙◌,
}
use amdtop.Tui.Device.{
  max_card_support, Device, DeviceContext, set_slot, free_device, free_loop, free_device_context,
}
use amdtop.Tui.Device.Table.{Full}

-- From slot i of a table of less than 8 devices that is full from there on, every second device is freed,
-- and nothing is written behind the array.
length-free_loop :
    (fuel i : ℕ) (c : DeviceContext)
    → c.device_count < i + fuel
    → c.device_count < 8
    → c.fault ≡ false
    → ((j : ℕ) → i ≤ j → j < c.device_count → is_some (c.devs j) ≡ true)
    → (length (free_loop fuel i c).0 ≡ (c.device_count + 1 - i) / 2)
      × ((free_loop fuel i c).1 ≡ false)
unfolding free_loop free_device
length-free_loop zero i c h few clear f = (omega arith, clear)
length-free_loop (suc fuel) i c h few clear f =
    step (ltb i c.device_count) (c.devs i) (λ e. f i (omega arith) (ground (arith, e))) refl
      (λ l.
        length-free_loop fuel (i + 1) after (ground (arith, l)) (omega arith)
          (ground (arith, clear))
          (λ j m l'. let g = f j (omega arith) (ground (arith, l')) in ground (arith, g)))
  where
    freed : DeviceContext
    freed = record {
      devs = set_slot c.devs c.device_count none;
      device_count = c.device_count - 1;
      fault = c.fault || leb max_card_support c.device_count;
    }

    after : DeviceContext
    after = record freed { devs = set_slot freed.devs i none }

    next : List ℕ × Bool
    next = free_loop fuel (i + 1) after

    outcome : Bool → Option Device → List ℕ × Bool
    outcome b o =
        if b
        then (elim o as (λ o. List ℕ × Bool) [
          | none ↦ free_loop fuel (i + 1) c
          | some d ↦ (d.id ∷ next.0, next.1)
        ])
        else ([], c.fault)

    step :
        (b : Bool) (o : Option Device)
        → (b ≡ true → is_some o ≡ true)
        → (b ≡ ltb i c.device_count)
        → (i < c.device_count
            → (length next.0 ≡ (c.device_count - 1 + 1 - (i + 1)) / 2) × (next.1 ≡ false))
        → (length (outcome b o).0 ≡ (c.device_count + 1 - i) / 2) × ((outcome b o).1 ≡ false)
    step true none full e rest = ground (arith, full refl)
    step true (some d) full e rest =
        let l : i < c.device_count = ground (arith, e) in
        let (r, kept) = rest l in (omega arith, kept)
    step false o full e rest =
        let l : c.device_count ≤ i = ground (arith, e) in (omega arith, clear)

-- The table after the device in slot i has been freed.
abbrev after_free : ℕ → DeviceContext → DeviceContext
after_free i c = record {
  devs = set_slot (set_slot c.devs c.device_count none) i none;
  device_count = c.device_count - 1;
  fault = c.fault || leb max_card_support c.device_count;
}

-- A round that frees a device, and one that finds none.
abbrev outcome : ℕ → ℕ → DeviceContext → Bool → Option Device → List ℕ × Bool
outcome fuel i c b o =
    let next = free_loop fuel (i + 1) (after_free i c) in
    if b
    then (elim o as (λ o. List ℕ × Bool) [
      | none ↦ free_loop fuel (i + 1) c
      | some d ↦ (d.id ∷ next.0, next.1)
    ])
    else ([], c.fault)

fault-outcome :
    (fuel i : ℕ) (c : DeviceContext) (b : Bool) (o : Option Device)
    → c.fault ≡ true
    → (free_loop fuel (i + 1) c).1 ≡ true
    → (free_loop fuel (i + 1) (after_free i c)).1 ≡ true
    → (outcome fuel i c b o).1 ≡ true
fault-outcome fuel i c true none e skip next = skip
fault-outcome fuel i c true (some d) e skip next = next
fault-outcome fuel i c false o e skip next = e

-- A write behind the array is not forgotten.
fault-free_loop : (fuel i : ℕ) (c : DeviceContext) → c.fault ≡ true → (free_loop fuel i c).1 ≡ true
unfolding free_loop free_device
fault-free_loop zero i c e = e
fault-free_loop (suc fuel) i c e =
    fault-outcome fuel i c (ltb i c.device_count) (c.devs i) e (fault-free_loop fuel (i + 1) c e)
      (fault-free_loop fuel (i + 1) (after_free i c) (ground (arith, e)))

-- On a table of less than 8 devices with no empty slot `FreeDeviceContext` writes only into the array and
-- frees only every second device: of n devices, half of them rounded up.
pub length-free_device_context :
    (c : DeviceContext)
    → Full c
    → c.device_count < 8
    → c.fault ≡ false
    → (length (free_device_context c).0 ≡ (c.device_count + 1) / 2)
      × ((free_device_context c).1 ≡ false)
unfolding free_device_context Full
length-free_device_context c f few clear =
    let (l, k) =
      length-free_loop (c.device_count + 1) 0 c (omega arith) few clear (λ j m l. f j l) in
    (l ∙ ap (λ x. x / 2) (omega arith), k)

fault-first :
    (fuel : ℕ) (c : DeviceContext)
    → is_some (c.devs 0) ≡ true
    → c.device_count ≡ 8
    → (free_loop (suc fuel) 0 c).1 ≡ true
unfolding free_loop free_device
fault-first fuel c s e =
    step (ltb 0 c.device_count) (c.devs 0) (ground (arith, e)) s
      (fault-free_loop fuel 1 (after_free 0 c) (ground (arith, e)))
  where
    step :
        (b : Bool) (o : Option Device)
        → b ≡ true
        → is_some o ≡ true
        → (free_loop fuel 1 (after_free 0 c)).1 ≡ true
        → (outcome fuel 0 c b o).1 ≡ true
    step true (some d) t k next = next
    step true none t k next = cc
    step false o t k next = cc

-- On a full table of 8 devices `FreeDeviceContext` writes behind the array.
fault-free_device_context :
    (c : DeviceContext) → Full c → c.device_count ≡ 8 → (free_device_context c).1 ≡ true
unfolding free_device_context Full
fault-free_device_context c f e =
    let rounds : c.device_count + 1 ≡ suc c.device_count = omega arith in
    ap (λ n. (free_loop n 0 c).1) rounds ∙ fault-first c.device_count c (f 0 (omega (arith, e))) e
