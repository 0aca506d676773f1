-- ===== src/Tui/Device/Table.antt =====
-- What `InitDeviceContext` leaves in the device table (tui/device.c).
use amdtop.Base.{
  ℕ, ◌+◌, ◌/◌, ◌^◌, ◌≡◌, ◌≤◌, ◌<◌, Bool, true, false, ◌||◌, leb, Option, none, some, List, [], ◌∷◌,
  ℤ, pos, is_zero, is_some, ◌==◌, if◌then◌else◌, arith, Bool-cases, inl, inr, eagain,
}
use amdtop.Tui.Device.{
  PciDevice, Device, DeviceContext, Answers, set_slot, alloc_device, init_device, add_device,
  init_loop, init_device_context, blank_device, max_card_support,
}

-- The display devices that the iterator yields.
unfoldable pub displays : List (PciDevice × Bool × Answers) → ℕ
displays [] = 0
displays ((p, fails, a) ∷ rest) =
    let more = displays rest in if p.device_class / 2 ^ 16 == 3 then 1 + more else more

-- No slot below the count is missing.
unfoldable pub Full : DeviceContext → Type 0
Full c = (i : ℕ) → i < c.device_count → is_some (c.devs i) ≡ true

Full-set_slot :
    (c : DeviceContext) (d d' : Device)
    → Full c
    → Full (record {
      devs = set_slot (set_slot c.devs c.device_count (some d)) c.device_count (some d');
      device_count = c.device_count + 1;
      fault = c.fault || leb max_card_support c.device_count;
    })
unfolding Full
Full-set_slot c d d' f i l = elim (Bool-cases (i == c.device_count)) [
  | inl e ↦ ground (arith, e)
  | inr e ↦ let g = f i (ground arith) in ground (arith, g)
]

-- A full table with at most n devices, which are all in the array if n is 8 at most.
Holds : ℕ → DeviceContext → Type 0
Holds n c = Full c × (c.device_count ≤ n) × (n ≤ 8 → c.fault ≡ false)

fault-one_more :
    (f : Bool) (k n : ℕ) → k ≤ n → n + 1 ≤ 8 → f ≡ false → (f || leb max_card_support k) ≡ false
fault-one_more f k n l m e = ground (arith, e)

-- One round adds a device only for a display device, and the table stays full.
add_device-Holds :
    (p : PciDevice) (fails : Bool) (a : Answers) (n : ℕ) (c : DeviceContext)
    → Holds n c
    → Holds (if p.device_class / 2 ^ 16 == 3 then n + 1 else n) (add_device p fails a c).1
unfolding add_device alloc_device Holds
add_device-Holds p fails a n c (f, l, s) = step (p.device_class / 2 ^ 16 == 3) fails
  where
    made : Bool → Option Device × DeviceContext
    made bad = alloc_device bad c p

    outcome : Bool → Bool → ℤ × DeviceContext
    outcome display bad =
        if display
        then (elim (made bad).0 [
          | none ↦ (eagain, (made bad).1)
          | some d ↦ (
            (init_device a d).0,
            record ((made bad).1) {
              devs = set_slot ((made bad).1).devs c.device_count (some (init_device a d).1);
            },
          )
        ])
        else (pos 0, c)

    step : (display bad : Bool) → Holds (if display then n + 1 else n) (outcome display bad).1
    step true true = (f, omega arith, λ m. s (omega arith))
    step true false = (
      Full-set_slot c (blank_device c.device_count p)
          (init_device a (blank_device c.device_count p)).1 f,
      omega arith,
      λ m. fault-one_more c.fault c.device_count n l m (s (omega arith)),
    )
    step false bad = (f, l, s)

init_loop-Holds :
    (found : List (PciDevice × Bool × Answers)) (n : ℕ) (c : DeviceContext)
    → Holds n c
    → Holds (n + displays found) (init_loop found c).1
unfolding init_loop displays Holds
init_loop-Holds [] n c (f, l, s) = (f, omega arith, λ m. s (omega arith))
init_loop-Holds ((p, fails, a) ∷ rest) n c h =
    let display = p.device_class / 2 ^ 16 == 3 in
    let r = add_device p fails a c in
    let held = add_device-Holds p fails a n c h in
    pick display (is_zero r.0) r (init_loop rest r.1) held
      (init_loop-Holds rest (if display then n + 1 else n) r.1 held)
  where
    pick :
        (display ok : Bool) (r more : ℤ × DeviceContext)
        → Holds (if display then n + 1 else n) r.1
        → Holds ((if display then n + 1 else n) + displays rest) more.1
        → Holds
            (n + (if display then 1 + displays rest else displays rest))
            (if ok then more else r).1
    pick true true r more (f, l, s) (g, m, t) = (g, omega arith, λ k. t (omega arith))
    pick true false r more (f, l, s) (g, m, t) = (f, omega arith, λ k. s (omega arith))
    pick false true r more (f, l, s) (g, m, t) = (g, omega arith, λ k. t (omega arith))
    pick false false r more (f, l, s) (g, m, t) = (f, omega arith, λ k. s (omega arith))

-- When the iterator yields at most 8 display devices, `InitDeviceContext` writes only into its array, and
-- whatever it returns, no slot below the number of devices is empty, and there are at most as many
-- devices as display devices.
pub init_device_context-Full :
    (init_ret : ℤ) (found : List (PciDevice × Bool × Answers)) (c : DeviceContext)
    → displays found ≤ 8
    → c.fault ≡ false
    → let made = (init_device_context init_ret found c).1 in
      Full made × (made.device_count ≤ displays found) × (made.fault ≡ false)
unfolding init_device_context Full Holds
init_device_context-Full init_ret found c few none_written = step (is_zero init_ret)
  where
    empty : DeviceContext
    empty = record c { device_count = 0 }

    none_yet : Holds 0 empty
    none_yet = (λ i l. absurd (omega arith), omega arith, λ m. none_written)

    step :
        (ok : Bool)
        → let made = (if ok then init_loop found empty else (init_ret, empty)).1 in
          Full made × (made.device_count ≤ displays found) × (made.fault ≡ false)
    step true =
        let (f, l, s) = init_loop-Holds found 0 empty none_yet in (f, omega arith, s (omega arith))
    step false = (λ i l. absurd (omega arith), omega arith, none_written)
