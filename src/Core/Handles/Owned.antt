-- ===== src/Core/Handles/Owned.antt =====
-- Which descriptors the search for a card leaves open (core/gpudevice.c).
use amdtop.Base.{
  ℕ, zero, ◌+◌, ◌≡◌, Bool, true, false, ◌||◌, Option, none, some, List, [], ◌∷◌, ℤ, pos, negsuc,
  is_neg, is_zero, refl, arith, inl, inr, Bool-cases, ◌==◌, if◌then◌else◌,
}
use Prim.Native.String.{String}
use amdtop.Core.Handles.{
  Events, DeviceType, GpuDevice, PciAddress, DirEntry, Files, Sys, Event, asked, opened, closed,
  check_device, gpu_open_device, try_entry, scan, count_in, collect, type_code,
  get_device_type_by_name, drm_major,
}

-- 1 where the two descriptors are the same.
unfoldable pub hit : ℤ → ℤ → ℕ
hit (pos a) (pos b) = if a == b then 1 else 0
hit (pos a) (negsuc b) = 0
hit (negsuc a) (pos b) = 0
hit (negsuc a) (negsuc b) = if a == b then 1 else 0

unfoldable pub opens : ℤ → List Event → ℕ
unfolding hit
opens x [] = 0
opens x (opened y ∷ l) = hit x y + opens x l
opens x (closed y ∷ l) = opens x l
opens x (asked n ∷ l) = opens x l

unfoldable pub closes : ℤ → List Event → ℕ
unfolding hit
closes x [] = 0
closes x (opened y ∷ l) = closes x l
closes x (closed y ∷ l) = hit x y + closes x l
closes x (asked n ∷ l) = closes x l

-- From `s` to `s'`, the descriptor `x` has been opened `n` times more than it has been closed.
unfoldable pub Leaves : ℤ → Files → Files → ℕ → Type 0
Leaves x s s' n = opens x s'.log + closes x s.log ≡ n + opens x s.log + closes x s'.log

unfoldable held : ℤ → Option GpuDevice → ℕ
held x none = 0
held x (some d) = hit x d.fd

-- How many of the devices have the descriptor `x`.
unfoldable pub holders : ℤ → List GpuDevice → ℕ
unfolding hit
holders x [] = 0
holders x (d ∷ ds) = hit x d.fd + holders x ds

-- The devices that a test picks, and the last one of them or `found`.
module _ (picks : GpuDevice → Bool) where
  unfoldable pub at_address : List GpuDevice → List GpuDevice
  at_address [] = []
  at_address (d ∷ ds) = let rest = at_address ds in if picks d then d ∷ rest else rest

  unfoldable pub last_of : Option GpuDevice → List GpuDevice → Option GpuDevice
  last_of found [] = found
  last_of found (d ∷ ds) = last_of (if picks d then some d else found) ds

-- The files of /dev/dri are character devices of drm, they are opened with a descriptor above 0, and
-- the address of each is known and stays as it is.
pub record Sound (sys : Sys) (where_is : GpuDevice → PciAddress) : Type 0 where
  pub stat_ret : (l : Events) (fd : ℤ) → is_neg (sys.fstat l fd).ret ≡ false
  pub chr : (l : Events) (fd : ℤ) → (sys.fstat l fd).is_chr ≡ true
  pub drm : (l : Events) (fd : ℤ) → ((sys.fstat l fd).major == drm_major) ≡ true
  pub not_stdin : (l : Events) (n : String) → is_zero (sys.open_file l n) ≡ false
  pub located : (l : Events) (d : GpuDevice) → sys.pci_info l d ≡ (pos 0, where_is d)

module _ (sys : Sys) (where_is : GpuDevice → PciAddress) (sound : Sound sys where_is) (x : ℤ) where
  -- Every device that has been opened has a descriptor that closing it closes.
  unfoldable pub Open : List GpuDevice → Type 0
  Open [] = zero ≡ zero
  Open (d ∷ ds) = ((is_neg d.fd || is_zero d.fd) ≡ false) × Open ds

  Leaves-gpu_open_device :
      (d : GpuDevice) (name : String) (s : Files)
      → Leaves x s (gpu_open_device sys d name s).2 (held x (gpu_open_device sys d name s).1)
  unfolding Leaves gpu_open_device check_device held opens closes
  Leaves-gpu_open_device d name s =
      let fd = sys.open_file s.log name in
      let l = opened fd ∷ s.log in
      elim (Bool-cases (is_neg fd)) [
        | inl b ↦ simp b (omega arith)
        | inr b ↦ simp (b, sound.stat_ret l fd, sound.chr l fd, sound.drm l fd) (omega arith)
      ]

  Leaves-try_entry :
      (t : DeviceType) (ret : ℤ) (i : ℕ) (e : DirEntry) (s : Files)
      → Leaves x s (try_entry sys t ret i e s).2 (held x (try_entry sys t ret i e s).1)
  unfolding Leaves try_entry held
  Leaves-try_entry t ret i e s = elim (Bool-cases e.is_hidden) [
    | inl h ↦ simp h (omega arith)
    | inr h ↦ elim (Bool-cases (type_code t == type_code (get_device_type_by_name e))) [
      | inl g ↦
          simp (h, g)
            (Leaves-gpu_open_device
              (record { fd = pos 0; index = i; major = 0; minor = 0; type = t }) e.name s)
      | inr g ↦ simp (h, g) (omega arith)
    ]
  ]

  holders-collect :
      (o : Option GpuDevice) (ds : List GpuDevice)
      → holders x (collect o ds) ≡ held x o + holders x ds
  unfolding holders held
  holders-collect none ds = omega arith
  holders-collect (some d) ds = refl

  pub Leaves-scan :
      (t : DeviceType) (ret : ℤ) (i : ℕ) (es : List DirEntry) (s : Files)
      → Leaves x s (scan sys t ret i es s).2 (holders x (scan sys t ret i es s).1)
  unfolding Leaves scan holders
  Leaves-scan t ret i [] s = omega arith
  Leaves-scan t ret i (e ∷ es) s =
      let r = try_entry sys t ret i e s in
      let here = Leaves-try_entry t ret i e s in
      let rest = Leaves-scan t r.0 (count_in r.1 i) es r.2 in
      let both = holders-collect r.1 (scan sys t r.0 (count_in r.1 i) es r.2).1 in
      omega (arith, here, rest, both)

  IsOpen : Option GpuDevice → Type 0
  IsOpen none = zero ≡ zero
  IsOpen (some d) = (is_neg d.fd || is_zero d.fd) ≡ false

  IsOpen-gpu_open_device :
      (d : GpuDevice) (name : String) (s : Files) → IsOpen (gpu_open_device sys d name s).1
  unfolding IsOpen gpu_open_device check_device
  IsOpen-gpu_open_device d name s =
      let fd = sys.open_file s.log name in
      let l = opened fd ∷ s.log in
      elim (Bool-cases (is_neg fd)) [
        | inl b ↦ simp b refl
        | inr b ↦
            simp (b, sound.stat_ret l fd, sound.chr l fd, sound.drm l fd)
              (simp (sound.not_stdin s.log name) refl)
      ]

  IsOpen-try_entry :
      (t : DeviceType) (ret : ℤ) (i : ℕ) (e : DirEntry) (s : Files)
      → IsOpen (try_entry sys t ret i e s).1
  unfolding IsOpen try_entry
  IsOpen-try_entry t ret i e s = elim (Bool-cases e.is_hidden) [
    | inl h ↦ simp (h, try_entry) refl
    | inr h ↦ elim (Bool-cases (type_code t == type_code (get_device_type_by_name e))) [
      | inl g ↦
          simp (h, g, try_entry)
            (IsOpen-gpu_open_device
              (record { fd = pos 0; index = i; major = 0; minor = 0; type = t }) e.name s)
      | inr g ↦ simp (h, g, try_entry) refl
    ]
  ]

  pub Open-scan :
      (t : DeviceType) (ret : ℤ) (i : ℕ) (es : List DirEntry) (s : Files)
      → Open (scan sys t ret i es s).1
  unfolding Open scan IsOpen
  Open-scan t ret i [] s = refl
  Open-scan t ret i (e ∷ es) s =
      let r = try_entry sys t ret i e s in
      join r.1 (scan sys t r.0 (count_in r.1 i) es r.2).1 (IsOpen-try_entry t ret i e s)
        (Open-scan t r.0 (count_in r.1 i) es r.2)
    where
      join : (o : Option GpuDevice) (ds : List GpuDevice) → IsOpen o → Open ds → Open (collect o ds)
      join none ds a b = b
      join (some d) ds a b = (a, b)
