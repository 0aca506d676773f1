-- ===== src/Core/Handles/Numbered.antt =====
-- The numbers of the cards and the room in their array (core/gpudevice.c).
use amdtop.Base.{
  ℕ, zero, suc, ◌+◌, ◌≡◌, Bool, true, false, ◌||◌, ◌&&◌, Option, none, some, List, [], ◌∷◌, ℤ, pos,
  is_some, is_neg, ltb, leb, length, refl, arith, ap, ◌∙◌, sym, inl, inr, Bool-cases, ◌==◌,
}
use Prim.Native.String.{String}
use amdtop.Core.Handles.{
  Events, DeviceType, GpuDevice, DirEntry, Files, Sys, asked, opened, check_device, gpu_open_device,
  try_entry, scan, gpu_get_devices, count_in, collect, type_code, get_device_type_by_name,
  gpu_max_card_support, drm_major,
}

-- The devices are numbered from `i` on, and all of the type `t`.
unfoldable pub Numbered : DeviceType → ℕ → List GpuDevice → Type 0
Numbered t i [] = zero ≡ zero
Numbered t i (d ∷ ds) = (d.index ≡ i) × (d.type ≡ t) × Numbered t (suc i) ds

-- What an attempt yields is a device with the number and the type that it was given.
unfoldable Fits : DeviceType → ℕ → Option GpuDevice → Type 0
Fits t i none = zero ≡ zero
Fits t i (some d) = (d.index ≡ i) × (d.type ≡ t)

module _ (sys : Sys) (t : DeviceType) where
  Fits-check_device :
      (i : ℕ) (d : GpuDevice) (fd : ℤ) (s : Files)
      → d.index ≡ i
      → d.type ≡ t
      → Fits t i (check_device sys d fd s).1
  unfolding check_device Fits
  Fits-check_device i d fd s e f =
      let st = sys.fstat s.log fd in
      elim (Bool-cases (is_neg st.ret)) [
        | inl b ↦ simp (b, check_device) refl
        | inr b ↦ elim (Bool-cases (st.is_chr && (st.major == drm_major))) [
          | inl g ↦ simp (b, g, check_device) (e, f)
          | inr g ↦ simp (b, g, check_device) refl
        ]
      ]

  Fits-gpu_open_device :
      (i : ℕ) (d : GpuDevice) (name : String) (s : Files)
      → d.index ≡ i
      → d.type ≡ t
      → Fits t i (gpu_open_device sys d name s).1
  unfolding gpu_open_device Fits
  Fits-gpu_open_device i d name s e f =
      let fd = sys.open_file s.log name in
      elim (Bool-cases (is_neg fd)) [
        | inl b ↦ simp (b, gpu_open_device) refl
        | inr b ↦
            simp (b, gpu_open_device)
              (Fits-check_device i d fd (record s { log = opened fd ∷ s.log }) e f)
      ]

  Fits-try_entry :
      (ret : ℤ) (i : ℕ) (e : DirEntry) (s : Files) → Fits t i (try_entry sys t ret i e s).1
  unfolding try_entry Fits
  Fits-try_entry ret i e s = elim (Bool-cases e.is_hidden) [
    | inl h ↦ simp (h, try_entry) refl
    | inr h ↦ elim (Bool-cases (type_code t == type_code (get_device_type_by_name e))) [
      | inl g ↦
          simp (h, g, try_entry)
            (Fits-gpu_open_device i
              (record { fd = pos 0; index = i; major = 0; minor = 0; type = t }) e.name s refl refl)
      | inr g ↦ simp (h, g, try_entry) refl
    ]
  ]

  Numbered-collect :
      (o : Option GpuDevice) (i : ℕ) (ds : List GpuDevice)
      → Fits t i o
      → Numbered t (count_in o i) ds
      → Numbered t i (collect o ds)
  unfolding Fits Numbered
  Numbered-collect none i ds f n = n
  Numbered-collect (some d) i ds (e, f) n = (e, f, n)

  Numbered-scan :
      (ret : ℤ) (i : ℕ) (es : List DirEntry) (s : Files) → Numbered t i (scan sys t ret i es s).1
  unfolding scan Numbered
  Numbered-scan ret i [] s = refl
  Numbered-scan ret i (e ∷ es) s =
      let (r, o, s') = try_entry sys t ret i e s in
      Numbered-collect o i (scan sys t r (count_in o i) es s').1 (Fits-try_entry ret i e s)
        (Numbered-scan r (count_in o i) es s')

  fault-gpu_open_device :
      (d : GpuDevice) (name : String) (s : Files) → (gpu_open_device sys d name s).2.fault ≡ s.fault
  unfolding gpu_open_device check_device
  fault-gpu_open_device d name s = ground arith

  fault-try_entry :
      (ret : ℤ) (i : ℕ) (e : DirEntry) (s : Files)
      → (try_entry sys t ret i e s).2.fault
        ≡ (s.fault || (is_some (try_entry sys t ret i e s).1 && leb gpu_max_card_support i))
  unfolding try_entry
  fault-try_entry ret i e s =
      let d : GpuDevice = record { fd = pos 0; index = i; major = 0; minor = 0; type = t } in
      let same = fault-gpu_open_device d e.name s in
      elim (Bool-cases e.is_hidden) [
        | inl h ↦ simp h (sym (or_false s.fault))
        | inr h ↦ elim (Bool-cases (type_code t == type_code (get_device_type_by_name e))) [
          | inl g ↦
              simp (h, g)
                (ap (λ f. f || (is_some (gpu_open_device sys d e.name s).1 && leb 8 i)) same)
          | inr g ↦ simp (h, g) (sym (or_false s.fault))
        ]
      ]
    where
      or_false : (b : Bool) → (b || false) ≡ b
      or_false true = refl
      or_false false = refl

  fault-scan :
      (ret : ℤ) (i : ℕ) (es : List DirEntry) (s : Files)
      → (scan sys t ret i es s).2.fault ≡ (
          s.fault
          || (ltb gpu_max_card_support (i + length (scan sys t ret i es s).1)
              && ltb 0 (length (scan sys t ret i es s).1)))
  unfolding scan
  fault-scan ret i [] s = ground arith
  fault-scan ret i (e ∷ es) s =
      let r = try_entry sys t ret i e s in
      join r.1 (scan sys t r.0 (count_in r.1 i) es r.2).1 s.fault r.2.fault
        (scan sys t r.0 (count_in r.1 i) es r.2).2.fault (fault-try_entry ret i e s)
        (fault-scan r.0 (count_in r.1 i) es r.2)
    where
      join :
          (o : Option GpuDevice) (ds : List GpuDevice) (a b c : Bool)
          → b ≡ (a || (is_some o && leb gpu_max_card_support i))
          → c ≡ (b || (ltb gpu_max_card_support (count_in o i + length ds) && ltb 0 (length ds)))
          → c ≡ (
              a
              || (ltb gpu_max_card_support (i + length (collect o ds))
                  && ltb 0 (length (collect o ds))))
      join none ds a b c e f = ground arith
      join (some d) ds a b c e f = ground arith

-- When its allocation succeeds, gpuGetDevices returns devices of the type asked for, numbered from 0 in
-- their order, and it writes behind the end of its array of eight exactly when there are more than eight.
pub gpu_get_devices-Numbered :
    (sys : Sys) (t : DeviceType) (s : Files)
    → ((l : Events) (n : ℕ) → sys.alloc l n ≡ true)
    → s.fault ≡ false
    → Numbered t 0 (gpu_get_devices sys t s).1
      × ((gpu_get_devices sys t s).2.fault
          ≡ ltb gpu_max_card_support (length (gpu_get_devices sys t s).1))
unfolding gpu_get_devices
gpu_get_devices-Numbered sys t s room e =
    let s' = record s { log = asked "readdir" ∷ s.log } in
    let r = scan sys t (pos 0) 0 (sys.entries s.log) s' in
    let given = room r.2.log (length r.1) in
    let f = fault-scan sys t (pos 0) 0 (sys.entries s.log) s' in
    (
      simp given (Numbered-scan sys t (pos 0) 0 (sys.entries s.log) s'),
      simp given (f ∙ from_none s.fault (length r.1) e),
    )
  where
    from_none :
        (b : Bool) (n : ℕ)
        → b ≡ false
        → (b || (ltb gpu_max_card_support (0 + n) && ltb 0 n)) ≡ ltb gpu_max_card_support n
    from_none b n e = ground arith
