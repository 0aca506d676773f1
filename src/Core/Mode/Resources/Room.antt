-- ===== src/Core/Mode/Resources/Room.antt =====
-- The sizes of the blocks that `gpuGetModeResouce` (core/gpumode.c) allocates and copies.
use amdtop.Base.{
  ℕ, Bool, true, false, not, Option, none, some, List, ◌∷◌, ap, if◌then◌else◌, ◌==◌, ◌≡◌, refl, ◌∙◌,
  ◌⊎◌, inl, inr, arith,
}
use mathlib.Core.Path.{subst}
use amdtop.Core.Heap.{
  block, took, Block, Heap, alloc, alloc_some, is_missing, free, write, copy, size_of,
}
use amdtop.Core.Mode.{Counts, Arrays, Sys}
use amdtop.Core.Mode.Resources.{
  free_temps, free_arrays, alloc_next, alloc_temps, duplicate, duplicate_all, same_counts,
}

pub same_counts-≡ :
    (a b : Counts)
    → same_counts a b ≡ true
    → (a.fbs ≡ b.fbs)
      × (a.crtcs ≡ b.crtcs)
      × (a.encoders ≡ b.encoders)
      × (a.connectors ≡ b.connectors)
same_counts-≡ a b e = ground arith

pub fault-free : (b : Option Block) (h : Heap) → (free b h).fault ≡ h.fault
unfolding free
fault-free none h = refl
fault-free (some b) h = refl

pub fault-free_temps : (a : Arrays) (h : Heap) → (free_temps a h).fault ≡ h.fault
unfolding free_temps
fault-free_temps a h =
    fault-free a.connector_ids _
    ∙ fault-free a.encoder_ids _
    ∙ fault-free a.crtc_ids _
    ∙ fault-free a.fb_ids h

pub fault-free_arrays : (a : Arrays) (h : Heap) → (free_arrays a h).fault ≡ h.fault
unfolding free_arrays
fault-free_arrays a h =
    fault-free a.fb_ids _
    ∙ fault-free a.crtc_ids _
    ∙ fault-free a.encoder_ids _
    ∙ fault-free a.connector_ids h

pub size_of-write : (xs : List ℕ) (b : Option Block) → size_of (write xs b) ≡ size_of b
size_of-write xs none = refl
size_of-write xs (some b) = refl

-- The four pointers have room for what the first answer promised.
unfoldable pub Room : Counts → Arrays → Type 0
Room c a =
    (size_of a.fb_ids ≡ c.fbs)
    × (size_of a.crtc_ids ≡ c.crtcs)
    × (size_of a.encoder_ids ≡ c.encoders)
    × (size_of a.connector_ids ≡ c.connectors)

module _ (sys : Sys) where
  fault-alloc_some : (n : ℕ) (h : Heap) → (alloc_some sys.malloc n h).1.fault ≡ h.fault
  unfolding alloc_some alloc
  fault-alloc_some n h = step (n == 0)
    where
      step : (b : Bool) → (if b then (none, h) else alloc sys.malloc n h).1.fault ≡ h.fault
      step true = refl
      step false = refl

  pub fault-alloc_next : (ok : Bool) (n : ℕ) (h : Heap) → (alloc_next sys ok n h).2.fault ≡ h.fault
  unfolding alloc_next
  fault-alloc_next false n h = refl
  fault-alloc_next true n h = fault-alloc_some n h

  missing-none : (n : ℕ) → not (is_missing n none) ≡ true → size_of none ≡ n
  missing-none n e = ground arith

  size_of-room :
      (n : ℕ) (b : Option Block)
      → (size_of b ≡ n) ⊎ (b ≡ none)
      → not (is_missing n b) ≡ true
      → size_of b ≡ n
  size_of-room n b (inl e) room = e
  size_of-room n b (inr e) room =
      ap size_of e ∙ missing-none n (subst (λ x. not (is_missing n x) ≡ true) e room)

  size_of-alloc_some :
      (n : ℕ) (h : Heap)
      → (size_of (alloc_some sys.malloc n h).0 ≡ n) ⊎ ((alloc_some sys.malloc n h).0 ≡ none)
  unfolding alloc_some alloc
  size_of-alloc_some n h = step (n == 0) (sys.malloc h.log)
    where
      made : Bool → Option ℕ → Option Block × Heap
      made b p = if b then (none, h) else (block n p, record h { log = took p ∷ h.log })

      step : (b : Bool) (p : Option ℕ) → (size_of (made b p).0 ≡ n) ⊎ ((made b p).0 ≡ none)
      step true p = inr refl
      step false none = inr refl
      step false (some p) = inl refl

  -- A pointer for n elements has room for n elements, when the allocations up to it have not failed.
  pub size_of-alloc_next :
      (ok : Bool) (n : ℕ) (h : Heap)
      → (alloc_next sys ok n h).0 ≡ true
      → (size_of (alloc_next sys ok n h).1 ≡ n) × (ok ≡ true)
  unfolding alloc_next
  size_of-alloc_next false n h e = ground arith
  size_of-alloc_next true n h e =
      (size_of-room n (alloc_some sys.malloc n h).0 (size_of-alloc_some n h) e, refl)

  pub fault-duplicate :
      (n : ℕ) (src : Option Block) (h : Heap)
      → size_of src ≡ n
      → (duplicate sys n src h).1.fault ≡ h.fault
  unfolding duplicate copy
  fault-duplicate n src h e =
      step (alloc_some sys.malloc n h).0 (size_of-alloc_some n h) ∙ fault-alloc_some n h
    where
      step :
          (d : Option Block)
          → (size_of d ≡ n) ⊎ (d ≡ none)
          → (copy n d src (alloc_some sys.malloc n h).1).1.fault
            ≡ (alloc_some sys.malloc n h).1.fault
      step none room = refl
      step (some d) (inl room) = ground (arith, e, room)
      step (some d) (inr missing) = cc

  pub fault-duplicate_all :
      (c : Counts) (a : Arrays) (h : Heap)
      → size_of a.fb_ids ≡ c.fbs
      → size_of a.crtc_ids ≡ c.crtcs
      → size_of a.encoder_ids ≡ c.encoders
      → size_of a.connector_ids ≡ c.connectors
      → (duplicate_all sys c a h).1.fault ≡ h.fault
  unfolding duplicate_all
  fault-duplicate_all c a h e1 e2 e3 e4 =
      fault-duplicate c.fbs a.fb_ids _ e1
      ∙ fault-duplicate c.crtcs a.crtc_ids _ e2
      ∙ fault-duplicate c.encoders a.encoder_ids _ e3
      ∙ fault-duplicate c.connectors a.connector_ids h e4

  pub fault-alloc_temps : (c : Counts) (h : Heap) → (alloc_temps sys c h).2.fault ≡ h.fault
  unfolding alloc_temps
  fault-alloc_temps c h =
      fault-alloc_next _ c.fbs _
      ∙ fault-alloc_next _ c.crtcs _
      ∙ fault-alloc_next _ c.encoders _
      ∙ fault-alloc_next true c.connectors h

  pub Room-alloc_temps :
      (c : Counts) (h : Heap) → (alloc_temps sys c h).0 ≡ true → Room c (alloc_temps sys c h).1
  unfolding alloc_temps Room
  Room-alloc_temps c h ok =
      let connectors = alloc_next sys true c.connectors h in
      let encoders = alloc_next sys connectors.0 c.encoders connectors.2 in
      let crtcs = alloc_next sys encoders.0 c.crtcs encoders.2 in
      let (s4, ok3) = size_of-alloc_next crtcs.0 c.fbs crtcs.2 ok in
      let (s3, ok2) = size_of-alloc_next encoders.0 c.crtcs encoders.2 ok3 in
      let (s2, ok1) = size_of-alloc_next connectors.0 c.encoders connectors.2 ok2 in
      let (s1, ok0) = size_of-alloc_next true c.connectors h ok1 in (s4, s3, s2, s1)
