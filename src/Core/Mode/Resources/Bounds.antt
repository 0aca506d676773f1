-- ===== src/Core/Mode/Resources/Bounds.antt =====
-- `gpuGetModeResouce` (core/gpumode.c) stays inside the blocks that it has allocated, and comes to an
-- end.
use amdtop.Base.{
  ℕ, zero, suc, Bool, true, false, not, Option, none, some, if◌then◌else◌, ℤ, pos, negsuc, is_zero,
  is_some, enomem, ◌≡◌, refl, ◌∙◌, arith,
}
use mathlib.Core.Path.{subst}
use amdtop.Core.Heap.{Block, Heap, Events, ask, alloc, size_of}
use amdtop.Core.Mode.{Counts, Arrays, ModeResource, CardReply, Sys}
use amdtop.Core.Mode.Resources.{
  fill, free_temps, free_arrays, alloc_temps, duplicate_all, is_incomplete, build,
  get_mode_resource, same_counts,
}
use amdtop.Core.Mode.Resources.Room.{
  Room, Room-alloc_temps, same_counts-≡, fault-free_temps, fault-free_arrays, size_of-write,
  fault-duplicate_all, fault-alloc_temps,
}

-- A call after which no copy has read or written behind a block, if none had before.
Kept : Bool → ℤ × Option ModeResource × Heap → Type 0
Kept f (ret, r, h) = h.fault ≡ f

KeptOption : Bool → Option (ℤ × Option ModeResource × Heap) → Type 0
KeptOption f none = Unit {0}
KeptOption f (some r) = Kept f r

module _ (sys : Sys) where
  fault-build :
      (c : Counts) (a : Arrays) (h : Heap)
      → size_of a.fb_ids ≡ c.fbs
      → size_of a.crtc_ids ≡ c.crtcs
      → size_of a.encoder_ids ≡ c.encoders
      → size_of a.connector_ids ≡ c.connectors
      → Kept h.fault (build sys c a h)
  unfolding build alloc Kept
  fault-build c a h e1 e2 e3 e4 = finish (alloc sys.malloc 1 h).0 (is_incomplete c arrays)
    where
      h1 : Heap
      h1 = (alloc sys.malloc 1 h).1

      arrays : Arrays
      arrays = (duplicate_all sys c a h1).0

      h2 : Heap
      h2 = (duplicate_all sys c a h1).1

      res : ModeResource
      res = record { self = (alloc sys.malloc 1 h).0; counts = c; arrays = arrays }

      copied : h2.fault ≡ h.fault
      copied = fault-duplicate_all sys c a h1 e1 e2 e3 e4

      finish :
          (s : Option Block) (b : Bool)
          → Kept h.fault (elim s [
            | none ↦ (pos 0, none, free_temps a h1)
            | some p ↦
                if b
                then (enomem, some res, free_arrays arrays h2)
                else (pos 0, some res, free_temps a h2)
          ])
      finish none b = fault-free_temps a h1
      finish (some p) true = fault-free_arrays arrays h2 ∙ copied
      finish (some p) false = fault-free_temps a h2 ∙ copied

  Kept-guards :
      (f : Bool) (h1 h2 h3 : Heap) (first second : ℤ) (ok same : Bool)
      (built : ℤ × Option ModeResource × Heap) (retry : Option (ℤ × Option ModeResource × Heap))
      → h1.fault ≡ f
      → h2.fault ≡ f
      → h3.fault ≡ f
      → (ok ≡ true → same ≡ true → Kept f built)
      → KeptOption f retry
      → KeptOption f (
          if not (is_zero first)
          then some (first, none, h1)
          else (if not ok
              then some (first, none, h2)
              else (if not (is_zero second)
                  then some (second, none, h3)
                  else (if same then some built else retry))))
  unfolding KeptOption Kept
  Kept-guards f h1 h2 h3 (pos (suc n)) second ok same built retry e1 e2 e3 e4 e5 = e1
  Kept-guards f h1 h2 h3 (negsuc n) second ok same built retry e1 e2 e3 e4 e5 = e1
  Kept-guards f h1 h2 h3 (pos zero) second false same built retry e1 e2 e3 e4 e5 = e2
  Kept-guards f h1 h2 h3 (pos zero) (pos (suc n)) true same built retry e1 e2 e3 e4 e5 = e3
  Kept-guards f h1 h2 h3 (pos zero) (negsuc n) true same built retry e1 e2 e3 e4 e5 = e3
  Kept-guards f h1 h2 h3 (pos zero) (pos zero) true true built retry e1 e2 e3 e4 e5 = e4 refl refl
  Kept-guards f h1 h2 h3 (pos zero) (pos zero) true false built retry e1 e2 e3 e4 e5 = e5

  Kept-same :
      (r : CardReply) (c : Counts) (a : Arrays) (h : Heap)
      → same_counts c r.counts ≡ true
      → Room c a
      → Kept h.fault (build sys r.counts (fill r a) h)
  unfolding Room
  Kept-same r c a h same (e1, e2, e3, e4) =
      let (c1, c2, c3, c4) = same_counts-≡ c r.counts same in
      fault-build r.counts (fill r a) h (size_of-write r.fb_ids a.fb_ids ∙ e1 ∙ c1)
        (size_of-write r.crtc_ids a.crtc_ids ∙ e2 ∙ c2)
        (size_of-write r.encoder_ids a.encoder_ids ∙ e3 ∙ c3)
        (size_of-write r.connector_ids a.connector_ids ∙ e4 ∙ c4)

  Kept-get :
      (fuel : ℕ) (f : Bool) (h : Heap) → h.fault ≡ f → KeptOption f (get_mode_resource sys fuel h)
  unfolding get_mode_resource KeptOption Kept
  Kept-get zero f h e = tt
  Kept-get (suc fuel) f h e =
      let first = sys.resources h.log in
      let asked_once = ask "GETRESOURCES" h in
      let made = alloc_temps sys first.counts asked_once in
      let second = sys.resources (made.2).log in
      let filled = fill second made.1 in
      let h2 = ask "GETRESOURCES" made.2 in
      let same : (made.2).fault ≡ f = fault-alloc_temps sys first.counts asked_once ∙ e in
      Kept-guards f asked_once (free_temps made.1 made.2) h2 first.ret second.ret made.0
        (same_counts first.counts second.counts) (build sys second.counts filled h2)
        (get_mode_resource sys fuel (free_temps filled h2)) e
        (fault-free_temps made.1 made.2 ∙ same) same
        (λ ok counts.
          Kept-same second first.counts made.1 h2 counts
            (Room-alloc_temps sys first.counts asked_once ok)
          ∙ same)
        (Kept-get fuel f (free_temps filled h2) (fault-free_temps filled h2 ∙ same))

-- Whatever the kernel and the allocator answer, no copy in `gpuGetModeResouce` reads or writes behind the
-- end of a block.
pub fault-get_mode_resource :
    (sys : Sys) (fuel : ℕ) (h h' : Heap) (ret : ℤ) (r : Option ModeResource)
    → get_mode_resource sys fuel h ≡ some (ret, r, h')
    → h'.fault ≡ h.fault
unfolding KeptOption Kept
fault-get_mode_resource sys fuel h h' ret r e =
    subst (KeptOption h.fault) e (Kept-get sys fuel h.fault h refl)

-- When the kernel's counts do not change from one ioctl to the next, `gpuGetModeResouce` comes back
-- from its first attempt.
is_some-get_mode_resource :
    (sys : Sys) (fuel : ℕ) (h : Heap)
    → ((l l' : Events) → same_counts (sys.resources l).counts (sys.resources l').counts ≡ true)
    → is_some (get_mode_resource sys (suc fuel) h) ≡ true
unfolding get_mode_resource
is_some-get_mode_resource sys fuel h stable =
    let made = alloc_temps sys (sys.resources h.log).counts (ask "GETRESOURCES" h) in
    let same = stable h.log (made.2).log in ground (arith, same)
