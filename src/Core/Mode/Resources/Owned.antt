-- ===== src/Core/Mode/Resources/Owned.antt =====
-- Who owns the blocks that `gpuGetModeResouce` allocates (core/gpumode.c).
use amdtop.Base.{
  ℕ, zero, suc, ◌+◌, Bool, true, false, not, Option, none, some, if◌then◌else◌, ℤ, pos, negsuc,
  is_zero, enomem, ◌≡◌, refl, sym, arith,
}
use mathlib.Core.Path.{subst}
use amdtop.Core.Heap.{Block, Heap, ask, alloc, alloc_some}
use amdtop.Core.Heap.Ledger.{
  held, Owes, Owes-refl, Owes-alloc, Owes-alloc_some, Owes-free, Owes-ask, Owes-copy, held-copy,
  held-write,
}
use amdtop.Core.Mode.{Counts, Arrays, ModeResource, CardReply, Sys}
use amdtop.Core.Mode.Settled.{Settled}
use amdtop.Core.Mode.Resources.{
  fill, free_temps, free_arrays, alloc_next, alloc_temps, duplicate, duplicate_all, is_incomplete,
  build, get_mode_resource, free_mode_resource, same_counts,
}

unfoldable pub held_all : ℕ → Arrays → ℕ
held_all q a = held q a.fb_ids + held q a.crtc_ids + held q a.encoder_ids + held q a.connector_ids

-- The blocks that belong to a result.
unfoldable pub owned : ℕ → ModeResource → ℕ
owned q r = held q r.self + held_all q r.arrays

Owes-free_temps :
    (q : ℕ) (h h' : Heap) (a : Arrays) (n : ℕ)
    → Owes q h h' (held_all q a + n)
    → Owes q h (free_temps a h') n
unfolding Owes held_all free_temps
Owes-free_temps q h h' a n e = Owes-free q h _ a.connector_ids n (
    Owes-free q h _ a.encoder_ids (held q a.connector_ids + n) (
      Owes-free q h _ a.crtc_ids (held q a.encoder_ids + (held q a.connector_ids + n)) (
        Owes-free q h h' a.fb_ids
          (held q a.crtc_ids + (held q a.encoder_ids + (held q a.connector_ids + n)))
          (omega arith))))

Owes-free_arrays :
    (q : ℕ) (h h' : Heap) (a : Arrays) (n : ℕ)
    → Owes q h h' (held_all q a + n)
    → Owes q h (free_arrays a h') n
unfolding Owes held_all free_arrays
Owes-free_arrays q h h' a n e = Owes-free q h _ a.fb_ids n (
    Owes-free q h _ a.crtc_ids (held q a.fb_ids + n) (
      Owes-free q h _ a.encoder_ids (held q a.crtc_ids + (held q a.fb_ids + n)) (
        Owes-free q h h' a.connector_ids
          (held q a.encoder_ids + (held q a.crtc_ids + (held q a.fb_ids + n))) (omega arith))))

module _ (sys : Sys) (q : ℕ) where
  pub Owes-alloc_next :
      (ok : Bool) (n : ℕ) (h : Heap)
      → Owes q h (alloc_next sys ok n h).2 (held q (alloc_next sys ok n h).1)
  unfolding alloc_next held
  Owes-alloc_next false n h = Owes-refl q h
  Owes-alloc_next true n h = Owes-alloc_some sys.malloc q n h

  Owes-alloc_temps :
      (c : Counts) (h : Heap)
      → Owes q h (alloc_temps sys c h).2 (held_all q (alloc_temps sys c h).1)
  unfolding alloc_temps held_all Owes
  Owes-alloc_temps c h =
      let connectors = alloc_next sys true c.connectors h in
      let encoders = alloc_next sys connectors.0 c.encoders connectors.2 in
      let crtcs = alloc_next sys encoders.0 c.crtcs encoders.2 in
      let e1 = Owes-alloc_next true c.connectors h in
      let e2 = Owes-alloc_next connectors.0 c.encoders connectors.2 in
      let e3 = Owes-alloc_next encoders.0 c.crtcs encoders.2 in
      let e4 = Owes-alloc_next crtcs.0 c.fbs crtcs.2 in omega arith

  pub Owes-duplicate :
      (n : ℕ) (src : Option Block) (h : Heap)
      → Owes q h (duplicate sys n src h).1 (held q (duplicate sys n src h).0)
  unfolding duplicate Owes
  Owes-duplicate n src h =
      let made = alloc_some sys.malloc n h in
      let e1 = Owes-alloc_some sys.malloc q n h in
      let e2 = Owes-copy q n made.0 src made.1 in
      let e3 = held-copy q n made.0 src made.1 in omega arith

  Owes-duplicate_all :
      (c : Counts) (a : Arrays) (h : Heap)
      → Owes q h (duplicate_all sys c a h).1 (held_all q (duplicate_all sys c a h).0)
  unfolding duplicate_all held_all Owes
  Owes-duplicate_all c a h =
      let connectors = duplicate sys c.connectors a.connector_ids h in
      let encoders = duplicate sys c.encoders a.encoder_ids connectors.1 in
      let crtcs = duplicate sys c.crtcs a.crtc_ids encoders.1 in
      let e1 = Owes-duplicate c.connectors a.connector_ids h in
      let e2 = Owes-duplicate c.encoders a.encoder_ids connectors.1 in
      let e3 = Owes-duplicate c.crtcs a.crtc_ids encoders.1 in
      let e4 = Owes-duplicate c.fbs a.fb_ids crtcs.1 in omega arith

  held_all-fill : (r : CardReply) (a : Arrays) → held_all q (fill r a) ≡ held_all q a
  unfolding held_all
  held_all-fill r a =
      let e1 = held-write q r.fb_ids a.fb_ids in
      let e2 = held-write q r.crtc_ids a.crtc_ids in
      let e3 = held-write q r.encoder_ids a.encoder_ids in
      let e4 = held-write q r.connector_ids a.connector_ids in omega arith

  -- The end of `build` for an allocated or a missing struct.
  Settled-build :
      (h0 : Heap) (c : Counts) (temps : Arrays) (h : Heap)
      → Owes q h0 h (held_all q temps)
      → Settled (owned q) q h0 (build sys c temps h)
  unfolding build Owes Settled owned held held_all
  Settled-build h0 c temps h e = finish self refl (is_incomplete c arrays)
    where
      self : Option Block
      self = (alloc sys.malloc 1 h).0

      h1 : Heap
      h1 = (alloc sys.malloc 1 h).1

      arrays : Arrays
      arrays = (duplicate_all sys c temps h1).0

      h2 : Heap
      h2 = (duplicate_all sys c temps h1).1

      after_self : Owes q h0 h1 (held q self + held_all q temps)
      after_self = let e1 = Owes-alloc sys.malloc q 1 h in omega arith

      finish :
          (s : Option Block)
          → s ≡ self
          → (b : Bool)
          → Settled (owned q) q h0 (elim s [
            | none ↦ (pos 0, none, free_temps temps h1)
            | some p ↦
                if b
                then (
                  enomem,
                  some (record { self = self; counts = c; arrays = arrays }),
                  free_arrays arrays h2,
                )
                else (
                  pos 0,
                  some (record { self = self; counts = c; arrays = arrays }),
                  free_temps temps h2,
                )
          ])
      finish none e' b = Owes-free_temps q h0 h1 temps 0 (
          let t = subst (λ s. Owes q h0 h1 (held q s + held_all q temps)) (sym e') after_self in
          omega arith)
      finish (some p) e' true = tt
      finish (some p) e' false =
          Owes-free_temps q h0 h2 temps (held q self + held_all q arrays)
            (let a = after_self in let e2 = Owes-duplicate_all c temps h1 in omega arith)

  SettledOption : Heap → Option (ℤ × Option ModeResource × Heap) → Type 0
  SettledOption h none = Unit {0}
  SettledOption h (some r) = Settled (owned q) q h r

  -- `gpuGetModeResouce` under its two tests of a result and its test of the allocations.
  Settled-guards :
      (h h1 h2 h3 : Heap) (first second : ℤ) (ok same : Bool)
      (built : ℤ × Option ModeResource × Heap) (retry : Option (ℤ × Option ModeResource × Heap))
      → Owes q h h1 0
      → Owes q h h2 0
      → Settled (owned q) q h built
      → SettledOption h retry
      → SettledOption h (
          if not (is_zero first)
          then some (first, none, h1)
          else (if not ok
              then some (first, none, h2)
              else (if not (is_zero second)
                  then some (second, none, h3)
                  else (if same then some built else retry))))
  unfolding SettledOption Settled
  Settled-guards h h1 h2 h3 (pos (suc n)) second ok same built retry e1 e2 e3 e4 = tt
  Settled-guards h h1 h2 h3 (negsuc n) second ok same built retry e1 e2 e3 e4 = tt
  Settled-guards h h1 h2 h3 (pos zero) second false same built retry e1 e2 e3 e4 = e2
  Settled-guards h h1 h2 h3 (pos zero) (pos (suc n)) true same built retry e1 e2 e3 e4 = tt
  Settled-guards h h1 h2 h3 (pos zero) (negsuc n) true same built retry e1 e2 e3 e4 = tt
  Settled-guards h h1 h2 h3 (pos zero) (pos zero) true true built retry e1 e2 e3 e4 = e3
  Settled-guards h h1 h2 h3 (pos zero) (pos zero) true false built retry e1 e2 e3 e4 = e4

  Settled-get :
      (fuel : ℕ) (h0 h : Heap) → Owes q h0 h 0 → SettledOption h0 (get_mode_resource sys fuel h)
  unfolding get_mode_resource SettledOption Owes
  Settled-get zero h0 h e = tt
  Settled-get (suc fuel) h0 h e =
      let first = sys.resources h.log in
      let asked_once = ask "GETRESOURCES" h in
      let made = alloc_temps sys first.counts asked_once in
      let second = sys.resources (made.2).log in
      let filled = fill second made.1 in
      let h2 = ask "GETRESOURCES" made.2 in
      let e1 = Owes-ask q "GETRESOURCES" h in
      let e2 = Owes-alloc_temps first.counts asked_once in
      let e3 = Owes-ask q "GETRESOURCES" made.2 in
      let e4 = held_all-fill second made.1 in
      let full : Owes q h0 h2 (held_all q filled) = omega arith in
      Settled-guards h0 asked_once (free_temps made.1 made.2) h2 first.ret second.ret made.0
        (same_counts first.counts second.counts) (build sys second.counts filled h2)
        (get_mode_resource sys fuel (free_temps filled h2)) (omega arith)
        (Owes-free_temps q h0 made.2 made.1 0 (omega arith))
        (Settled-build h0 second.counts filled h2 full)
        (Settled-get fuel h0 (free_temps filled h2)
          (Owes-free_temps q h0 h2 filled 0 (omega arith)))

-- When `gpuGetModeResouce` returns 0 with a result and `gpuFreeModeResource` is given that result, every
-- address has been freed exactly as often as it has been allocated since the first call, whatever the
-- kernel and the allocator answer.
pub free_mode_resource-get_mode_resource :
    (sys : Sys) (q fuel : ℕ) (h h' : Heap) (r : ModeResource)
    → get_mode_resource sys fuel h ≡ some (pos 0, some r, h')
    → Owes q h (free_mode_resource r h').1 0
unfolding free_mode_resource SettledOption Settled owned Owes
free_mode_resource-get_mode_resource sys q fuel h h' r e =
    let s : Owes q h h' (owned q r) = got in
    Owes-free q h _ r.self 0 (Owes-free_arrays q h h' r.arrays (held q r.self + 0) (omega arith))
  where
    got : Owes q h h' (owned q r)
    got = subst (SettledOption sys q h) e (Settled-get sys q fuel h h (Owes-refl q h))

-- When `gpuGetModeResouce` returns 0 without a result, every address has been
-- freed exactly as often as it has been allocated since the call.
pub get_mode_resource-none :
    (sys : Sys) (q fuel : ℕ) (h h' : Heap)
    → get_mode_resource sys fuel h ≡ some (pos 0, none, h')
    → Owes q h h' 0
unfolding SettledOption Settled
get_mode_resource-none sys q fuel h h' e =
    subst (SettledOption sys q h) e (Settled-get sys q fuel h h (Owes-refl q h))
