-- ===== src/Core/Mode/Resources/Report.antt =====
-- `gpuGetModeResouce` (core/gpumode.c) hands on the ids that the kernel wrote.
use amdtop.Base.{
  ℕ, zero, suc, Bool, true, false, ◌||◌, not, Option, none, some, List, [], ◌∷◌, ◌++◌, ◌==◌, ap,
  if◌then◌else◌, ℤ, pos, negsuc, is_zero, enomem, ◌≡◌, refl, sym, ◌∙◌, ◌⊎◌, inl, inr, arith,
}
use mathlib.Core.Path.{subst}
use mathlib.Core.List.{append-nil}
use amdtop.Core.Heap.{
  Block, Heap, Events, ask, alloc, alloc_some, is_missing, write, block, took, copy, front, behind,
  size_of, words_of,
}
use amdtop.Core.Mode.{Counts, Arrays, ModeResource, CardReply, Sys}
use amdtop.Core.Mode.Resources.{
  fill, free_temps, free_arrays, alloc_temps, duplicate, duplicate_all, is_incomplete, build,
  get_mode_resource, same_counts,
}
use amdtop.Core.Mode.Resources.Room.{same_counts-≡, Room, Room-alloc_temps}

-- A result has the counts of an answer, and each of its arrays is empty or holds the first ids of
-- that answer, as many as the count.
pub record Reports (c : CardReply) (r : ModeResource) : Type 0 where
  pub counts : r.counts ≡ c.counts
  pub fbs : (c.counts.fbs ≡ 0) ⊎ (words_of r.arrays.fb_ids ≡ front c.counts.fbs c.fb_ids)
  pub crtcs : (c.counts.crtcs ≡ 0) ⊎ (words_of r.arrays.crtc_ids ≡ front c.counts.crtcs c.crtc_ids)
  pub encoders :
      (c.counts.encoders ≡ 0)
      ⊎ (words_of r.arrays.encoder_ids ≡ front c.counts.encoders c.encoder_ids)
  pub connectors :
      (c.counts.connectors ≡ 0)
      ⊎ (words_of r.arrays.connector_ids ≡ front c.counts.connectors c.connector_ids)

or-false : (a b : Bool) → (a || b) ≡ false → (a ≡ false) × (b ≡ false)
or-false true b e = ground arith
or-false false b e = (refl, e)

missing-zero : (n : ℕ) → is_missing n none ≡ false → n ≡ 0
missing-zero n e = ground arith

behind-nil : (n : ℕ) → behind n [] ≡ []
behind-nil zero = refl
behind-nil (suc n) = refl

module _ (sys : Sys) where
  words_of-alloc_some : (n : ℕ) (h : Heap) → words_of (alloc_some sys.malloc n h).0 ≡ []
  unfolding alloc_some alloc
  words_of-alloc_some n h = step (n == 0) (sys.malloc h.log)
    where
      made : Bool → Option ℕ → Option Block × Heap
      made b p = if b then (none, h) else (block n p, record h { log = took p ∷ h.log })

      step : (b : Bool) (p : Option ℕ) → words_of (made b p).0 ≡ []
      step true p = refl
      step false none = refl
      step false (some p) = refl

  words_of-duplicate :
      (n : ℕ) (ids : List ℕ) (temp : Option Block) (h : Heap)
      → size_of temp ≡ n
      → is_missing n (duplicate sys n (write ids temp) h).0 ≡ false
      → (n ≡ 0) ⊎ (words_of (duplicate sys n (write ids temp) h).0 ≡ front n ids)
  unfolding duplicate copy
  words_of-duplicate n ids none h e m = inl (sym e)
  words_of-duplicate n ids (some t) h e m =
      step (alloc_some sys.malloc n h).0 (words_of-alloc_some n h) m
    where
      h' : Heap
      h' = (alloc_some sys.malloc n h).1

      step :
          (d : Option Block)
          → words_of d ≡ []
          → is_missing n (copy n d (some (record t { words = ids })) h').0 ≡ false
          → (n ≡ 0) ⊎ (words_of (copy n d (some (record t { words = ids })) h').0 ≡ front n ids)
      step none blank m' = inl (missing-zero n m')
      step (some d) blank m' = inr (
          ap (λ ws. front n ids ++ behind n ws) blank
          ∙ (ap (λ ws. front n ids ++ ws) (behind-nil n) ∙ append-nil (front n ids)))

  Reports-duplicate_all :
      (c : CardReply) (temps : Arrays) (self : Option Block) (h : Heap)
      → Room c.counts temps
      → is_incomplete c.counts (duplicate_all sys c.counts (fill c temps) h).0 ≡ false
      → Reports c (record {
        self = self;
        counts = c.counts;
        arrays = (duplicate_all sys c.counts (fill c temps) h).0;
      })
  unfolding duplicate_all Room
  Reports-duplicate_all c temps self h (e1, e2, e3, e4) m =
      let n = c.counts in
      let a = fill c temps in
      let h1 = (duplicate sys n.connectors a.connector_ids h).1 in
      let h2 = (duplicate sys n.encoders a.encoder_ids h1).1 in
      let h3 = (duplicate sys n.crtcs a.crtc_ids h2).1 in
      let b1 = is_missing n.fbs (duplicate sys n.fbs a.fb_ids h3).0 in
      let b2 = is_missing n.connectors (duplicate sys n.connectors a.connector_ids h).0 in
      let b3 = is_missing n.crtcs (duplicate sys n.crtcs a.crtc_ids h2).0 in
      let b4 = is_missing n.encoders (duplicate sys n.encoders a.encoder_ids h1).0 in
      let (m123, m4) = or-false (b1 || b2 || b3) b4 m in
      let (m12, m3) = or-false (b1 || b2) b3 m123 in
      let (m1, m2) = or-false b1 b2 m12 in
      record {
        counts = refl;
        fbs = words_of-duplicate n.fbs c.fb_ids temps.fb_ids h3 e1 m1;
        crtcs = words_of-duplicate n.crtcs c.crtc_ids temps.crtc_ids h2 e2 m3;
        encoders = words_of-duplicate n.encoders c.encoder_ids temps.encoder_ids h1 e3 m4;
        connectors = words_of-duplicate n.connectors c.connector_ids temps.connector_ids h e4 m2;
      }

  -- A call that returns 0 with a result has it from an answer of the kernel.
  Told : ℤ × Option ModeResource × Heap → Type 0
  Told (pos zero, none, h) = Unit {0}
  Told (pos zero, some r, h) = (l : Events) × Reports (sys.resources l) r
  Told (pos (suc n), r, h) = Unit {0}
  Told (negsuc n, r, h) = Unit {0}

  ToldOption : Option (ℤ × Option ModeResource × Heap) → Type 0
  ToldOption none = Unit {0}
  ToldOption (some r) = Told r

  Told-build :
      (l : Events) (temps : Arrays) (h : Heap)
      → Room (sys.resources l).counts temps
      → Told (build sys (sys.resources l).counts (fill (sys.resources l) temps) h)
  unfolding build Told
  Told-build l temps h room = finish (alloc sys.malloc 1 h).0 (is_incomplete c.counts arrays) refl
    where
      c : CardReply
      c = sys.resources l

      filled : Arrays
      filled = fill c temps

      h1 : Heap
      h1 = (alloc sys.malloc 1 h).1

      arrays : Arrays
      arrays = (duplicate_all sys c.counts filled h1).0

      h2 : Heap
      h2 = (duplicate_all sys c.counts filled h1).1

      res : ModeResource
      res = record { self = (alloc sys.malloc 1 h).0; counts = c.counts; arrays = arrays }

      finish :
          (s : Option Block) (b : Bool)
          → is_incomplete c.counts arrays ≡ b
          → Told (elim s [
            | none ↦ (pos 0, none, free_temps filled h1)
            | some p ↦
                if b
                then (enomem, some res, free_arrays arrays h2)
                else (pos 0, some res, free_temps filled h2)
          ])
      finish none b e = tt
      finish (some p) true e = tt
      finish (some p) false e =
          (l, Reports-duplicate_all c temps (alloc sys.malloc 1 h).0 h1 room e)

  Told-guards :
      (h1 h2 h3 : Heap) (first second : ℤ) (ok same : Bool) (built : ℤ × Option ModeResource × Heap)
      (retry : Option (ℤ × Option ModeResource × Heap))
      → (ok ≡ true → same ≡ true → Told built)
      → ToldOption retry
      → ToldOption (
          if not (is_zero first)
          then some (first, none, h1)
          else (if not ok
              then some (first, none, h2)
              else (if not (is_zero second)
                  then some (second, none, h3)
                  else (if same then some built else retry))))
  unfolding ToldOption Told
  Told-guards h1 h2 h3 (pos (suc n)) second ok same built retry e4 e5 = tt
  Told-guards h1 h2 h3 (negsuc n) second ok same built retry e4 e5 = tt
  Told-guards h1 h2 h3 (pos zero) second false same built retry e4 e5 = tt
  Told-guards h1 h2 h3 (pos zero) (pos (suc n)) true same built retry e4 e5 = tt
  Told-guards h1 h2 h3 (pos zero) (negsuc n) true same built retry e4 e5 = tt
  Told-guards h1 h2 h3 (pos zero) (pos zero) true true built retry e4 e5 = e4 refl refl
  Told-guards h1 h2 h3 (pos zero) (pos zero) true false built retry e4 e5 = e5

  Room-same : (c c' : Counts) (a : Arrays) → same_counts c c' ≡ true → Room c a → Room c' a
  unfolding Room
  Room-same c c' a same (e1, e2, e3, e4) =
      let (c1, c2, c3, c4) = same_counts-≡ c c' same in (e1 ∙ c1, e2 ∙ c2, e3 ∙ c3, e4 ∙ c4)

  Told-get : (fuel : ℕ) (h : Heap) → ToldOption (get_mode_resource sys fuel h)
  unfolding get_mode_resource ToldOption
  Told-get zero h = tt
  Told-get (suc fuel) h =
      let first = sys.resources h.log in
      let asked_once = ask "GETRESOURCES" h in
      let made = alloc_temps sys first.counts asked_once in
      let second = sys.resources (made.2).log in
      let filled = fill second made.1 in
      let h2 = ask "GETRESOURCES" made.2 in
      Told-guards asked_once (free_temps made.1 made.2) h2 first.ret second.ret made.0
        (same_counts first.counts second.counts) (build sys second.counts filled h2)
        (get_mode_resource sys fuel (free_temps filled h2))
        (λ ok same. Told-build (made.2).log made.1 h2 (
          Room-same first.counts second.counts made.1 same
            (Room-alloc_temps sys first.counts asked_once ok)))
        (Told-get fuel (free_temps filled h2))

-- When `gpuGetModeResouce` returns 0 with a result, there is an answer of the kernel with the counts of
-- that result, and each array of the result whose count is not zero holds the first ids of that answer,
-- as many as the count, with zeros for those that the answer does not have.
pub get_mode_resource-Reports :
    (sys : Sys) (fuel : ℕ) (h h' : Heap) (r : ModeResource)
    → get_mode_resource sys fuel h ≡ some (pos 0, some r, h')
    → (l : Events) × Reports (sys.resources l) r
unfolding ToldOption Told
get_mode_resource-Reports sys fuel h h' r e = subst (ToldOption sys) e (Told-get sys fuel h)
