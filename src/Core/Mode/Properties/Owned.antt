-- ===== src/Core/Mode/Properties/Owned.antt =====
-- Who owns the blocks that `gpuGetProperty` allocates (core/gpumode.c).
use amdtop.Base.{
  ℕ, ◌+◌, ◌==◌, Bool, true, false, not, ◌&&◌, Option, none, some, if◌then◌else◌, pos, enomem, ◌≡◌,
  refl, sym, arith, Bool-cases, inl, inr, ap,
}
use mathlib.Core.Path.{subst}
use amdtop.Core.Heap.{Block, Heap, Events, ask, alloc, free}
use amdtop.Core.Heap.Ledger.{
  held, Owes, Owes-alloc, Owes-copy, held-copy, Owes-free, Owes-ask, held-write,
}
use amdtop.Core.Mode.{PropertyInfo, PropertyTemps, Property, Sys}
use amdtop.Core.Mode.Settled.{Settled, Settled-guards_failed}
use amdtop.Core.Mode.Resources.{alloc_next, duplicate}
use amdtop.Core.Mode.Resources.Owned.{Owes-alloc_next, Owes-duplicate}
use amdtop.Core.Mode.Properties.{
  is_enum, is_blob, fill, free_temps, free_arrays, bare, is_incomplete, alloc_blobs, alloc_temps,
  duplicate_any, duplicate_enums, build, get_property, free_property,
}

-- The blocks that belong to a property, and to the temporary arrays.
unfoldable pub owned : ℕ → Property → ℕ
owned q p = held q p.self + held q p.values + held q p.enums + held q p.blob_ids

unfoldable held_temps : ℕ → PropertyTemps → ℕ
held_temps q t = held q t.values + held q t.enum_blobs

no_blobs : (a b c : Bool) → b ≡ false → (a && b && c) ≡ false
no_blobs true true c e = cc
no_blobs true false c e = refl
no_blobs false b c e = refl

module _ (sys : Sys) (q : ℕ) where
  Owes-alloc_temps :
      (r : PropertyInfo) (h : Heap)
      → is_blob r ≡ false
      → Owes q h (alloc_temps sys r h).2 (held_temps q (alloc_temps sys r h).1)
  unfolding alloc_temps alloc_blobs Owes held_temps
  Owes-alloc_temps r h plain =
      let values = alloc_next sys true r.count_values h in
      let n = if is_enum r then r.count_enum_blobs else 0 in
      let enums = alloc_next sys values.0 n values.2 in
      let e1 = Owes-alloc_next sys q true r.count_values h in
      let e2 = Owes-alloc_next sys q values.0 n values.2 in
      let skip = no_blobs enums.0 (is_blob r) (not (r.count_enum_blobs == 0)) plain in
      simp skip (omega arith)

  Owes-free_temps :
      (h h' : Heap) (t : PropertyTemps) (n : ℕ)
      → Owes q h h' (held_temps q t + n)
      → Owes q h (free_temps t h') n
  unfolding free_temps held_temps Owes
  Owes-free_temps h h' t n e =
      Owes-free q h _ t.enum_blobs n
        (Owes-free q h h' t.values (held q t.enum_blobs + n) (omega arith))

  Owes-duplicate_any :
      (n : ℕ) (src : Option Block) (h : Heap)
      → Owes q h (duplicate_any sys n src h).1 (held q (duplicate_any sys n src h).0)
  unfolding duplicate_any Owes
  Owes-duplicate_any n src h =
      let made = alloc sys.malloc n h in
      let e1 = Owes-alloc sys.malloc q n h in
      let e2 = Owes-copy q n made.0 src made.1 in
      let e3 = held-copy q n made.0 src made.1 in omega arith

  Owes-duplicate_enums :
      (r : PropertyInfo) (t : PropertyTemps) (p : Property) (h0 h : Heap)
      → is_blob r ≡ false
      → p.enums ≡ none
      → Owes q h0 h (owned q p + held_temps q t)
      → Owes q h0
          (duplicate_enums sys r t p h).1
          (owned q (duplicate_enums sys r t p h).0 + held_temps q t)
  unfolding duplicate_enums Owes owned held_temps held
  Owes-duplicate_enums r t p h0 h plain clear e = elim (Bool-cases (is_enum r)) [
    | inl y ↦
        let e1 = Owes-duplicate_any r.count_enum_blobs t.enum_blobs h in
        let e2 = ap (held q) clear in simp y (omega arith)
    | inr n ↦ simp (n, plain) e
  ]

  Settled-build :
      (h0 : Heap) (r : PropertyInfo) (t : PropertyTemps) (h : Heap)
      → is_blob r ≡ false
      → Owes q h0 h (held_temps q t)
      → Settled (owned q) q h0 (build sys r t h)
  unfolding build Owes Settled owned held
  Settled-build h0 r t h plain e = finish self refl (is_incomplete r p)
    where
      self : Option Block
      self = (alloc sys.malloc 1 h).0

      h1 : Heap
      h1 = (alloc sys.malloc 1 h).1

      values : Option Block
      values = (duplicate sys r.count_values t.values h1).0

      h2 : Heap
      h2 = (duplicate sys r.count_values t.values h1).1

      p : Property
      p = (duplicate_enums sys r t (record (bare self r) { values = values }) h2).0

      h3 : Heap
      h3 = (duplicate_enums sys r t (record (bare self r) { values = values }) h2).1

      after_self : Owes q h0 h1 (held q self + held_temps q t)
      after_self = let e1 = Owes-alloc sys.malloc q 1 h in omega arith

      after_values : Owes q h0 h2 (held q self + held q values + 0 + 0 + held_temps q t)
      after_values =
          let e1 = after_self in
          let e2 = Owes-duplicate sys q r.count_values t.values h1 in omega arith

      after_all : Owes q h0 h3 (held_temps q t + owned q p)
      after_all =
          let e1 =
            Owes-duplicate_enums r t (record (bare self r) { values = values }) h0 h2 plain refl
              after_values in
          omega arith

      finish :
          (s : Option Block)
          → s ≡ self
          → (b : Bool)
          → Settled (owned q) q h0 (elim s [
            | none ↦ (pos 0, none, free_temps t h1)
            | some s ↦
                if b
                then (enomem, none, free (some s) (free_arrays p h3))
                else (pos 0, some p, free_temps t h3)
          ])
      finish none e' b = Owes-free_temps h0 h1 t 0 (
          let g = subst (λ s. Owes q h0 h1 (held q s + held_temps q t)) (sym e') after_self in
          omega arith)
      finish (some s) e' true = tt
      finish (some s) e' false = Owes-free_temps h0 h3 t (owned q p) after_all

  Settled-get :
      (id : ℕ) (h : Heap)
      → ((l : Events) → is_blob (sys.property l id).info ≡ false)
      → Settled (owned q) q h (get_property sys id h)
  unfolding get_property Owes held_temps
  Settled-get id h plain =
      let first = sys.property h.log id in
      let asked_once = ask "GETPROPERTY" h in
      let made = alloc_temps sys first.info asked_once in
      let second = sys.property (made.2).log id in
      let h2 = ask "GETPROPERTY" made.2 in
      let e1 = Owes-ask q "GETPROPERTY" h in
      let e2 = Owes-alloc_temps first.info asked_once (plain h.log) in
      let e3 = Owes-ask q "GETPROPERTY" made.2 in
      let e4 = held-write q second.values made.1.values in
      let e5 = held-write q second.enum_blobs made.1.enum_blobs in
      Settled-guards_failed (owned q) q h asked_once (free_temps made.1 made.2) h2 first.ret
        second.ret (pos 0) made.0 (build sys second.info (fill second made.1) h2) (omega arith)
        (Owes-free_temps h made.2 made.1 0 (omega arith))
        (Settled-build h second.info (fill second made.1) h2 (plain made.2.log) (omega arith))

-- When the kernel never says that the property holds blobs, `gpuGetProperty` returns 0 with a property and
-- `gpuFreeProperty` is given it, every address has been freed exactly as often as it has been allocated since
-- the first call, whatever else the kernel and the allocator answer.
pub free_property-get_property :
    (sys : Sys) (q id : ℕ) (h h' : Heap) (p : Property)
    → ((l : Events) → is_blob (sys.property l id).info ≡ false)
    → get_property sys id h ≡ (pos 0, some p, h')
    → Owes q h (free_property p h').1 0
unfolding free_property free_arrays Settled owned Owes
free_property-get_property sys q id h h' p plain e =
    let s : Owes q h h' (owned q p) =
      subst (Settled (owned q) q h) e (Settled-get sys q id h plain) in
    let h1 = free p.values h' in
    let h2 = free p.enums h1 in
    let e1 =
      Owes-free q h h' p.values (held q p.self + held q p.enums + held q p.blob_ids)
        (omega arith) in
    let e2 = Owes-free q h h1 p.enums (held q p.self + held q p.blob_ids) (omega arith) in
    let e3 = Owes-free q h h2 p.blob_ids (held q p.self + 0) (omega arith) in
    Owes-free q h (free p.blob_ids h2) p.self 0 e3
