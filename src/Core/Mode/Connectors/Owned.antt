-- ===== src/Core/Mode/Connectors/Owned.antt =====
-- Who owns the blocks that `gpuGetConnector` allocates (core/gpumode.c).
use amdtop.Base.{
  ℕ, ◌+◌, Bool, true, false, Option, none, some, if◌then◌else◌, pos, enomem, ◌≡◌, refl, sym, arith,
}
use mathlib.Core.Path.{subst}
use amdtop.Core.Heap.{Block, Heap, ask, alloc, free}
use amdtop.Core.Heap.Ledger.{held, Owes, Owes-alloc, Owes-free, Owes-ask, held-write}
use amdtop.Core.Mode.{ConnectorInfo, ConnectorArrays, Connector, ConnectorReply, Sys}
use amdtop.Core.Mode.Settled.{Settled, Settled-guards}
use amdtop.Core.Mode.Resources.{alloc_next, duplicate}
use amdtop.Core.Mode.Resources.Owned.{Owes-alloc_next, Owes-duplicate}
use amdtop.Core.Mode.Connectors.{
  fill, free_temps, free_arrays, alloc_temps, duplicate_all, is_incomplete, copy_modes, build,
  get_connector, free_connector,
}

unfoldable pub held_all : ℕ → ConnectorArrays → ℕ
held_all q a = held q a.encoders + held q a.modes + held q a.props + held q a.prop_values

-- The blocks that belong to a connector.
unfoldable pub owned : ℕ → Connector → ℕ
owned q c = held q c.self + held_all q c.arrays

Owes-free_temps :
    (q : ℕ) (h h' : Heap) (a : ConnectorArrays) (n : ℕ)
    → Owes q h h' (held_all q a + n)
    → Owes q h (free_temps a h') n
unfolding Owes held_all free_temps
Owes-free_temps q h h' a n e = Owes-free q h _ a.props n (
    Owes-free q h _ a.prop_values (held q a.props + n) (
      Owes-free q h _ a.modes (held q a.prop_values + (held q a.props + n)) (
        Owes-free q h h' a.encoders (held q a.modes + (held q a.prop_values + (held q a.props + n)))
          (omega arith))))

Owes-free_arrays :
    (q : ℕ) (h h' : Heap) (a : ConnectorArrays) (n : ℕ)
    → Owes q h h' (held_all q a + n)
    → Owes q h (free_arrays a h') n
unfolding Owes held_all free_arrays
Owes-free_arrays q h h' a n e = Owes-free q h _ a.prop_values n (
    Owes-free q h _ a.props (held q a.prop_values + n) (
      Owes-free q h _ a.encoders (held q a.props + (held q a.prop_values + n)) (
        Owes-free q h h' a.modes (held q a.encoders + (held q a.props + (held q a.prop_values + n)))
          (omega arith))))

module _ (sys : Sys) (q : ℕ) where
  Owes-alloc_temps :
      (c : ConnectorInfo) (h : Heap)
      → Owes q h (alloc_temps sys c h).2 (held_all q (alloc_temps sys c h).1)
  unfolding alloc_temps held_all Owes
  Owes-alloc_temps c h =
      let encoders = alloc_next sys true c.encoder_count h in
      let modes = alloc_next sys encoders.0 c.mode_count encoders.2 in
      let props = alloc_next sys modes.0 c.prop_count modes.2 in
      let e1 = Owes-alloc_next sys q true c.encoder_count h in
      let e2 = Owes-alloc_next sys q encoders.0 c.mode_count encoders.2 in
      let e3 = Owes-alloc_next sys q modes.0 c.prop_count modes.2 in
      let e4 = Owes-alloc_next sys q props.0 c.prop_count props.2 in omega arith

  Owes-duplicate_all :
      (c : ConnectorInfo) (a : ConnectorArrays) (h : Heap)
      → Owes q h (duplicate_all sys c a h).1 (held_all q (duplicate_all sys c a h).0)
  unfolding duplicate_all held_all Owes
  Owes-duplicate_all c a h =
      let encoders = duplicate sys c.encoder_count a.encoders h in
      let props = duplicate sys c.prop_count a.props encoders.1 in
      let prop_values = duplicate sys c.prop_count a.prop_values props.1 in
      let e1 = Owes-duplicate sys q c.encoder_count a.encoders h in
      let e2 = Owes-duplicate sys q c.prop_count a.props encoders.1 in
      let e3 = Owes-duplicate sys q c.prop_count a.prop_values props.1 in
      let e4 = Owes-duplicate sys q c.mode_count a.modes prop_values.1 in omega arith

  Settled-build :
      (h0 : Heap) (r : ConnectorReply) (temps : ConnectorArrays) (h : Heap)
      → Owes q h0 h (held_all q temps)
      → Settled (owned q) q h0 (build sys r temps h)
  unfolding build Owes Settled owned held held_all
  Settled-build h0 r temps h e = finish self refl (is_incomplete r.info arrays)
    where
      self : Option Block
      self = (alloc sys.malloc 1 h).0

      h1 : Heap
      h1 = (alloc sys.malloc 1 h).1

      arrays : ConnectorArrays
      arrays = (duplicate_all sys r.info temps h1).0

      h2 : Heap
      h2 = (duplicate_all sys r.info temps h1).1

      made : Connector
      made = record {
        self = self;
        info = r.info;
        arrays = arrays;
        modes = copy_modes temps.modes r.modes;
      }

      after_self : Owes q h0 h1 (held q self + held_all q temps)
      after_self = let e1 = Owes-alloc sys.malloc q 1 h in omega arith

      finish :
          (s : Option Block)
          → s ≡ self
          → (b : Bool)
          → Settled (owned q) q h0 (elim s [
            | none ↦ (pos 0, none, free_temps temps h1)
            | some p ↦
                if b
                then (enomem, none, free (some p) (free_arrays arrays h2))
                else (pos 0, some made, free_temps temps h2)
          ])
      finish none e' b = Owes-free_temps q h0 h1 temps 0 (
          let t = subst (λ s. Owes q h0 h1 (held q s + held_all q temps)) (sym e') after_self in
          omega arith)
      finish (some p) e' true = tt
      finish (some p) e' false =
          Owes-free_temps q h0 h2 temps (held q self + held_all q arrays)
            (let a = after_self in let e2 = Owes-duplicate_all r.info temps h1 in omega arith)

  held_all-fill : (r : ConnectorReply) (a : ConnectorArrays) → held_all q (fill r a) ≡ held_all q a
  unfolding held_all
  held_all-fill r a =
      let e1 = held-write q r.encoders a.encoders in
      let e2 = held-write q r.props a.props in
      let e3 = held-write q r.prop_values a.prop_values in omega arith

  Settled-get : (id : ℕ) (h : Heap) → Settled (owned q) q h (get_connector sys id h)
  unfolding get_connector Owes
  Settled-get id h =
      let first = sys.connector h.log id in
      let asked_once = ask "GETCONNECTOR" h in
      let made = alloc_temps sys first.info asked_once in
      let second = sys.connector (made.2).log id in
      let filled = fill second made.1 in
      let h2 = ask "GETCONNECTOR" made.2 in
      let e1 = Owes-ask q "GETCONNECTOR" h in
      let e2 = Owes-alloc_temps first.info asked_once in
      let e3 = Owes-ask q "GETCONNECTOR" made.2 in
      let e4 = held_all-fill second made.1 in
      Settled-guards (owned q) q h asked_once (free_temps made.1 made.2) h2 first.ret second.ret
        made.0 (build sys second filled h2) (omega arith)
        (Owes-free_temps q h made.2 made.1 0 (omega arith))
        (Settled-build h second filled h2 (omega arith))

-- When `gpuGetConnector` returns 0 with a connector and `gpuFreeConnector` is given it, every address
-- has been freed exactly as often as it has been allocated since the first call, whatever the kernel
-- and the allocator answer.
pub free_connector-get_connector :
    (sys : Sys) (q id : ℕ) (h h' : Heap) (c : Connector)
    → get_connector sys id h ≡ (pos 0, some c, h')
    → Owes q h (free_connector c h').1 0
unfolding free_connector Settled owned Owes
free_connector-get_connector sys q id h h' c e =
    let s : Owes q h h' (owned q c) = subst (Settled (owned q) q h) e (Settled-get sys q id h) in
    Owes-free q h _ c.self 0 (Owes-free_arrays q h h' c.arrays (held q c.self + 0) (omega arith))
