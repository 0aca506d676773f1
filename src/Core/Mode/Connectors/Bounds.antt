-- ===== src/Core/Mode/Connectors/Bounds.antt =====
-- When `gpuGetConnector` (core/gpumode.c) stays inside the blocks that it has allocated.
use amdtop.Base.{
  ℕ, zero, suc, Bool, true, false, not, Option, none, some, if◌then◌else◌, ℤ, pos, negsuc, is_zero,
  enomem, ◌≡◌, refl, ◌∙◌,
}
use amdtop.Core.Heap.{Block, Heap, Events, ask, alloc, free, size_of}
use amdtop.Core.Mode.{ConnectorInfo, ConnectorArrays, Connector, ConnectorReply, Sys}
use amdtop.Core.Mode.Resources.{alloc_next, duplicate}
use amdtop.Core.Mode.Resources.Room.{
  fault-free, fault-alloc_next, fault-duplicate, size_of-write, size_of-alloc_next,
}
use amdtop.Core.Mode.Connectors.{
  fill, free_temps, free_arrays, alloc_temps, duplicate_all, is_incomplete, copy_modes, build,
  get_connector,
}

-- Two answers with the same counts.
pub record SameCounts (a b : ConnectorInfo) : Type 0 where
  pub props : a.prop_count ≡ b.prop_count
  pub encoders : a.encoder_count ≡ b.encoder_count
  pub modes : a.mode_count ≡ b.mode_count

-- The four pointers have room for what an answer promises.
record Room (c : ConnectorInfo) (a : ConnectorArrays) : Type 0 where
  encoders : size_of a.encoders ≡ c.encoder_count
  modes : size_of a.modes ≡ c.mode_count
  props : size_of a.props ≡ c.prop_count
  prop_values : size_of a.prop_values ≡ c.prop_count

Kept : Bool → ℤ × Option Connector × Heap → Type 0
Kept f (ret, r, h) = h.fault ≡ f

fault-free_temps : (a : ConnectorArrays) (h : Heap) → (free_temps a h).fault ≡ h.fault
unfolding free_temps
fault-free_temps a h =
    fault-free a.props _
    ∙ fault-free a.prop_values _
    ∙ fault-free a.modes _
    ∙ fault-free a.encoders h

fault-free_arrays : (a : ConnectorArrays) (h : Heap) → (free_arrays a h).fault ≡ h.fault
unfolding free_arrays
fault-free_arrays a h =
    fault-free a.prop_values _
    ∙ fault-free a.props _
    ∙ fault-free a.encoders _
    ∙ fault-free a.modes h

module _ (sys : Sys) where
  fault-alloc_temps : (c : ConnectorInfo) (h : Heap) → (alloc_temps sys c h).2.fault ≡ h.fault
  unfolding alloc_temps
  fault-alloc_temps c h =
      let encoders = alloc_next sys true c.encoder_count h in
      let modes = alloc_next sys encoders.0 c.mode_count encoders.2 in
      let props = alloc_next sys modes.0 c.prop_count modes.2 in
      fault-alloc_next sys props.0 c.prop_count props.2
      ∙ fault-alloc_next sys modes.0 c.prop_count modes.2
      ∙ fault-alloc_next sys encoders.0 c.mode_count encoders.2
      ∙ fault-alloc_next sys true c.encoder_count h

  Room-alloc_temps :
      (c : ConnectorInfo) (h : Heap)
      → (alloc_temps sys c h).0 ≡ true
      → Room c (alloc_temps sys c h).1
  unfolding alloc_temps
  Room-alloc_temps c h ok =
      let encoders = alloc_next sys true c.encoder_count h in
      let modes = alloc_next sys encoders.0 c.mode_count encoders.2 in
      let props = alloc_next sys modes.0 c.prop_count modes.2 in
      let (s4, ok3) = size_of-alloc_next sys props.0 c.prop_count props.2 ok in
      let (s3, ok2) = size_of-alloc_next sys modes.0 c.prop_count modes.2 ok3 in
      let (s2, ok1) = size_of-alloc_next sys encoders.0 c.mode_count encoders.2 ok2 in
      let (s1, ok0) = size_of-alloc_next sys true c.encoder_count h ok1 in
      record { encoders = s1; modes = s2; props = s3; prop_values = s4 }

  fault-duplicate_all :
      (c : ConnectorInfo) (a : ConnectorArrays) (h : Heap)
      → Room c a
      → (duplicate_all sys c a h).1.fault ≡ h.fault
  unfolding duplicate_all
  fault-duplicate_all c a h room =
      let h1 = (duplicate sys c.encoder_count a.encoders h).1 in
      let h2 = (duplicate sys c.prop_count a.props h1).1 in
      let h3 = (duplicate sys c.prop_count a.prop_values h2).1 in
      fault-duplicate sys c.mode_count a.modes h3 room.modes
      ∙ fault-duplicate sys c.prop_count a.prop_values h2 room.prop_values
      ∙ fault-duplicate sys c.prop_count a.props h1 room.props
      ∙ fault-duplicate sys c.encoder_count a.encoders h room.encoders

  Kept-build :
      (r : ConnectorReply) (a : ConnectorArrays) (h : Heap)
      → Room r.info a
      → Kept h.fault (build sys r a h)
  unfolding build alloc Kept
  Kept-build r a h room = finish (alloc sys.malloc 1 h).0 (is_incomplete r.info arrays)
    where
      h1 : Heap
      h1 = (alloc sys.malloc 1 h).1

      arrays : ConnectorArrays
      arrays = (duplicate_all sys r.info a h1).0

      h2 : Heap
      h2 = (duplicate_all sys r.info a h1).1

      made : Connector
      made = record {
        self = (alloc sys.malloc 1 h).0;
        info = r.info;
        arrays = arrays;
        modes = copy_modes a.modes r.modes;
      }

      copied : h2.fault ≡ h.fault
      copied = fault-duplicate_all r.info a h1 room

      finish :
          (s : Option Block) (b : Bool)
          → Kept h.fault (elim s [
            | none ↦ (pos 0, none, free_temps a h1)
            | some p ↦
                if b
                then (enomem, none, free (some p) (free_arrays arrays h2))
                else (pos 0, some made, free_temps a h2)
          ])
      finish none b = fault-free_temps a h1
      finish (some p) true =
          fault-free (some p) (free_arrays arrays h2) ∙ fault-free_arrays arrays h2 ∙ copied
      finish (some p) false = fault-free_temps a h2 ∙ copied

  Kept-guards :
      (f : Bool) (h1 h2 h3 : Heap) (first second : ℤ) (ok : Bool)
      (built : ℤ × Option Connector × Heap)
      → h1.fault ≡ f
      → h2.fault ≡ f
      → h3.fault ≡ f
      → (ok ≡ true → Kept f built)
      → Kept f (
          if not (is_zero first)
          then (first, none, h1)
          else (if not ok
              then (first, none, h2)
              else (if not (is_zero second) then (second, none, h3) else built)))
  unfolding Kept
  Kept-guards f h1 h2 h3 (pos (suc n)) second ok built e1 e2 e3 e4 = e1
  Kept-guards f h1 h2 h3 (negsuc n) second ok built e1 e2 e3 e4 = e1
  Kept-guards f h1 h2 h3 (pos zero) second false built e1 e2 e3 e4 = e2
  Kept-guards f h1 h2 h3 (pos zero) (pos (suc n)) true built e1 e2 e3 e4 = e3
  Kept-guards f h1 h2 h3 (pos zero) (negsuc n) true built e1 e2 e3 e4 = e3
  Kept-guards f h1 h2 h3 (pos zero) (pos zero) true built e1 e2 e3 e4 = e4 refl

  Room-fill :
      (first second : ConnectorReply) (a : ConnectorArrays)
      → SameCounts first.info second.info
      → Room first.info a
      → Room second.info (fill second a)
  Room-fill first second a same room = record {
    encoders = size_of-write second.encoders a.encoders ∙ room.encoders ∙ same.encoders;
    modes = room.modes ∙ same.modes;
    props = size_of-write second.props a.props ∙ room.props ∙ same.props;
    prop_values = size_of-write second.prop_values a.prop_values ∙ room.prop_values ∙ same.props;
  }

  -- When the kernel's counts for a connector do not change from one ioctl to the next, no copy in
  -- `gpuGetConnector` reads or writes behind the end of a block.
  pub fault-get_connector :
      (id : ℕ) (h : Heap)
      → ((l l' : Events) → SameCounts (sys.connector l id).info (sys.connector l' id).info)
      → (get_connector sys id h).2.fault ≡ h.fault
  unfolding get_connector Kept
  fault-get_connector id h stable =
      let first = sys.connector h.log id in
      let asked_once = ask "GETCONNECTOR" h in
      let made = alloc_temps sys first.info asked_once in
      let second = sys.connector (made.2).log id in
      let h2 = ask "GETCONNECTOR" made.2 in
      let same : (made.2).fault ≡ h.fault = fault-alloc_temps first.info asked_once in
      Kept-guards h.fault asked_once (free_temps made.1 made.2) h2 first.ret second.ret made.0
        (build sys second (fill second made.1) h2) refl (fault-free_temps made.1 made.2 ∙ same) same
        (λ ok.
          Kept-build second (fill second made.1) h2 (
            Room-fill first second made.1 (stable h.log (made.2).log)
              (Room-alloc_temps first.info asked_once ok))
          ∙ same)
