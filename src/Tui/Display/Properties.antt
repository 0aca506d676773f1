-- ===== src/Tui/Display/Properties.antt =====
-- tui/displayinfo.c: `getConnectorPropBlob` and `getConnectorPropEnum`, over the properties of
-- core/gpumode.c. `fault` of the heap says that memory was used that is not there, after which the rest
-- of the run has no meaning.
use amdtop.Base.{
  ℕ, zero, suc, ◌%◌, ◌/◌, ◌==◌, Bool, true, false, not, ◌&&◌, ◌||◌, Option, none, some, List, ℤ,
  pos, is_zero, ltb, get_elem?, u32_mod, if◌then◌else◌,
}
use Prim.Native.String.{String}
use amdtop.Base.Text.{codes, starts}
use amdtop.Core.Heap.{Heap, words_of, size_of}
use amdtop.Core.Mode.{Sys, Property, PropBlob, Connector}
use amdtop.Core.Mode.Properties.{get_property, free_property}
use amdtop.Core.Mode.Blobs.{get_prop_blob, free_prop_blob}

abbrev pub crash : Heap → Heap
crash h = record h { fault = true }

abbrev pub check : Bool → Heap → Heap
check b h = record h { fault = h.fault || not b }

-- `edid` and `edid_len`, and `dpms_state` and `dpms_value`.
pub record EdidCopy : Type 0 where
  pub content : List ℕ
  pub length : ℕ

pub record EnumCopy : Type 0 where
  pub element : ℕ
  pub value : ℕ

-- A round of one of the loops: whether it leaves the function, the result so far, what was read.
pub record Round (A : Type 0) : Type 0 where
  pub leaves : Bool
  pub ret : ℤ
  pub value : A
  pub heap : Heap

abbrev pub goes_on : {A : Type 0} → ℤ → A → Heap → Round A
goes_on r a h = record { leaves = false; ret = r; value = a; heap = h }

abbrev pub has_name : String → Property → Bool
has_name name p = starts (codes name) (codes p.name)

-- `prop->flags & DRM_MODE_PROP_BLOB` and `prop->flags & DRM_MODE_PROP_ENUM`
abbrev pub is_blob : Property → Bool
is_blob p = not (p.flags / 16 % 2 == 0)

abbrev pub is_enum : Property → Bool
is_enum p = not (p.flags / 8 % 2 == 0)

-- `memcpy` into the 512 bytes of `edid`
abbrev pub fits : PropBlob → Bool
fits b = not (ltb 512 b.length) && not (ltb (size_of b.content) b.length)

module _ (sys : Sys) where
  -- `gpuGetPropBlob`, the copy, and `gpuFreePropBlob`; a call that returns 0 without a blob leaves a pointer that
  -- is NULL or was freed.
  unfoldable pub keep_blob : ℤ × Option PropBlob × Heap → EdidCopy → ℤ × EdidCopy × Heap
  keep_blob (ret, none, h) e = (ret, e, if is_zero ret then crash h else h)
  keep_blob (ret, some b, h) e =
      if is_zero ret
      then (
        ret,
        record { content = words_of b.content; length = b.length },
        (free_prop_blob b (check (fits b) h)).1,
      )
      else (ret, e, h)

  -- A round with a property.
  unfoldable pub blob_round : String → Property → ℕ → EdidCopy → Heap → Round EdidCopy
  unfolding keep_blob
  blob_round name p v e h =
      let (ret, e', h') = keep_blob (get_prop_blob sys v h) e in
      if is_blob p && has_name name p
      then goes_on ret e' (free_property p h').1
      else goes_on (pos 0) e (free_property p h).1

  -- A round of the loop of `getConnectorPropEnum`; its inner loop does the same in each round.
  unfoldable pub enum_round : String → Property → ℕ → EnumCopy → Heap → Round EnumCopy
  enum_round name p v e h =
      if is_enum p && has_name name p && not (p.count_enums == 0)
      then elim (get_elem? (words_of p.enums) v) as (λ o. Round EnumCopy) [
        | none ↦ goes_on (pos 0) e (crash (free_property p h).1)
        | some x ↦
            goes_on (pos 0) (record { element = x; value = v % u32_mod }) (free_property p h).1
      ]
      else goes_on (pos 0) e (free_property p h).1

  module _ {A : Type 0} (body : Property → ℕ → A → Heap → Round A) where
    -- `gpuGetProperty`, which leaves the function when it fails; without a property, a pointer is used that is NULL or was
    -- freed.
    unfoldable pub with_property : ℤ × Option Property × Heap → ℕ → A → Round A
    with_property (ret, none, h) v a =
        if is_zero ret
        then goes_on ret a (crash h)
        else record { leaves = true; ret = ret; value = a; heap = h }
    with_property (ret, some p, h) v a =
        if is_zero ret
        then body p v a h
        else record { leaves = true; ret = ret; value = a; heap = h }

    -- The elements of `props` and `prop_values` in a round.
    unfoldable pub at_elements : Option ℕ → Option ℕ → A → Heap → Round A
    unfolding with_property
    at_elements (some id) (some v) a h = with_property (get_property sys id h) v a
    at_elements (some id) none a h = goes_on (pos 0) a (crash h)
    at_elements none o a h = goes_on (pos 0) a (crash h)

    -- The loop over the properties from index `i` on, `ret` so far.
    unfoldable pub property_loop :
        (props values : List ℕ) (rounds i : ℕ) → ℤ → A → Heap → ℤ × A × Heap
    unfolding at_elements
    property_loop props values zero i ret a h = (ret, a, h)
    property_loop props values (suc k) i ret a h =
        let r = at_elements (get_elem? props i) (get_elem? values i) a h in
        let rest = property_loop props values k (suc i) r.ret r.value r.heap in
        if r.leaves then (r.ret, r.value, r.heap) else rest

  -- `getConnectorPropBlob`
  unfoldable pub get_connector_prop_blob :
      Connector → String → EdidCopy → Heap → ℤ × EdidCopy × Heap
  unfolding blob_round property_loop
  get_connector_prop_blob c name e h =
      property_loop (blob_round name) (words_of c.arrays.props) (words_of c.arrays.prop_values)
        c.info.prop_count 0 (pos 0) e h

  -- `getConnectorPropEnum`
  unfoldable pub get_connector_prop_enum :
      Connector → String → EnumCopy → Heap → ℤ × EnumCopy × Heap
  unfolding enum_round property_loop
  get_connector_prop_enum c name e h =
      property_loop (enum_round name) (words_of c.arrays.props) (words_of c.arrays.prop_values)
        c.info.prop_count 0 (pos 0) e h
