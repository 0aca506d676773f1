-- ===== src/Tui/Display/Query.antt =====
-- tui/displayinfo.c: `query_display_info`, over core/gpumode.c.
use amdtop.Base.{
  ℕ, zero, suc, ◌+◌, ◌==◌, true, not, Option, none, some, List, [], ◌∷◌, ℤ, pos, is_zero, ltb,
  get_elem?, if◌then◌else◌,
}
use amdtop.Core.Heap.{Heap, words_of}
use amdtop.Core.Mode.{Sys, ModeResource, Connector, Encoder, Crtc}
use amdtop.Core.Mode.Resources.{get_mode_resource}
use amdtop.Core.Mode.Connectors.{get_connector, free_connector}
use amdtop.Core.Mode.Blobs.{get_encoder, get_crtc}
use amdtop.Tui.Display.{DisplayInfo, DisplayState, max_display_count, no_display, no_displays}
use amdtop.Tui.Display.Properties.{crash, check, get_connector_prop_blob, get_connector_prop_enum}

abbrev pub gpu_mode_connected : ℕ
gpu_mode_connected = 1

-- What the query has read: the result, the state, and the static `resource`. The last is never freed.
pub record Query : Type 0 where
  pub ret : ℤ
  pub state : DisplayState
  pub resource : Option ModeResource
  pub heap : Heap

abbrev set_display : ℕ → DisplayInfo → List DisplayInfo → List DisplayInfo
set_display i d [] = []
set_display zero d (x ∷ xs) = d ∷ xs
set_display (suc i) d (x ∷ xs) = x ∷ set_display i d xs

-- `struct GpuEncoder encoder` and `struct GpuCrtc crtc`, which are not initialised.
pub record Scratch : Type 0 where
  pub encoder : Encoder
  pub crtc : Crtc

abbrev pub valid_state : DisplayState
valid_state = record no_displays { valid = true }

module _ (sys : Sys) (s : Scratch) where
  -- What is read of a display that has an encoder, with the result so far.
  unfoldable pub query_crtc : ℕ → DisplayInfo → Heap → ℤ × DisplayInfo × Heap
  query_crtc encoder_id d h =
      let (ret, encoder, h1) = get_encoder sys encoder_id s.encoder h in
      let (ret', crtc, h2) = get_crtc sys encoder.crtc_id s.crtc h1 in
      let d' = record d { encoder_type = encoder.encoder_type; crtc_id = encoder.crtc_id } in
      if not (is_zero ret)
      then (ret, d, h1)
      else (if not (is_zero ret') then (ret', d', h2) else (
        ret',
        record d' {
          starty = crtc.y;
          startx = crtc.x;
          width = crtc.width;
          height = crtc.height;
          present = true;
        },
        h2,
      ))

  -- What is read of a connected connector.
  unfoldable pub query_display : Connector → Heap → ℤ × DisplayInfo × Heap
  unfolding query_crtc get_connector_prop_blob get_connector_prop_enum
  query_display c h =
      let d = record no_display {
        mode_count = c.info.mode_count;
        mm_height = c.info.mm_height;
        mm_width = c.info.mm_width;
        connector_id = c.info.connector_id;
        connector_type = c.info.connector_type;
        connector_type_id = c.info.connector_type_id;
      } in
      let (ret, edid, h1) =
        get_connector_prop_blob sys c "EDID" (record { content = []; length = 0 }) h in
      let d1 = record d { edid = edid.content; edid_len = edid.length } in
      let (ret', dpms, h2) =
        get_connector_prop_enum sys c "DPMS" (record { element = 0; value = 0 }) h1 in
      let d2 = record d1 {
        dpms_state = dpms.element;
        dpms_value = dpms.value;
        present = not (c.info.encoder_id == 0);
      } in
      if not (is_zero ret)
      then (ret, d1, h1)
      else (if not (is_zero ret')
          then (ret', d2, h2)
          else (if c.info.encoder_id == 0
              then (ret', d2, h2)
              else query_crtc c.info.encoder_id d2 h2))

  -- A display more, after it was read. An element that was not read whole is not counted, and is left out. A
  -- display behind the eight elements of the array is written there.
  unfoldable pub count_display :
      Connector → ℤ × DisplayInfo × Heap → DisplayState → ℤ × DisplayState × Heap
  count_display c (ret, d, h) q =
      let n = q.alive_connector_count in
      let h' = check (ltb n max_display_count) h in
      if is_zero ret
      then (
        pos 0,
        record q { alive_connector_count = n + 1; displayinfo = set_display n d q.displayinfo },
        (free_connector c h').1,
      )
      else (ret, q, h')

  abbrev pub set_counts : ModeResource → DisplayState → DisplayState
  set_counts r q = record q {
    connector_count = r.counts.connectors;
    crtc_count = r.counts.crtcs;
    encoder_count = r.counts.encoders;
    fb_count = r.counts.fbs;
  }

  -- A round of the loop with a connector; without one, a pointer is used that is NULL or was freed.
  unfoldable pub query_round :
      ModeResource → ℤ × Option Connector × Heap → DisplayState → ℤ × DisplayState × Heap
  unfolding count_display query_display
  query_round r (ret, none, h) q = (ret, q, if is_zero ret then crash h else h)
  query_round r (ret, some c, h) q =
      if is_zero ret
      then (if c.info.connection == gpu_mode_connected
          then count_display c (query_display c h) (set_counts r q)
          else (pos 0, q, (free_connector c h).1))
      else (ret, q, h)

  unfoldable pub query_at : ModeResource → Option ℕ → DisplayState → Heap → ℤ × DisplayState × Heap
  unfolding query_round
  query_at r none q h = (pos 0, q, crash h)
  query_at r (some id) q h = query_round r (get_connector sys id h) q

  -- The loop over the connectors from index `i` on.
  unfoldable pub query_loop :
      ModeResource → (rounds i : ℕ) → DisplayState → Heap → ℤ × DisplayState × Heap
  unfolding query_at
  query_loop r zero i q h = (pos 0, q, h)
  query_loop r (suc k) i q h =
      let (ret, q', h') = query_at r (get_elem? (words_of r.arrays.connector_ids) i) q h in
      let rest = query_loop r k (suc i) q' h' in if is_zero ret then rest else (ret, q', h')

  -- The query with a resource: the one just read, or, when the call returns 0 without one, the last one.
  unfoldable pub query_with : ℤ → Option ModeResource → Heap → Query
  unfolding query_loop
  query_with ret none h = record {
    ret = ret;
    state = valid_state;
    resource = none;
    heap = if is_zero ret then crash h else h;
  }
  query_with ret (some r) h =
      let (ret', q, h') = query_loop r r.counts.connectors 0 valid_state h in
      if is_zero ret
      then record { ret = ret'; state = q; resource = some r; heap = h' }
      else record { ret = ret; state = valid_state; resource = some r; heap = h }

  abbrev pub or_last : Option ModeResource → Option ModeResource → Option ModeResource
  or_last none last = last
  or_last (some r) last = some r

  -- `query_display_info` for a card; `none` where the retries of gpuGetModeResouce exceed the fuel.
  unfoldable pub query_display_info :
      (fuel : ℕ) → (last : Option ModeResource) → Heap → Option Query
  unfolding query_with
  query_display_info fuel last h = elim (get_mode_resource sys fuel h) as (λ o. Option Query) [
    | none ↦ none
    | some r ↦ some (query_with r.0 (or_last r.1 last) r.2)
  ]
