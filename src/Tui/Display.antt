-- ===== src/Tui/Display.antt =====
-- tui/displayinfo.c: the state of the display page, and when the page is drawn again.
pub mod Shown
pub mod Edid
pub mod Properties
pub mod Query
pub mod Page
pub mod Refreshed
pub mod Current
pub mod Drawn
pub mod Undrawn
use amdtop.Base.{
  ℕ, zero, suc, ◌==◌, Bool, true, false, not, ◌||◌, Option, none, some, List, [], ◌∷◌, get_elem?,
  if◌then◌else◌,
}
use Prim.Native.String.{String}
use amdtop.Base.Text.{Bytes}

abbrev pub max_display_count : ℕ
max_display_count = 8

-- `struct DisplayInfo` without the size in inches; `dpms_state` is the element of the enumeration whose name
-- is shown, and the name of the connector is without its number, `connector_type_id`.
pub record DisplayInfo : Type 0 where
  pub present : Bool
  pub connector_id : ℕ
  pub connector_type : ℕ
  pub connector_type_id : ℕ
  pub mm_width : ℕ
  pub mm_height : ℕ
  pub mode_count : ℕ
  pub dpms_value : ℕ
  pub crtc_id : ℕ
  pub encoder_type : ℕ
  pub startx : ℕ
  pub starty : ℕ
  pub width : ℕ
  pub height : ℕ
  pub vrefresh : ℕ
  pub connector_name : String
  pub encoder_name : String
  pub dpms_state : ℕ
  pub edid : List ℕ
  pub edid_len : ℕ
  pub monitor_name : Bytes
  pub serial_numer : Bytes
  pub manufacturer : Bytes
  pub year : ℕ
  pub week : ℕ

-- `struct DisplayState`; `displayinfo` has MAX_DISPLAY_COUNT elements.
pub record DisplayState : Type 0 where
  pub valid : Bool
  pub alive_connector_count : ℕ
  pub displayinfo : List DisplayInfo
  pub connector_count : ℕ
  pub encoder_count : ℕ
  pub crtc_count : ℕ
  pub fb_count : ℕ

-- What `MemClear` leaves.
abbrev pub no_display : DisplayInfo
no_display = record {
  present = false;
  connector_id = 0;
  connector_type = 0;
  connector_type_id = 0;
  mm_width = 0;
  mm_height = 0;
  mode_count = 0;
  dpms_value = 0;
  crtc_id = 0;
  encoder_type = 0;
  startx = 0;
  starty = 0;
  width = 0;
  height = 0;
  vrefresh = 0;
  connector_name = "";
  encoder_name = "";
  dpms_state = 0;
  edid = [];
  edid_len = 0;
  monitor_name = [];
  serial_numer = [];
  manufacturer = [];
  year = 0;
  week = 0;
}

abbrev copies : ℕ → List DisplayInfo
copies zero = []
copies (suc n) = no_display ∷ copies n

abbrev pub no_displays : DisplayState
no_displays = record {
  valid = false;
  alive_connector_count = 0;
  displayinfo = copies max_display_count;
  connector_count = 0;
  encoder_count = 0;
  crtc_count = 0;
  fb_count = 0;
}

abbrev pub same_bool : Bool → Bool → Bool
same_bool true b = b
same_bool false b = not b

-- The three tests of the loop.
unfoldable pub differs : DisplayInfo → DisplayInfo → Bool
differs a b =
    not (a.dpms_value == b.dpms_value)
    || not (same_bool a.present b.present)
    || (not (a.starty == b.starty)
        || not (a.startx == b.startx)
        || not (a.width == b.width)
        || not (a.height == b.height))

-- Two elements of the arrays; behind their ends nothing is said, `none`.
abbrev pub differs_at : Option DisplayInfo → Option DisplayInfo → Option Bool
differs_at none b = none
differs_at (some a) none = none
differs_at (some a) (some b) = some (differs a b)

-- The loop of `needUpdateDisplayInfo` from display `i` on.
unfoldable pub need_loop : (cur new : List DisplayInfo) → (rounds i : ℕ) → Option Bool
unfolding differs
need_loop cur new zero i = some false
need_loop cur new (suc k) i =
    let rest = need_loop cur new k (suc i) in
    elim (differs_at (get_elem? cur i) (get_elem? new i)) [
      | none ↦ none
      | some d ↦ if d then some true else rest
    ]

-- `needUpdateDisplayInfo` for the current and the new state.
unfoldable pub need_update_display_info : (cur new : DisplayState) → Option Bool
unfolding need_loop
need_update_display_info cur new =
    let rest = need_loop cur.displayinfo new.displayinfo cur.alive_connector_count 0 in
    if not cur.valid
    then some true
    else (if not (cur.connector_count == new.connector_count)
        then some true
        else (if not (cur.alive_connector_count == new.alive_connector_count)
            then some true
            else rest))
