-- ===== src/Tui/Display/Edid.antt =====
-- tui/displayinfo.c: what is shown of the EDID of a monitor.
-- The functions and the layout of tui/import/edid.h are a parameter.
use amdtop.Base.{
  ℕ, zero, suc, ◌+◌, ◌==◌, Bool, ◌&&◌, ◌||◌, Option, none, some, List, [], ◌∷◌, ℤ, pos, is_zero,
  einval, if◌then◌else◌,
}
use amdtop.Base.Text.{Bytes, codes, take}
use amdtop.Tui.Display.{DisplayInfo}

-- `edid_detailed_timing_is_monitor_descriptor`, the tag of a descriptor and the 14 bytes that are read of it, by its index;
-- the date of manufacture, and `edid_manufacturer`.
pub record Edid : Type 0 where
  pub is_monitor_descriptor : List ℕ → ℕ → Bool
  pub tag : List ℕ → ℕ → ℕ
  pub text : List ℕ → ℕ → Bytes
  pub manufacture_year : List ℕ → ℕ
  pub manufacture_week : List ℕ → ℕ
  pub manufacturer : List ℕ → Bytes

-- `EDID_MONITOR_DESCRIPTOR_MONITOR_NAME` and `EDID_MONITOR_DESCRIPTOR_MONITOR_SERIAL_NUMBER`
abbrev pub monitor_name_tag : ℕ
monitor_name_tag = 0xfc

abbrev pub serial_number_tag : ℕ
serial_number_tag = 0xff

-- Up to the end of the text or of the line; of a text without either, 13 bytes are left.
abbrev until_end : Bytes → Bytes
until_end [] = []
until_end (c ∷ s) = if (c == 0) || (c == 10) then [] else c ∷ until_end s

abbrev pub line_of : Bytes → Bytes
line_of s = take 13 (until_end s)

module _ (e : Edid) where
  -- The loop over the four detailed timings from index `i` on.
  unfoldable pub find_text : (tag : ℕ) → List ℕ → (rounds i : ℕ) → Option Bytes
  find_text tag raw zero i = none
  find_text tag raw (suc k) i =
      let rest = find_text tag raw k (suc i) in
      if e.is_monitor_descriptor raw i && (e.tag raw i == tag)
      then some (line_of (e.text raw i))
      else rest

  -- `edidGetSerialNumber` and `edidGetMonitorName`, which leave the text alone when they return -EINVAL.
  abbrev pub found : Option Bytes → ℤ
  found none = einval
  found (some s) = pos 0

  abbrev text_or : Bytes → Option Bytes → Bytes
  text_or t none = t
  text_or t (some s) = s

  unfoldable pub edid_get_serial_number : List ℕ → Bytes → ℤ × Bytes
  unfolding find_text
  edid_get_serial_number raw name =
      let t = find_text serial_number_tag raw 4 0 in (found t, text_or name t)

  unfoldable pub edid_get_monitor_name : List ℕ → Bytes → ℤ × Bytes
  unfolding find_text
  edid_get_monitor_name raw name =
      let t = find_text monitor_name_tag raw 4 0 in (found t, text_or name t)

  -- `edidGetDate`
  unfoldable pub edid_get_date : List ℕ → ℤ × ℕ × ℕ
  edid_get_date raw = (pos 0, e.manufacture_year raw + 1990, e.manufacture_week raw)

  -- `edidGetManufacturer`
  unfoldable pub edid_get_manufacturer : List ℕ → ℤ × Bytes
  edid_get_manufacturer raw = (pos 0, e.manufacturer raw)

  -- `parseEDIDInfo`: the result is that of the serial number. The first two steps never fail.
  unfoldable pub parse_edid_info : DisplayInfo → ℤ × DisplayInfo
  unfolding edid_get_serial_number edid_get_monitor_name edid_get_date edid_get_manufacturer
  parse_edid_info d =
      let (_, year, week) = edid_get_date d.edid in
      let (_, manufacturer) = edid_get_manufacturer d.edid in
      let (named, name) = edid_get_monitor_name d.edid d.monitor_name in
      let (ret, serial) = edid_get_serial_number d.edid d.serial_numer in
      if d.edid_len == 0 then (pos 0, d) else (
        ret,
        record d {
          year = year;
          week = week;
          manufacturer = manufacturer;
          monitor_name = if is_zero named then name else codes "unknow";
          serial_numer = if is_zero ret then serial else codes "unknow";
        },
      )
