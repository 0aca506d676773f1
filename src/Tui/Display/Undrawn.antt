-- ===== src/Tui/Display/Undrawn.antt =====
-- A monitor without a serial number on the display page (tui/displayinfo.c).
use amdtop.Base.{
  ℕ, suc, ◌==◌, ◌≡◌, ◌≢◌, ◌≤◌, ◌<◌, refl, Bool, true, false, none, some, List, ◌∷◌, ℤ, pos, einval,
  length, ap, ◌∙◌, arith, if◌then◌else◌,
}
use mathlib.Core.Path.{subst}
use amdtop.Core.Mode.{Sys}
use amdtop.Tui.World.{WinType, World, Env}
use amdtop.Tui.Display.{DisplayInfo, DisplayState}
use amdtop.Tui.Display.Edid.{
  Edid, serial_number_tag, find_text, parse_edid_info, edid_get_serial_number, found,
}
use amdtop.Tui.Display.Query.{Scratch}
use amdtop.Tui.Display.Page.{
  DisplayPage, update_displays, update_display_info, take_over, need, show_changes,
}
use amdtop.Tui.Display.Shown.{Same, need_update_display_info-Same}
use amdtop.Tui.Display.Refreshed.{Same-update_display_info, length-update_displays}

-- None of the four detailed timings of its EDID is the descriptor of a serial number.
abbrev pub NoSerial : Edid → DisplayInfo → Type 0
NoSerial e d = (d.edid_len ≢ 0) × (find_text e serial_number_tag d.edid 4 0 ≡ none)

-- The result of the parse, by whether there is an EDID.
parsed_ret :
    (b : Bool) (d d' : DisplayInfo) (r : ℤ)
    → b ≡ false
    → (if◌then◌else◌ {A = ℤ × DisplayInfo} b (pos 0, d) (r, d')).0 ≡ r
parsed_ret true d d' r f = cc
parsed_ret false d d' r f = refl

module _ (e : Edid) where
  ret-parse_edid_info :
      (d : DisplayInfo)
      → d.edid_len ≢ 0
      → (parse_edid_info e d).0 ≡ (edid_get_serial_number e d.edid d.serial_numer).0
  unfolding parse_edid_info
  ret-parse_edid_info d some_edid =
      let b : (d.edid_len == 0) ≡ false = nonzero d.edid_len some_edid in
      parsed_ret (d.edid_len == 0) d
        (record ((parse_edid_info e (record d { edid_len = 1 })).1) { edid_len = d.edid_len }) _ b
    where
      nonzero : (n : ℕ) → n ≢ 0 → (n == 0) ≡ false
      nonzero n h = ground arith

  parse_edid_info-NoSerial : (d : DisplayInfo) → NoSerial e d → (parse_edid_info e d).0 ≡ einval
  unfolding edid_get_serial_number
  parse_edid_info-NoSerial d (some_edid, no_serial) =
      ret-parse_edid_info d some_edid ∙ ap (found e) no_serial

  ret-update_displays :
      (n : ℕ) (d : DisplayInfo) (ds : List DisplayInfo)
      → (parse_edid_info e d).0 ≡ einval
      → (update_displays e (suc n) (d ∷ ds)).ret ≡ einval
  unfolding update_displays
  ret-update_displays n d ds f = simp f refl

module _ (env : Env) (e : Edid) (sys : Sys) (s : Scratch) where
  -- The page is not drawn, whether `update_display_info` is called and fails or is not called.
  show_changes-failed :
      (t : WinType) (p : DisplayPage) (w : World)
      → need e p ≡ some true
      → (update_display_info e p).0 ≡ einval
      → show_changes env e sys s t p w ≡ (einval, (update_display_info e p).1, w)
  unfolding show_changes take_over
  show_changes-failed t p w f g = simp (f, g) refl

  show_changes-same :
      (t : WinType) (p : DisplayPage) (w : World)
      → need e p ≡ some false
      → show_changes env e sys s t p w ≡ (pos 0, p, w)
  unfolding show_changes take_over
  show_changes-same t p w f = simp f refl

  Same-trans : (a b c : DisplayState) → Same a b → Same b c → Same a c
  Same-trans a b c x y = record {
    valid = x.valid;
    connectors = x.connectors ∙ y.connectors;
    displays = x.displays ∙ y.displays;
    views = λ i l. x.views i l ∙ y.views i (subst (λ n. i < n) x.displays l);
  }

  -- When the page is to be drawn again and the EDID of the first display has no serial number,
  -- tabDisplayInfoUpdate returns -EINVAL without drawing, and while later queries see the same
  -- displays, it does not draw them either, and returns 0.
  pub show_changes-NoSerial :
      (t : WinType) (p : DisplayPage) (w : World) (n : ℕ) (d : DisplayInfo) (ds : List DisplayInfo)
      → need e p ≡ some true
      → p.display_state.valid ≡ true
      → p.display_state.alive_connector_count ≡ suc n
      → p.display_state.displayinfo ≡ d ∷ ds
      → n ≤ length ds
      → NoSerial e d
      → (p' : DisplayPage) × (show_changes env e sys s t p w ≡ (einval, p', w))
        × ((q : DisplayState) (w' : World)
            → Same p.display_state q
            → show_changes env e sys s t (record p' { display_state = q }) w'
              ≡ (pos 0, record p' { display_state = q }, w'))
  unfolding update_display_info
  show_changes-NoSerial t p w n d ds again v count first room none_there =
      let failed : (update_display_info e p).0 ≡ einval =
        ap (λ k. (update_displays e k p.display_state.displayinfo).ret) count
        ∙ (ap (λ xs. (update_displays e (suc n) xs).ret) first
            ∙ ret-update_displays e n d ds (parse_edid_info-NoSerial e d none_there)) in
      let l =
        length-update_displays e p.display_state.alive_connector_count p.display_state.displayinfo
        ∙ ap length first in
      (
        (update_display_info e p).1,
        show_changes-failed t p w again failed,
        λ q w' same.
            show_changes-same t (record ((update_display_info e p).1) { display_state = q }) w'
              ((need_update_display_info-Same (update_display_info e p).1.current_display_state q
                  (omega (arith, l, count))).1
                (Same-trans (update_display_info e p).1.current_display_state p.display_state q
                  (Same-update_display_info e p v) same)),
      )
