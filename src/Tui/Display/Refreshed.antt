-- ===== src/Tui/Display/Refreshed.antt =====
-- What the update of the display page keeps of the state that it read (tui/displayinfo.c).
use amdtop.Base.{
  ℕ, zero, suc, ◌≡◌, ◌≤◌, refl, Bool, true, false, Option, none, some, List, [], ◌∷◌, ◌==◌, ℤ, pos,
  negsuc, is_zero, is_some, length, ap, ◌∙◌, sym, if◌then◌else◌,
}
use mathlib.Core.Path.{subst}
use amdtop.Core.Mode.{Sys}
use amdtop.Tui.World
use amdtop.Tui.World.{WinType, World, Env, ◌>>◌, call, ignore, get_win}
use amdtop.Tui.Screen.{window_clear}
use amdtop.Tui.Display.Query.{Scratch}
use amdtop.Tui.Display.{DisplayInfo, need_update_display_info}
use amdtop.Tui.Display.Edid.{Edid, parse_edid_info}
use amdtop.Tui.Display.Shown.{view, view_at, Same, need_update_display_info-Same}
use amdtop.Tui.Display.Page.{
  DisplayPage, Update, named, update_displays, update_display_info, take_over, need,
  refresh_display_ui, show_changes,
}

-- A parse_round of the loop, by whether its parse succeeded.
abbrev parse_round : Bool → ℤ → DisplayInfo → List DisplayInfo → Update → Update
parse_round b ret d ds u =
    if b
    then record { ret = u.ret; displays = named d ∷ u.displays; fault = u.fault }
    else record { ret = ret; displays = d ∷ ds; fault = false }

abbrev pick : Bool → ℤ → DisplayInfo → DisplayInfo → ℤ × DisplayInfo
pick b r d d' = if b then (pos 0, d) else (r, d')

module _ (e : Edid) where
  view-parse_edid_info : (d : DisplayInfo) → view (parse_edid_info e d).1 ≡ view d
  unfolding parse_edid_info
  view-parse_edid_info d =
      step (d.edid_len == 0) (parse_edid_info e (record d { edid_len = 1 })).0
        (record ((parse_edid_info e (record d { edid_len = 1 })).1) { edid_len = d.edid_len }) refl
    where
      step :
          (b : Bool) (r : ℤ) (d' : DisplayInfo) → view d' ≡ view d → view (pick b r d d').1 ≡ view d
      step true r d' f = refl
      step false r d' f = f

  views-update_displays :
      (k i : ℕ) (ds : List DisplayInfo) → view_at (update_displays e k ds).displays i ≡ view_at ds i
  unfolding update_displays
  views-update_displays zero i ds = refl
  views-update_displays (suc k) i [] = refl
  views-update_displays (suc k) zero (d ∷ ds) = here (is_zero (parse_edid_info e d).0)
    where
      here :
          (b : Bool)
          → view_at
              (parse_round b
                (parse_edid_info e d).0
                (parse_edid_info e d).1
                ds
                (update_displays e k ds)).displays
              zero
            ≡ some (view d)
      here true = ap some (view-parse_edid_info d)
      here false = ap some (view-parse_edid_info d)
  views-update_displays (suc k) (suc i) (d ∷ ds) =
      there (is_zero (parse_edid_info e d).0) (update_displays e k ds)
        (views-update_displays k i ds)
    where
      there :
          (b : Bool) (u : Update)
          → view_at u.displays i ≡ view_at ds i
          → view_at
              (parse_round b (parse_edid_info e d).0 (parse_edid_info e d).1 ds u).displays
              (suc i)
            ≡ view_at ds i
      there true u f = f
      there false u f = refl

  pub length-update_displays :
      (k : ℕ) (ds : List DisplayInfo) → length (update_displays e k ds).displays ≡ length ds
  unfolding update_displays
  length-update_displays zero ds = refl
  length-update_displays (suc k) [] = refl
  length-update_displays (suc k) (d ∷ ds) =
      step (is_zero (parse_edid_info e d).0) (update_displays e k ds) (length-update_displays k ds)
    where
      step :
          (b : Bool) (u : Update)
          → length u.displays ≡ length ds
          → length (parse_round b (parse_edid_info e d).0 (parse_edid_info e d).1 ds u).displays
            ≡ suc (length ds)
      step true u f = ap suc f
      step false u f = refl

  -- What is kept of a state reads the same.
  pub Same-update_display_info :
      (p : DisplayPage)
      → p.display_state.valid ≡ true
      → Same (update_display_info e p).1.current_display_state p.display_state
  unfolding update_display_info
  Same-update_display_info p v = record {
    valid = v;
    connectors = refl;
    displays = refl;
    views = λ i l.
        views-update_displays p.display_state.alive_connector_count i p.display_state.displayinfo;
  }

  -- Up to date: the page would not be drawn again for the state that was read last.
  abbrev pub Current : DisplayPage → Type 0
  Current p = need_update_display_info p.current_display_state p.display_state ≡ some false

  take_over-Current :
      (o : Option Bool) (p : DisplayPage)
      → need_update_display_info p.current_display_state p.display_state ≡ o
      → is_some o ≡ true
      → p.display_state.valid ≡ true
      → p.display_state.alive_connector_count ≤ length p.display_state.displayinfo
      → Current (take_over e o p).2
  unfolding take_over
  take_over-Current none p f known v room = cc
  take_over-Current (some false) p f known v room = f
  take_over-Current (some true) p f known v room =
      (need_update_display_info-Same (update_display_info e p).1.current_display_state
          p.display_state
          (subst (λ n. p.display_state.alive_connector_count ≤ n)
            (sym (
              length-update_displays p.display_state.alive_connector_count
                p.display_state.displayinfo))
            room)).1
        (Same-update_display_info p v)

  -- What `take_over` does not change, and where it faults.
  display_state-take_over :
      (o : Option Bool) (p : DisplayPage) → (take_over e o p).2.display_state ≡ p.display_state
  unfolding take_over update_display_info
  display_state-take_over none p = refl
  display_state-take_over (some false) p = refl
  display_state-take_over (some true) p = refl

  known-take_over :
      (o : Option Bool) (p : DisplayPage)
      → (take_over e o p).2.heap.fault ≡ false
      → is_some o ≡ true
  unfolding take_over
  known-take_over none p f = cc
  known-take_over (some b) p f = refl

module _ (env : Env) (e : Edid) (sys : Sys) (s : Scratch) where
  page-show_changes :
      (t : WinType) (p : DisplayPage) (w : World)
      → (show_changes env e sys s t p w).1 ≡ (take_over e (need e p) p).2
  unfolding show_changes
  page-show_changes t p w = step (take_over e (need e p) p).0 (is_zero (take_over e (need e p) p).1)
    where
      p' : DisplayPage
      p' = (take_over e (need e p) p).2

      drawn : ℤ × World
      drawn =
          (ignore (window_clear env t)
              >> refresh_display_ui env t p'.current_display_state
              >> call (World.Call.wrefresh (get_win t w).nwin))
            w

      outcome : Bool → Bool → ℤ × DisplayPage × World
      outcome changed done =
          if changed
          then (if done then (drawn.0, p', drawn.1) else ((take_over e (need e p) p).1, p', w))
          else ((take_over e (need e p) p).1, p', w)

      step : (b c : Bool) → (outcome b c).1 ≡ p'
      step true true = refl
      step true false = refl
      step false c = refl

  pub Current-shown :
      (t : WinType) (r : ℤ × DisplayPage × World) (p' : DisplayPage) (w' : World)
      → r.1.display_state.valid ≡ true
      → (if is_zero r.0 then show_changes env e sys s t r.1 r.2 else r) ≡ (pos 0, p', w')
      → p'.heap.fault ≡ false
      → p'.display_state.alive_connector_count ≤ length p'.display_state.displayinfo
      → Current e p'
  Current-shown t (pos zero, p, w) p' w' v f sound room =
      let o = need e p in
      let q = (take_over e o p).2 in
      let same : q ≡ p' =
        sym (page-show_changes t p w) ∙ ap (λ (r : ℤ × DisplayPage × World). r.1) f in
      let here = display_state-take_over e o p in
      subst (λ x. Current e x) same
        (take_over-Current e o p refl (known-take_over e o p (ap (λ x. x.heap.fault) same ∙ sound))
          v
          (subst (λ x. x.alive_connector_count ≤ length x.displayinfo) here
            (subst (λ x. x.display_state.alive_connector_count ≤ length x.display_state.displayinfo)
              (sym same) room)))
  Current-shown t (pos (suc n), p, w) p' w' v f sound room = cc
  Current-shown t (negsuc n, p, w) p' w' v f sound room = cc
