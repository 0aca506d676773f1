-- ===== src/Tui/Display/Page.antt =====
-- tui/displayinfo.c: what is kept of a query, the drawing and the handlers of the display page.
use amdtop.Base.{
  ℕ, zero, suc, ◌+◌, ◌/◌, ◌==◌, Bool, true, false, ◌||◌, Option, none, some, List, [], ◌∷◌, ℤ, pos,
  negsuc, is_zero, sub32, to_u32, if◌then◌else◌,
}
use amdtop.Core.Heap.{Heap}
use amdtop.Core.Mode.{Sys, ModeResource}
use amdtop.Core.Mode.Names.{get_connector_name_by_type, get_encoder_name_by_type}
use amdtop.Tui.World
use amdtop.Tui.World.{
  WinType, World, Env, Cmd, Text, fmt, lit, ◌>>◌, call, crash, ignore, get_win, get_active_device,
}
use amdtop.Tui.Screen.{mvwprintw2c, winframe, window_clear}
use amdtop.Tui.Display.{DisplayInfo, DisplayState, need_update_display_info}
use amdtop.Tui.Display.Edid.{Edid, parse_edid_info}
use amdtop.Tui.Display.Query.{Query, Scratch, query_display_info, valid_state}

-- The statics, and the heap; a device is its place in the table.
pub record DisplayPage : Type 0 where
  pub display_state : DisplayState
  pub current_display_state : DisplayState
  pub current_device : Option ℕ
  pub resource : Option ModeResource
  pub heap : Heap

-- What is set in `current_display_state`: the result, the displays, and whether an element behind them was
-- used.
pub record Update : Type 0 where
  pub ret : ℤ
  pub displays : List DisplayInfo
  pub fault : Bool

abbrev pub named : DisplayInfo → DisplayInfo
named d = record d {
  connector_name = get_connector_name_by_type d.connector_type;
  encoder_name = if d.present then get_encoder_name_by_type d.encoder_type else d.encoder_name;
}

abbrev pub same_slot : Option ℕ → Option ℕ → Bool
same_slot none none = true
same_slot none (some j) = false
same_slot (some i) none = false
same_slot (some i) (some j) = i == j

-- `getAcitveDevice` as a place of the table, and the handle of the device.
abbrev pub active_slot : World → Option ℕ
active_slot w = elim (get_active_device w) [ none ↦ none | some d ↦ some (to_u32 w.active_device) ]

unfoldable pub has_handle : World → Bool
has_handle w = elim (get_active_device w) [
  | none ↦ false
  | some d ↦ elim d.gpu_device [ none ↦ false | some g ↦ true ]
]

module _ (e : Edid) where
  -- The loop of `update_display_info`.
  unfoldable pub update_displays : (rounds : ℕ) → List DisplayInfo → Update
  update_displays zero ds = record { ret = pos 0; displays = ds; fault = false }
  update_displays (suc k) [] = record { ret = pos 0; displays = []; fault = true }
  update_displays (suc k) (d ∷ ds) =
      let (ret, d') = parse_edid_info e d in
      let u = update_displays k ds in
      if is_zero ret
      then record { ret = u.ret; displays = named d' ∷ u.displays; fault = u.fault }
      else record { ret = ret; displays = d' ∷ ds; fault = false }

  -- `update_display_info`
  unfoldable pub update_display_info : DisplayPage → ℤ × DisplayPage
  update_display_info p =
      let u = update_displays p.display_state.alive_connector_count p.display_state.displayinfo in
      (
        u.ret,
        record p {
          current_display_state = record (p.display_state) { displayinfo = u.displays };
          heap = record (p.heap) { fault = p.heap.fault || u.fault };
        },
      )

  -- `if (needUpdateDisplayInfo()) ret = update_display_info();`, with whether it was called.
  unfoldable pub take_over : Option Bool → DisplayPage → Bool × ℤ × DisplayPage
  unfolding update_display_info
  take_over none p = (false, pos 0, record p { heap = record (p.heap) { fault = true } })
  take_over (some false) p = (false, pos 0, p)
  take_over (some true) p = let (ret, p') = update_display_info p in (true, ret, p')

  abbrev pub need : DisplayPage → Option Bool
  need p = need_update_display_info p.current_display_state p.display_state

module _ (env : Env) where
  -- The lines on a display, up to its names; the two in the middle only where it is lit.
  unfoldable pub print_display : Option ℕ → (line x width : ℕ) → DisplayInfo → Cmd
  print_display n line x width d =
      mvwprintw2c env n (line + 1) x (lit "Name") (fmt "%s" [])
      >> mvwprintw2c env n (line + 2) x (lit "Serial") (fmt "%s" [])
      >> mvwprintw2c env n (line + 3) x (lit "Vendor") (fmt "%s" [])
      >> mvwprintw2c env n (line + 4) x (lit "Date")
          (fmt "%d year %d weeks " (d.year ∷ d.week ∷ []))
      >> mvwprintw2c env n (line + 5) x (lit "Size")
          (fmt "%3d x %3d (mm)" (d.mm_width ∷ d.mm_height ∷ []))
      >> mvwprintw2c env n (line + 6) x (lit "DPMS") (fmt "%s" (d.dpms_state ∷ []))
      >> mvwprintw2c env n (line + 7) x (lit "Present")
          (lit (if d.present then "Alive" else "Sleep"))
      >> (if d.present
          then (mvwprintw2c env n (line + 8) x (lit "Encoder") (lit d.encoder_name)
              >> mvwprintw2c env n (line + 9) x (lit "Resolution")
                  (fmt "%d x %d [%d x %d]" (d.width ∷ d.height ∷ d.startx ∷ d.starty ∷ []))
              >> winframe env n line 2 (line + 10) (sub32 width 2) d.connector_name)
          else winframe env n line 2 (line + 8) (sub32 width 2) d.connector_name)

  -- The loop over the displays; an element behind the array is not there.
  unfoldable pub print_displays : Option ℕ → (line x width rounds : ℕ) → List DisplayInfo → Cmd
  unfolding print_display
  print_displays n line x width zero ds w = (pos 0, w)
  print_displays n line x width (suc k) [] w = crash w
  print_displays n line x width (suc k) (d ∷ ds) w =
      (print_display n line x width d
          >> print_displays n (if d.present then line + 12 else line + 10) x width k ds)
        w

  -- `refresh_display_ui`
  unfoldable pub refresh_display_ui : WinType → DisplayState → Cmd
  unfolding print_displays
  refresh_display_ui t s w =
      let n = (get_win t w).nwin in
      let width = (get_win t w).layout.width in
      let x = width / 20 in
      (mvwprintw2c env n 2 x (lit "connector") (fmt "%2d" (s.connector_count ∷ []))
          >> mvwprintw2c env n 3 x (lit "encoder") (fmt "%2d" (s.encoder_count ∷ []))
          >> mvwprintw2c env n 4 x (lit "crtc") (fmt "%2d" (s.crtc_count ∷ []))
          >> mvwprintw2c env n 5 x (lit "Display") (fmt "%2d" (s.alive_connector_count ∷ []))
          >> winframe env n 1 2 6 (sub32 width 2) "Display Info"
          >> print_displays n 8 x width s.alive_connector_count s.displayinfo)
        w

  module _ (e : Edid) (sys : Sys) (s : Scratch) where
    -- The page with what a query has read.
    unfoldable pub queried : DisplayPage → World → Option Query → Option (ℤ × DisplayPage × World)
    queried p w none = none
    queried p w (some q) =
        some (q.ret, record p { display_state = q.state; resource = q.resource; heap = q.heap }, w)

    -- `query_display_info` on the page; without a handle a NULL pointer is followed, after the state is
    -- cleared.
    unfoldable pub query_page : ℕ → DisplayPage → World → Option (ℤ × DisplayPage × World)
    unfolding queried
    query_page fuel p w =
        if has_handle w
        then queried p w (query_display_info sys s fuel p.resource p.heap)
        else some (negsuc 0, record p { display_state = valid_state }, (crash w).1)

    -- `tabDisplayInfoUpdate` behind the query.
    unfoldable pub show_changes : WinType → DisplayPage → World → ℤ × DisplayPage × World
    show_changes t p w =
        let (changed, ret, p') = take_over e (need e p) p in
        let (ret', w') =
          (ignore (window_clear env t)
              >> refresh_display_ui t p'.current_display_state
              >> call (World.Call.wrefresh (get_win t w).nwin))
            w in
        if changed then (if is_zero ret then (ret', p', w') else (ret, p', w)) else (ret, p', w)

    -- `tabDisplayInfoUpdate`
    unfoldable pub tab_display_info_update :
        ℕ → WinType → DisplayPage → World → Option (ℤ × DisplayPage × World)
    unfolding query_page show_changes
    tab_display_info_update fuel t p w = elim (query_page fuel p w) [
      | none ↦ none
      | some r ↦ some (if is_zero r.0 then show_changes t r.1 r.2 else r)
    ]

    -- `getAllInfo` behind the query.
    unfoldable pub keep_changes : ℤ × DisplayPage × World → ℤ × DisplayPage × World
    unfolding take_over
    keep_changes (ret, p, w) =
        let (_, ret', p') = take_over e (need e p) p in
        if is_zero ret then (ret', p', w) else (ret, p, w)

    -- `getAllInfo`; the device is kept before it is known that the query succeeds.
    unfoldable pub get_all_info : ℕ → DisplayPage → World → Option (ℤ × DisplayPage × World)
    unfolding query_page keep_changes
    get_all_info fuel p w =
        if same_slot (active_slot w) p.current_device
        then some (pos 0, p, w)
        else elim (query_page fuel (record p { current_device = active_slot w }) w) [
          | none ↦ none
          | some r ↦ some (keep_changes r)
        ]

    -- `tabDisplayInfoInit` behind `getAllInfo`.
    unfoldable pub show_page : WinType → ℤ × DisplayPage × World → ℤ × DisplayPage × World
    unfolding refresh_display_ui
    show_page t (ret, p, w) =
        let (ret', w') =
          (refresh_display_ui t p.current_display_state
              >> call (World.Call.wrefresh (get_win t w).nwin))
            w in
        if is_zero ret then (ret', p, w') else (ret, p, w)

    -- `tabDisplayInfoInit`
    unfoldable pub tab_display_info_init :
        ℕ → WinType → DisplayPage → World → Option (ℤ × DisplayPage × World)
    unfolding get_all_info show_page
    tab_display_info_init fuel t p w = elim (get_all_info fuel p w) [
      | none ↦ none
      | some r ↦ some (show_page t r)
    ]
