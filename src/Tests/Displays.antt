-- ===== src/Tests/Displays.antt =====
-- The theorems on the display page after its update.
use amdtop.Base.{◌≡◌, refl, false, Option, none, some, [], ◌∷◌, ℤ, pos, einval, arith}
use amdtop.Core.Heap.{alloc, alloc_some, free, copy}
use amdtop.Core.Mode.Resources
use amdtop.Core.Mode.Connectors
use amdtop.Core.Mode.Properties
use amdtop.Core.Mode.Names.{get_connector_name_by_type, get_encoder_name_by_type}
use amdtop.Core.Mode.Resources.{get_mode_resource, alloc_next, duplicate}
use amdtop.Core.Mode.Connectors.{get_connector, free_connector, copy_mode_info}
use amdtop.Core.Mode.Properties.{get_property}
use amdtop.Core.Mode.Blobs.{get_prop_blob, get_encoder, get_crtc}
use amdtop.Tui.Display.Properties.{get_connector_prop_blob, get_connector_prop_enum}
use amdtop.Tui.Screen.{mvwprintwc, mvwprintw2c, window_clear, winframe}
use amdtop.Tui.World.{main, World, get_active_device, ◌>>◌, ◌>>=◌, call, ignore, when}
use amdtop.Tui.Display.{DisplayState, no_displays, need_update_display_info}
use amdtop.Tui.Display.Edid.{Edid, find_text, parse_edid_info}
use amdtop.Tui.Display.Shown.{Same}
use amdtop.Tui.Display.Query.{Scratch, query_display_info}
use amdtop.Tui.Display.Page.{
  DisplayPage, has_handle, take_over, update_displays, refresh_display_ui, show_changes,
  tab_display_info_update,
}
use amdtop.Tui.Display.Drawn.{Drawn, tab_display_info_update-Drawn}
use amdtop.Tui.Display.Undrawn.{show_changes-NoSerial}
use amdtop.Tests.Screens.{terminal, ready}
use amdtop.Tests.Pages.{monitor, one_monitor}
use amdtop.Tests.Kernel.{working, fresh, vga_mode}

-- An EDID without descriptors.
abbrev plain : Edid
plain = record {
  is_monitor_descriptor = λ raw i. false;
  tag = λ raw i. 0;
  text = λ raw i. [];
  manufacture_year = λ raw. 20;
  manufacture_week = λ raw. 3;
  manufacturer = λ raw. [];
}

abbrev scratch : Scratch
scratch = record {
  encoder = record {
    id = 0;
    encoder_type = 0;
    crtc_id = 0;
    possible_crtcs = 0;
    possible_clones = 0;
  };
  crtc = record {
    id = 0;
    set_connectors_ptr = 0;
    count_connectors = 0;
    fb_id = 0;
    x = 0;
    y = 0;
    width = 0;
    height = 0;
    gamma_size = 0;
    mode_valid = 0;
    mode_info = vga_mode;
  };
}

abbrev empty_page : DisplayPage
empty_page = record {
  display_state = no_displays;
  current_display_state = no_displays;
  current_device = none;
  resource = none;
  heap = fresh;
}

abbrev page_of : Option (ℤ × DisplayPage × World) → DisplayPage
page_of none = empty_page
page_of (some r) = r.1

abbrev world_of : Option (ℤ × DisplayPage × World) → World
world_of none = ready
world_of (some r) = r.2

abbrev shown : Option (ℤ × DisplayPage × World)
shown = tab_display_info_update terminal plain working scratch 1 main empty_page ready

tab_display_info_update-Drawn_example :
    Same (page_of shown).current_display_state (page_of shown).display_state
    × Drawn terminal main empty_page.current_display_state
        (page_of shown).current_display_state
        ready
        (world_of shown)
unfolding tab_display_info_update has_handle get_active_device query_display_info get_mode_resource
    Resources.alloc_temps alloc_next alloc alloc_some Resources.build Resources.duplicate_all
    duplicate copy free Resources.free_temps get_connector Connectors.alloc_temps Connectors.build
    Connectors.duplicate_all copy_mode_info get_connector_prop_blob get_connector_prop_enum
    get_property Properties.is_enum Properties.is_blob get_prop_blob get_encoder get_crtc
    free_connector need_update_display_info get_connector_name_by_type get_encoder_name_by_type
    window_clear refresh_display_ui mvwprintw2c winframe mvwprintwc ◌>>◌ ◌>>=◌ call ignore when
    take_over update_displays parse_edid_info Properties.free_property
tab_display_info_update-Drawn_example =
    tab_display_info_update-Drawn terminal plain working scratch 1 main empty_page (page_of shown)
      ready (world_of shown) refl refl (omega arith) (omega arith)

abbrev unnamed : DisplayState
unnamed = record one_monitor { displayinfo = record monitor { edid_len = 128 } ∷ [] }

abbrev seen : DisplayPage
seen = record empty_page { display_state = unnamed }

show_changes-NoSerial_example :
    (p' : DisplayPage) × (show_changes terminal plain working scratch main seen ready
      ≡ (einval, p', ready))
    × ((q : DisplayState) (w' : World)
        → Same unnamed q
        → show_changes terminal plain working scratch main (record p' { display_state = q }) w'
          ≡ (pos 0, record p' { display_state = q }, w'))
unfolding need_update_display_info find_text
show_changes-NoSerial_example =
    show_changes-NoSerial terminal plain working scratch main seen ready 0
      (record monitor { edid_len = 128 }) [] refl refl refl refl (omega arith) (ground arith, refl)
