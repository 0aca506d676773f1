-- ===== src/Tui/World.antt =====
-- The state of the front end (tui/window.h, tui/context.h, tui/tabinfo.h), the calls that it makes
-- to ncurses and to the system, and the commands over both.
-- ncurses and the system are the parameter `Env`: each answer is a function of all calls so far.
use amdtop.Base.{
  ℕ, suc, Bool, true, false, Option, List, ◌∷◌, ℤ, pos, negsuc, leb, to_u32, zero, if◌then◌else◌,
  none,
}
use amdtop.Tui.Device.{Device, DeviceContext, Answers}
use Prim.Native.String.{String}

-- `enum WindowType`
pub data WinType : Type 0 where
  device tab main status : WinType

-- `struct WindowLayout`, four uint32_t
pub record WindowLayout : Type 0 where
  pub starty : ℕ
  pub startx : ℕ
  pub width : ℕ
  pub height : ℕ

-- `struct Window`; `name`, `id` and `ops` are constants, `nwin` is the ncurses handle or NULL.
pub record Window : Type 0 where
  pub layout : WindowLayout
  pub nwin : Option ℕ
  pub last_update_time : ℕ
  pub period : ℕ

-- `enum ColorType`
pub data ColorType : Type 0 where
  unknow default background title tab_active tab_inactive label_name label_value red blue yellow
        green logo :
      ColorType

-- What is printed: a literal, or a format with its numbers.
pub data Text : Type 0 where
  lit : String → Text
  fmt : String → List ℕ → Text

-- The calls to ncurses and to the system. A window is its handle, `none` the standard screen or a
-- window that could not be made; a coordinate is the 32-bit pattern of the `int` that is passed.
pub data Call : Type 0 where
  newwin : (h w y x : ℕ) → Call
  delwin wclear waddch wrefresh : Option ℕ → Call
  box : Option ℕ → Call
  wattrset : Option ℕ → ColorType → Call
  wmove : Option ℕ → (y x : ℕ) → Call
  printw : Option ℕ → ColorType → Text → Call
  mvwprintw : Option ℕ → (y x : ℕ) → Text → Call
  hline vline : Option ℕ → (y x len : ℕ) → Call
  corner : Option ℕ → (y x : ℕ) → Call
  mvaddch : (y x : ℕ) → Call
  init_pair : ColorType → Call
  refresh erase getch read_clock : Call
  timeout : ℤ → Call
  query : String → ℕ → Call
  tab_call : String → ℕ → Call

-- All calls made so far, the latest first.
abbrev pub History : Type 0
History = List Call

-- `struct Context`, `struct WindowContext`, the four windows, the tab pages' update times and the
-- globals `gTabCount` and `requeset_exit`. `setup` says that `wins[]` has been filled, `fault` that a
-- NULL pointer has been followed.
pub record World : Type 0 where
  pub width : ℕ
  pub height : ℕ
  pub startx : ℕ
  pub starty : ℕ
  pub has_color : Bool
  pub color : Bool
  pub setup : Bool
  pub device_win : Window
  pub tab_win : Window
  pub main_win : Window
  pub status_win : Window
  pub dctx : DeviceContext
  pub active_device : ℤ
  pub active_tab : ℤ
  pub tab_count : ℕ
  pub tab_times : ℕ → ℕ
  pub request_exit : Bool
  pub fault : Bool
  pub page_fault : Bool
  pub log : History

-- A C function that returns an `int`.
abbrev pub Cmd : Type 0
Cmd = World → ℤ × World

-- The answers of ncurses and of the system, and the handlers of the tab pages' `struct TabInfo`. A
-- page keeps its statics to itself: what it returns, the calls that it makes, the latest first, and whether
-- it crashes depend on the state and on the calls made so far. `none` is a NULL handler.
pub record Env : Type 0 where
  pub cols : History → ℕ
  pub lines : History → ℕ
  pub has_colors : History → Bool
  pub new_window : History → Option ℕ
  pub getmaxx : History → Option ℕ → ℕ
  pub getmaxy : History → Option ℕ → ℕ
  pub getcurx : History → Option ℕ → ℕ
  pub key : History → ℤ
  pub clock : History → ℕ
  pub printw_ret : History → ℤ
  pub gpu_load_ret : History → ℤ
  pub gpu_load : History → ℕ
  pub has_kernel_driver : History → ℕ → Bool
  pub answers : History → ℕ → Answers
  pub tab_init : ℕ → World → Option (ℤ × List Call × Bool)
  pub tab_exit : ℕ → World → Option (ℤ × List Call × Bool)
  pub tab_update : ℕ → World → Option (ℤ × List Call × Bool)

-- `ret = m; if (ret) return ret;` and then the rest: what `do` means over commands.
abbrev pub checked : ℤ × World → Cmd → ℤ × World
checked (pos zero, w) k = k w
checked (pos (suc n), w) k = (pos (suc n), w)
checked (negsuc n, w) k = (negsuc n, w)

infixl 5 ◌>>◌ ◌>>=◌
unfoldable pub ◌>>◌ : Cmd → Cmd → Cmd
◌>>◌ m k w = checked (m w) k

-- `x ← e` reads a value off the state.
unfoldable pub ◌>>=◌ : {A : Type 0} → (World → A) → (A → Cmd) → Cmd
◌>>=◌ e k w = k (e w) w

unfoldable pub return : ℤ → Cmd
return r w = (r, w)

-- A call whose result the caller does not look at.
unfoldable pub ignore : Cmd → Cmd
ignore m w = (pos 0, (m w).1)

unfoldable pub call : Call → Cmd
call c w = (pos 0, record w { log = c ∷ w.log })

unfoldable pub modify : (World → World) → Cmd
modify f w = (pos 0, f w)

unfoldable pub when : Bool → Cmd → Cmd
when true m w = m w
when false m w = (pos 0, w)

-- The program crashes: nothing after it is modelled.
unfoldable pub crash : Cmd
crash w = (negsuc 0, record w { fault = true })

abbrev pub get_win : WinType → World → Window
get_win device w = w.device_win
get_win tab w = w.tab_win
get_win main w = w.main_win
get_win status w = w.status_win

abbrev pub set_win : WinType → Window → World → World
set_win device v w = record w { device_win = v }
set_win tab v w = record w { tab_win = v }
set_win main v w = record w { main_win = v }
set_win status v w = record w { status_win = v }

abbrev pub get_nwin : WinType → World → Option ℕ
get_nwin t w = (get_win t w).nwin

-- `getAcitveDevice`
unfoldable pub get_active_device : World → Option Device
get_active_device w =
    if leb (to_u32 w.active_device) w.dctx.device_count
    then w.dctx.devs (to_u32 w.active_device)
    else none
