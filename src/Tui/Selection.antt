-- ===== src/Tui/Selection.antt =====
-- What the keys of tui/tabwindow.c and tui/devicewindow.c mean to a user: a page and a card are
-- selected, and four actions move the selection.
pub mod Refines
use amdtop.Base.{ℕ, ◌+◌, ◌-◌, ◌%◌, List, [], ◌∷◌, ℤ, pos, negsuc, ltb, if◌then◌else◌}
use amdtop.Tui.World.{World, Env}
use amdtop.Tui.TabWindow.{is_next, is_previous}
use amdtop.Tui.DeviceWindow.{is_f3, is_f4}
use amdtop.Tui.Dispatch.{windows_dispatch_input}
use amdtop.Tui.Main.{all_ops}

pub record Selection : Type 0 where
  pub pages : ℕ
  pub cards : ℕ
  pub page : ℕ
  pub card : ℕ

pub data Action : Type 0 where
  next_page previous_page previous_card next_card other : Action

-- The pages are a ring, the cards a row.
unfoldable pub act : Action → Selection → Selection
act next_page s = record s { page = (s.page + 1) % s.pages }
act previous_page s = record s { page = (s.page + s.pages - 1) % s.pages }
act previous_card s = record s { card = s.card - 1 }
act next_card s = record s { card = if ltb (s.card + 1) s.cards then s.card + 1 else s.card }
act other s = s

unfoldable pub act_all : List Action → Selection → Selection
act_all [] s = s
act_all (a ∷ rest) s = act_all rest (act a s)

-- The key's action.
unfoldable pub action : ℤ → Action
action ch =
    if is_next ch
    then next_page
    else (if is_previous ch
        then previous_page
        else (if is_f3 ch then previous_card else if is_f4 ch then next_card else other))

unfoldable pub actions : List ℤ → List Action
actions [] = []
actions (ch ∷ rest) = action ch ∷ actions rest

-- The index that an `int` holds.
abbrev pub index : ℤ → ℕ
index (pos n) = n
index (negsuc n) = 0

-- What a state shows of the selection.
unfoldable pub view : World → Selection
view w = record {
  pages = w.tab_count;
  cards = w.dctx.device_count;
  page = index w.active_tab;
  card = index w.active_device;
}

-- The keys go through `WindowsDispatchInput` one by one.
unfoldable pub press : Env → List ℤ → World → World
press env [] w = w
press env (ch ∷ rest) w = press env rest (windows_dispatch_input (all_ops env) ch w).1
