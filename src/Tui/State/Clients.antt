-- ===== src/Tui/State/Clients.antt =====
-- tui/stateinfo.c: the table of the clients of the card.
use amdtop.Base.{
  ℕ, zero, suc, ◌+◌, ◌-◌, ◌/◌, Option, none, some, List, [], ◌∷◌, pos, negsuc, ltb, length,
  if◌then◌else◌, get_elem?,
}
use amdtop.Tui.World.{World, Env, ColorType, fmt, lit, default, crash}
use amdtop.Tui.Screen.{mvwprintwc}
use amdtop.Tui.State.{Client, Answers, Action, log_query, need_device, ask, ◌>>◌}

abbrev pub max_client_count : ℕ
max_client_count = 40

abbrev pub max_name_size : ℕ
max_name_size = 100

module _ (env : Env) (q : Answers) where
  -- Blanks in a line, from column `x` on.
  unfoldable pub print_blanks : ColorType → Option ℕ → (y x rounds : ℕ) → World → World
  print_blanks c n y x zero w = w
  print_blanks c n y x (suc k) w =
      print_blanks c n y (x + 1) k (mvwprintwc env n y x c (lit " ") w).1

  -- A client with a name for its user; without one, a NULL pointer is followed.
  unfoldable pub print_client : Option ℕ → (y x i : ℕ) → Client → Action
  print_client n y x i c p w =
      let w' = log_query "getpwuid" c.uid w in
      if q.has_passwd w.log c.uid
      then (
        pos 0,
        p,
        (mvwprintwc env n y x default
            (fmt "%-5d %-15s\t %-10d\t %-10s\t %-10s\t %-10s\t %s"
              (i ∷ c.pid ∷ c.dev ∷ c.master ∷ c.a ∷ []))
            w').1,
      )
      else (negsuc 0, p, (crash w').1)

  -- A round of the loop of `update_client_info`.
  unfoldable pub client_row : Option ℕ → (y x i : ℕ) → Option Client → Action
  unfolding print_blanks print_client
  client_row n y x i none p w =
      (pos 0, p, print_blanks default n y 2 (env.getmaxx w.log n - 3 - 2) w)
  client_row n y x i (some c) p w =
      if c.hidden
      then (pos 0, p, print_blanks default n y 2 (env.getmaxx w.log n - 3 - 2) w)
      else print_client n y x i c p w

  unfoldable pub client_rows : Option ℕ → (y x : ℕ) → List Client → (rounds i : ℕ) → Action
  unfolding client_row ◌>>◌
  client_rows n y x cs zero i p w = (pos 0, p, w)
  client_rows n y x cs (suc k) i p w =
      (client_row n (y + i) x i (get_elem? cs i) >> client_rows n y x cs k (suc i)) p w

  -- The lines that `amdGpuQueryClientInfo` reads, at most `n`.
  unfoldable pub first_of : ℕ → List Client → List Client
  first_of zero cs = []
  first_of (suc n) [] = []
  first_of (suc n) (c ∷ cs) = c ∷ first_of n cs

  -- What is done with the lines: there is room for forty.
  unfoldable pub show_clients : Option ℕ → List Client → Action
  unfolding client_rows first_of
  show_clients n cs p w =
      let read = first_of max_name_size cs in
      if ltb max_client_count (length read)
      then (negsuc 0, p, (crash w).1)
      else client_rows n p.ui_clients_starty (env.getmaxx w.log n / 20) read p.ui_clients_count 0 p
          w

  -- `update_client_info`
  unfoldable pub update_client_info : (device n : Option ℕ) → Action
  unfolding need_device ask show_clients ◌>>◌
  update_client_info device n p w =
      if p.has_root_permission
      then (need_device device >> ask "clients" 0 q.clients (show_clients n)) p w
      else (pos 0, p, w)
