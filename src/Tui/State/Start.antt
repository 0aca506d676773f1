-- ===== src/Tui/State/Start.antt =====
-- The state page from its first drawing on (tui/stateinfo.c).
use amdtop.Base.{
  ℕ, zero, ◌+◌, ◌*◌, ◌-◌, ◌/◌, ◌%◌, sub32, ◌≡◌, ◌<◌, ◌∙◌, ◌⊎◌, Bool, true, false, ◌||◌, is_some,
  Option, List, [], ◌∷◌, ℤ, pos, if◌then◌else◌, refl, arith, inl, inr, Bool-cases, u32_mod, ltb,
}
use amdtop.Tui.World
use amdtop.Tui.World.{WinType, Window, World, Env, Cmd, ColorType, Text, fmt, lit, get_win, call}
use amdtop.Tui.Screen.{mvwprintwc, mvwprintwc_center, winframe}
use amdtop.Tui.State.{
  StatePage, Answers, Action, ◌>>◌, log_query, draw, change, update_sensor_value, active_handle,
  active_handle,
}
use amdtop.Tui.State.Clients.{print_blanks, update_client_info}
use amdtop.Tui.State.Handlers.{
  create_gauges, create_clients, set_maxima, tab_state_info_update, tab_state_info_init,
}
use amdtop.Tui.State.Safe.{
  CanDraw, Positive, Safe, Safe-then, Safe-checked, Safe-draw, Safe-update_sensor_value,
}
use amdtop.Tui.State.Create.{Made, order, Leads-create_gauges, Made-Positive}
use amdtop.Tui.State.Drawable.{
  Sane, Safe-set_maxima, Safe-refreshed, Safe-update_client_info, Safe-wrefresh, fault-print_blanks,
}
use Prim.Native.String.{String}

fault-winframe :
    (env : Env) (n : Option ℕ) (a b c d : ℕ) (label : String) (w : World)
    → (winframe env n a b c d label w).1.fault ≡ w.fault
unfolding winframe mvwprintwc World.◌>>◌ World.call World.ignore
fault-winframe env n a b c d label w = refl

-- What an action leads to that is done with a page whose gauges need not be drawable.
unfoldable Starts : Action → Type 0
Starts m =
    (p : StatePage) (w : World) → w.fault ≡ false → Positive (m p w).1 × ((m p w).2.fault ≡ false)

Starts-then : (m k : Action) → Starts m → Safe k → Starts (m >> k)
unfolding Starts ◌>>◌
Starts-then m k f g p w e = let (b, e') = f p w e in Safe-checked k (m p w) g b e'

module _ (env : Env) (q : Answers) (sane : Sane q) where
  Starts-gauges :
      (c : Cmd) (n : Option ℕ) (startx start2x width : ℕ)
      → ((w : World) → (c w).1.fault ≡ w.fault)
      → Starts (draw c >> create_gauges env q n startx start2x width)
  unfolding Starts draw ◌>>◌ Made
  Starts-gauges c n x x' width quiet p w e =
      let (z, made, e') =
        (Leads-create_gauges env q n x x' width).run p (c w).1
          (λ t l. nothing (order t) (CanDraw (p.bars t)) l) (quiet w ∙ e) in
      (Made-Positive env q _ made, e')
    where
      nothing : (k : ℕ) (A : Type 0) → k < 0 → A
      nothing k A l = absurd (omega arith)

  Safe-frame :
      (n : Option ℕ) (a b c d : ℕ) (label : String) → Safe (draw (winframe env n a b c d label))
  Safe-frame n a b c d label = Safe-draw (winframe env n a b c d label) quiet
    where
      quiet : (w : World) → (winframe env n a b c d label w).1.fault ≡ w.fault
      quiet w = fault-winframe env n a b c d label w

  Safe-blanks :
      (c : ColorType) (n : Option ℕ) (y x k : ℕ)
      → Safe (λ p w. (pos 0, p, print_blanks env q c n y x k w))
  unfolding Safe Positive
  Safe-blanks c n y x k p w a e = (a, fault-print_blanks env q sane c n y x k w ∙ e)

  Safe-place :
      (y k : ℕ) → Safe (change (λ w p. record p { ui_clients_starty = y; ui_clients_count = k }))
  unfolding Safe Positive change
  Safe-place y k p w a e = (a, e)

  Safe-head :
      (n : Option ℕ) (y : ℕ) (x : World → ℕ) (c : ColorType) (t : Text)
      → Safe (λ p w. draw (mvwprintwc env n y (x w) c t) p w)
  unfolding Safe Positive draw mvwprintwc World.◌>>◌ World.call
  Safe-head n y x c t p w a e = (a, e)

  Safe-root :
      Safe (λ p w.
        (pos 0, record p { has_root_permission = q.is_root w.log }, log_query "geteuid" 0 w))
  unfolding Safe Positive
  Safe-root p w a e = (a, e)

  Safe-hint :
      (n : Option ℕ) (x : ℕ) (t : Text)
      → Safe (λ p w.
        if p.has_root_permission
        then (pos 0, p, w)
        else draw
            (mvwprintwc env n
              ((p.ui_clients_starty + p.ui_clients_count / 2) % u32_mod)
              x
              World.red
              t)
            p
            w)
  unfolding Safe Positive draw mvwprintwc World.◌>>◌ World.call
  Safe-hint n x t p w a e = elim (Bool-cases p.has_root_permission) [
    | inl r ↦ simp r (a, e)
    | inr r ↦ simp r (a, e)
  ]

  Safe-create_clients : (v : Window) → Safe (create_clients env q v)
  unfolding create_clients
  Safe-create_clients v =
      search (Safe-then, Safe-frame, Safe-blanks, Safe-place, Safe-head, Safe-root, Safe-hint) depth
        12

  Starts-wide :
      (v : Window) (device n : Option ℕ) (startx start2x width : ℕ) (c : Cmd)
      → ((w : World) → (c w).1.fault ≡ w.fault)
      → is_some device ≡ true
      → Starts (
          draw c
          >> create_gauges env q n startx start2x width
          >> create_clients env q v
          >> set_maxima env q device
          >> update_sensor_value env q device n
          >> update_client_info env q device n
          >> draw (call (World.Call.wrefresh n)))
  Starts-wide v device n x x' width c quiet there =
      search
        (
          there, Starts-then, Starts-gauges, quiet, Safe-create_clients, Safe-set_maxima,
          Safe-update_sensor_value, Safe-update_client_info, Safe-wrefresh, sane,
        )
        depth 12

-- A page that is drawn again has drawable gauges.
unfoldable pub Drawable : StatePage → Type 0
unfolding Positive
Drawable p = (p.need_refresh ≡ false) ⊎ Positive p

-- `tabStateInfoUpdate`, called once in each of the states: whether one of the calls crashes.
unfoldable pub refresh_crashes : Env → Answers → WinType → List World → StatePage → Bool
refresh_crashes env q t [] p = false
refresh_crashes env q t (w ∷ ws) p =
    let r = tab_state_info_update env q t p w in r.2.fault || refresh_crashes env q t ws r.1

-- States in which no NULL pointer has been followed and the active card has a handle.
unfoldable pub Calm : List World → Type 0
Calm [] = zero ≡ zero
Calm (w ∷ ws) = ((w.fault ≡ false) × (is_some (active_handle w) ≡ true)) × Calm ws

-- The result of an action that is done only where the page is drawn again.
either :
    (b : Bool) (p : StatePage) (w : World) (r : ℤ × StatePage × World)
    → p.need_refresh ≡ b
    → Drawable p
    → w.fault ≡ false
    → (Positive p → w.fault ≡ false → Positive r.1 × (r.2.fault ≡ false))
    → Drawable (if◌then◌else◌ {A = ℤ × StatePage × World} b r (pos 0, p, w)).1
      × ((if◌then◌else◌ {A = ℤ × StatePage × World} b r (pos 0, p, w)).2.fault ≡ false)
unfolding Drawable
either false p w r f d e safe = (d, e)
either true p w r f (inl stopped) e safe = cc
either true p w r f (inr a) e safe = let (b, e') = safe a e in (inr b, e')

module _ (env : Env) (q : Answers) (sane : Sane q) (t : WinType) where
  Drawable-update :
      (p : StatePage) (w : World)
      → Drawable p
      → w.fault ≡ false
      → is_some (active_handle w) ≡ true
      → Drawable (tab_state_info_update env q t p w).1
        × ((tab_state_info_update env q t p w).2.fault ≡ false)
  unfolding tab_state_info_update Safe
  Drawable-update p w d e there =
      either p.need_refresh p w
        ((update_sensor_value env q (active_handle w) (get_win t w).nwin
            >> update_client_info env q (active_handle w) (get_win t w).nwin
            >> draw (call (World.Call.wrefresh (get_win t w).nwin)))
          p w)
        refl d e (Safe-refreshed env q sane (active_handle w) (get_win t w).nwin there p w)

  Drawable-refresh_crashes :
      (ws : List World) (p : StatePage)
      → Drawable p
      → Calm ws
      → refresh_crashes env q t ws p ≡ false
  unfolding refresh_crashes Calm
  Drawable-refresh_crashes [] p d c = refl
  Drawable-refresh_crashes (w ∷ ws) p d ((e, there), c) =
      let (d', e') = Drawable-update p w d e there in
      simp e' (Drawable-refresh_crashes ws (tab_state_info_update env q t p w).1 d' c)

  Drawable-init :
      (p : StatePage) (w : World)
      → w.fault ≡ false
      → is_some (active_handle w) ≡ true
      → Drawable (tab_state_info_init env q t p w).1
        × ((tab_state_info_init env q t p w).2.fault ≡ false)
  unfolding tab_state_info_init Drawable Starts change draw ◌>>◌ mvwprintwc_center mvwprintwc
      World.◌>>◌ World.◌>>=◌ World.call World.ignore
  Drawable-init p w e there =
      let v = get_win t w in
      let startx = v.layout.width / 20 in
      let bar_width = sub32 (sub32 v.layout.width (3 * startx)) 2 / 2 in
      let wide_lem =
        Starts-wide env q sane v (active_handle w) v.nwin startx (startx + bar_width + startx)
          (bar_width - 28) (winframe env v.nwin 1 1 10 (sub32 v.layout.width 2) "HW Monitor")
          (fault-winframe env v.nwin 1 1 10 (sub32 v.layout.width 2) "HW Monitor") there p w e in
      elim (Bool-cases (ltb bar_width 28)) [
        | inl narrow ↦ simp narrow (inl refl, e)
        | inr wide ↦ simp wide (inr wide_lem.0, wide_lem.1)
      ]

-- When the clocks are from 1000 to below 2 ^ 32 kHz, the memories of the card from 2 ^ 20 to below 2 ^ 51
-- bytes and that of the machine from 2 ^ 10 to below 2 ^ 32 KiB, every user has a name and there are at
-- most forty clients, drawing the state page and then refreshing it any number of times, in any states in
-- which no NULL pointer has been followed and the active card has a handle, neither divides by zero nor
-- follows a NULL pointer nor writes behind the array of clients, whichever of the queries fail.
pub fault-state_page :
    (env : Env) (q : Answers) (t : WinType) (p : StatePage) (w : World) (ws : List World)
    → Sane q
    → Calm (w ∷ ws)
    → ((tab_state_info_init env q t p w).2.fault ≡ false)
      × (refresh_crashes env q t ws (tab_state_info_init env q t p w).1 ≡ false)
unfolding Calm
fault-state_page env q t p w ws sane ((e, there), c) =
    let (d, e') = Drawable-init env q sane t p w e there in
    (e', Drawable-refresh_crashes env q sane t ws (tab_state_info_init env q t p w).1 d c)
