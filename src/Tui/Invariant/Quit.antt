-- ===== src/Tui/Invariant/Quit.antt =====
-- The way out of the event loop (tui/main.c, tui/mainwindow.c).
use amdtop.Base.{
  List, [], ℕ, zero, suc, ◌≡◌, ◌∙◌, refl, Bool, true, false, Option, none, some, ◌∷◌, ℤ, pos,
  negsuc, inl, inr, Bool-cases, if◌then◌else◌, leb, ap,
}
use amdtop.Tui.World
use amdtop.Tui.World.{
  WinType, device, tab, main, status, checked, World, Env, History, ◌>>◌, ◌>>=◌, call, ignore,
  modify, when, return,
}
use amdtop.Tui.Screen.{winframe, mvwprintwc}
use amdtop.Tui.MainWindow.{answer_exit, exit_program, main_handle_input}
use amdtop.Tui.StatusWindow.{status_handle_input}
use amdtop.Tui.Frame.Select.{eq_int_refl}
use amdtop.Tui.TabWindow.{next_tab, tab_handle_input}
use amdtop.Tui.DeviceWindow.{next_device, device_handle_input}
use amdtop.Tui.Dispatch.{handle_none, dispatch_loop, windows_dispatch_input, window_input}
use amdtop.Tui.Main.{all_ops, round, event_loop}

-- Whenever a key is awaited without a time limit, `y` is typed.
unfoldable pub SaysYes : Env → Type 0
SaysYes env = (h : History) → env.key (World.Call.timeout (negsuc 0) ∷ h) ≡ pos b'y'

module _ (env : Env) (yes_typed : SaysYes env) where
  exit_program-yes :
      (w : World) → ((exit_program env w).0 ≡ pos 0) × ((exit_program env w).1.request_exit ≡ true)
  unfolding exit_program SaysYes ◌>>◌ ◌>>=◌ call ignore winframe mvwprintwc answer_exit modify
  exit_program-yes w = rw (yes_typed _) (refl, refl)

  checked-zero : (r : ℤ × World) (k : World → ℤ × World) → r.0 ≡ pos 0 → checked r k ≡ k r.1
  checked-zero (pos zero, w) k e = refl
  checked-zero (pos (suc n), w) k e = cc
  checked-zero (negsuc n, w) k e = cc

  main-q :
      (w : World)
      → ((main_handle_input env (pos b'q') w).0 ≡ handle_none)
        × ((main_handle_input env (pos b'q') w).1.request_exit ≡ true)
  unfolding main_handle_input ◌>>◌ when return
  main-q w =
      let (e, exit) = exit_program-yes w in
      let same = checked-zero (exit_program env w) (λ v. (handle_none, v)) e in
      (ap (λ r. r.0) same, ap (λ r. r.1.request_exit) same ∙ exit)

  device-q : (w : World) → device_handle_input env (pos b'q') w ≡ (handle_none, w)
  unfolding device_handle_input ◌>>◌ ◌>>=◌ return next_device
  device-q w = elim (Bool-cases (leb w.dctx.device_count 1)) [
    | inl few ↦ rw few refl
    | inr many ↦ rw (many, eq_int_refl w.active_device) refl
  ]

  tab-q : (w : World) → tab_handle_input env (pos b'q') w ≡ (handle_none, w)
  unfolding tab_handle_input ◌>>◌ ◌>>=◌ return next_tab
  tab-q w = rw (eq_int_refl w.active_tab) refl

  skip :
      (t : WinType) (ts : List WinType) (w : World)
      → window_input (all_ops env t) (pos b'q') w ≡ (handle_none, w)
      → dispatch_loop (all_ops env) (pos b'q') (t ∷ ts) w
        ≡ dispatch_loop (all_ops env) (pos b'q') ts w
  unfolding dispatch_loop
  skip t ts w e = elim (Bool-cases w.setup) [ inl s ↦ simp (s, e) refl | inr s ↦ simp s refl ]

  from_main :
      (w : World)
      → w.setup ≡ true
      → (dispatch_loop (all_ops env) (pos b'q') (main ∷ status ∷ []) w).1.request_exit ≡ true
  unfolding dispatch_loop window_input status_handle_input return
  from_main w s =
      let (unhandled, exit) = main-q w in
      let w' = (main_handle_input env (pos b'q') w).1 in
      let last = skip status [] w' refl in
      simp (s, unhandled) (ap (λ r. r.1.request_exit) last ∙ exit)

  dispatch-q :
      (w : World)
      → w.setup ≡ true
      → (windows_dispatch_input (all_ops env) (pos b'q') w).1.request_exit ≡ true
  unfolding windows_dispatch_input window_input
  dispatch-q w s =
      ap (λ r. r.1.request_exit)
        (skip device (tab ∷ main ∷ status ∷ []) w (device-q w)
          ∙ skip tab (main ∷ status ∷ []) w (tab-q w))
      ∙ from_main w s

  round-q :
      (w : World)
      → env.key w.log ≡ pos b'q'
      → round env w ≡ (
        none,
        (windows_dispatch_input
            (all_ops env)
            (pos b'q')
            (record w { log = World.Call.getch ∷ w.log })).1,
      )
  unfolding round
  round-q w q = simp q refl

module _ (env : Env) where
  -- What the loop does with the flag `now` and the result `r` of the round.
  leaves :
      (k : ℕ) (now : Bool) (w : World) (r : Option ℤ × World)
      → r.0 ≡ none
      → r.1.request_exit ≡ true
      → (if now then (some (pos 0), w) else elim r.0 as (λ o. Option ℤ × World) [
        | none ↦ event_loop env (suc k) r.1
        | some ret ↦ r
      ]).0
        ≡ some (pos 0)
  unfolding event_loop
  leaves k true w r onward exit = refl
  leaves k false w (none, w') onward exit = simp exit refl
  leaves k false w (some ret, w') onward exit = cc

-- In a state with the windows installed, when `q` is the next key and the question whether to exit is
-- answered by `y`, the next round requests the exit, and the event loop ends with the result 0 as soon as
-- it may take two rounds.
pub event_loop-quits :
    (env : Env) (rounds : ℕ) (w : World)
    → SaysYes env
    → w.setup ≡ true
    → env.key w.log ≡ pos b'q'
    → ((round env w).1.request_exit ≡ true)
      × ((event_loop env (suc (suc rounds)) w).0 ≡ some (pos 0))
unfolding event_loop
event_loop-quits env rounds w yes_typed s q =
    let w' = record w { log = World.Call.getch ∷ w.log } in
    let same = round-q env yes_typed w q in
    let exit : (round env w).1.request_exit ≡ true =
      ap (λ r. r.1.request_exit) same ∙ dispatch-q env yes_typed w' s in
    let onward : (round env w).0 ≡ none = ap (λ r. r.0) same in
    (exit, leaves env rounds w.request_exit w (round env w) onward exit)
