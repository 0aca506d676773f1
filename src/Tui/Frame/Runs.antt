-- ===== src/Tui/Frame/Runs.antt =====
-- Commands that return 0, so that what follows them is reached.
use amdtop.Base.{
  ℕ, zero, suc, ◌+◌, ◌*◌, ◌≡◌, refl, Bool, inl, inr, Bool-cases, true, false, Option, List, [], ◌∷◌,
  ℤ, pos, negsuc,
}
use amdtop.Tui.World
use amdtop.Tui.World.{
  WinType, ColorType, WindowLayout, World, Call, Cmd, Env, checked, ◌>>◌, ◌>>=◌, call, ignore,
  return, modify, when,
}
use amdtop.Tui.Screen.{add_blanks, winclear, window_clear, fill_rows, draw_main_window_border}
use amdtop.Tui.DeviceWindow.{print_devices, device_init, update_active_device}
use amdtop.Tui.Dispatch.{place_window, init_win_layout, init_main_window, init_pairs, init_color}

pub record Runs (m : Cmd) : Type 0 where
  pub apply : (w : World) → (m w).0 ≡ pos 0

checked-zero :
    (r : ℤ × World) (k : Cmd)
    → r.0 ≡ pos 0
    → ((w : World) → (k w).0 ≡ pos 0)
    → (checked r k).0 ≡ pos 0
checked-zero (pos zero, w) k e f = f w
checked-zero (pos (suc n), w) k e f = e
checked-zero (negsuc n, w) k e f = e

pub checked-runs : (r : ℤ × World) (k : Cmd) → r.0 ≡ pos 0 → checked r k ≡ k r.1
checked-runs (pos zero, w) k e = refl
checked-runs (pos (suc n), w) k e = cc
checked-runs (negsuc n, w) k e = cc

pub Runs->> : {m k : Cmd} → Runs m → Runs k → Runs (m >> k)
unfolding ◌>>◌
Runs->> {m} {k} f g = record { apply = λ w. checked-zero (m w) k (f.apply w) g.apply }

pub Runs->>= : {A : Type 0} (e : World → A) {k : A → Cmd} → ((a : A) → Runs (k a)) → Runs (e >>= k)
unfolding ◌>>=◌
Runs->>= e f = record { apply = λ w. (f (e w)).apply w }

Runs-call : (c : Call) → Runs (call c)
unfolding call
Runs-call c = record { apply = λ w. refl }

Runs-ignore : (m : Cmd) → Runs (ignore m)
unfolding ignore
Runs-ignore m = record { apply = λ w. refl }

Runs-modify : (f : World → World) → Runs (modify f)
unfolding modify
Runs-modify f = record { apply = λ w. refl }

Runs-when : (b : Bool) {m : Cmd} → Runs m → Runs (when b m)
unfolding when
Runs-when true f = f
Runs-when false f = record { apply = λ w. refl }

ruleset runs = (Runs->>, Runs->>=, Runs-call, Runs-ignore, Runs-modify, Runs-when)

add_blanks-zero : (k : ℕ) (n : Option ℕ) (w : World) → (add_blanks k n w).0 ≡ pos 0
unfolding add_blanks
add_blanks-zero zero n w = refl
add_blanks-zero (suc k) n w = add_blanks-zero k n _

fill_rows-zero : (y x c k : ℕ) (w : World) → (fill_rows y x c k w).0 ≡ pos 0
unfolding fill_rows
fill_rows-zero y x c zero w = refl
fill_rows-zero y x c (suc k) w = fill_rows-zero (y + 1) x c k _

Runs-fill_rows : (y x c k : ℕ) → Runs (fill_rows y x c k)
Runs-fill_rows y x c k = record { apply = fill_rows-zero y x c k }

Runs-draw_main_window_border : (y x h w : ℕ) → Runs (draw_main_window_border y x h w)
unfolding draw_main_window_border
Runs-draw_main_window_border y x h w = search (runs, Runs-fill_rows) depth 14

init_pairs-zero : (cs : List ColorType) (w : World) → (init_pairs cs w).0 ≡ pos 0
unfolding init_pairs
init_pairs-zero [] w = refl
init_pairs-zero (c ∷ cs) w = init_pairs-zero cs _

Runs-init_pairs : (cs : List ColorType) → Runs (init_pairs cs)
Runs-init_pairs cs = record { apply = init_pairs-zero cs }

pub Runs-init_color : Runs init_color
unfolding init_color
Runs-init_color = search (runs, Runs-init_pairs) depth 10

module _ (env : Env) where
  Runs-winclear : (n : Option ℕ) → Runs (winclear env n)
  unfolding winclear
  Runs-winclear n = record {
    apply = λ w. add_blanks-zero (env.getmaxy w.log n * env.getmaxx w.log n) n w;
  }

  Runs-window_clear : (t : WinType) → Runs (window_clear env t)
  unfolding window_clear
  Runs-window_clear t = search (runs, Runs-winclear) depth 12

  Runs-place_window : (t : WinType) (l : WindowLayout) → Runs (place_window env t l)
  unfolding place_window
  Runs-place_window t l = search runs depth 12

  pub Runs-init_win_layout : Runs (init_win_layout env)
  unfolding init_win_layout
  Runs-init_win_layout = search (runs, Runs-place_window) depth 12

  pub Runs-init_main_window : Runs (init_main_window env)
  unfolding init_main_window
  Runs-init_main_window = search (runs, Runs-window_clear, Runs-draw_main_window_border) depth 16

  Runs-update_active_device : (i : ℤ) → Runs (update_active_device env i)
  unfolding update_active_device
  Runs-update_active_device i = search runs depth 8

  Runs-device_tail :
      (n : Option ℕ)
      → Runs
          (do i ← λ w'. w'.active_device; update_active_device env i; call (World.Call.wrefresh n))
  Runs-device_tail n = search (runs, Runs-update_active_device) depth 8

  pub device_init-zero : (w : World) → (device_init env w).0 ≡ pos 0
  unfolding device_init
  device_init-zero w =
      elim (Bool-cases (print_devices env w.device_win.nwin 0 w.dctx.device_count w).0) [
        | inl e ↦ rw e ((Runs-device_tail w.device_win.nwin).apply _)
        | inr e ↦ rw e
      ]
