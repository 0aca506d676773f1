-- ===== src/Tui/Invariant/Exit.antt =====
-- Who can end the event loop (tui/main.c).
use amdtop.Base.{◌≡◌, false, inl, inr, Bool-cases, ◌∷◌}
use amdtop.Tui.World
use amdtop.Tui.World.{World, Env}
use amdtop.Tui.MainWindow.{is_key}
use amdtop.Tui.Main.{is_resize, is_err, round}
use amdtop.Tui.Frame.Dispatch.{Frame-windows_dispatch_input}
use amdtop.Tui.Invariant.{Good-TabOk}
use amdtop.Tui.Invariant.Windows.{Sound-windows_update, Sound-windows_update_ui}
use amdtop.Tui.Invariant.Reach.{Inv}

-- From a state with the invariant, a round of the event loop in which another key than `q`, or none, is
-- read leaves the request to exit as it was, whether it updates the windows, starts them anew after a
-- resize or hands the key on.
pub request_exit-round :
    (env : Env) (w : World)
    → Inv w
    → is_key b'q' (env.key w.log) ≡ false
    → (round env w).1.request_exit ≡ w.request_exit
unfolding round
request_exit-round env w0 i other =
    let ch = env.key w0.log in
    let w = record w0 { log = World.Call.getch ∷ w0.log } in
    elim (Bool-cases (is_resize ch)) [
      | inl e ↦
          simp e ((Sound-windows_update_ui env (record w { log = World.Call.erase ∷ w.log })).exit)
      | inr e ↦ elim (Bool-cases (is_err ch)) [
        | inl z ↦ simp (e, z) ((Sound-windows_update env 0 w).exit)
        | inr z ↦
            simp (e, z)
              ((Frame-windows_dispatch_input env ch w i.ready.setup (Good-TabOk i.good)).exit other)
      ]
    ]
