-- ===== src/Tui/Invariant/Reach.antt =====
-- The invariant in every state that the program reaches, and the keys in such a state.
use amdtop.Base.{ℕ, suc, ◌<◌, inl, inr, Bool-cases, ℤ, pos, negsuc, arith, leb}
use amdtop.Tui.World
use amdtop.Tui.World.{device, tab, main, status, World, Env, ◌>>=◌, call, get_win, set_win}
use amdtop.Tui.Dispatch.{windows_dispatch_input}
use amdtop.Tui.Main.{all_ops}
use amdtop.Tui.Frame.Dispatch.{selected, Frame-windows_dispatch_input}
use amdtop.Tui.Invariant.{Below, Good, Ready, Good-TabOk, next_tab-Below, next_device-Below}
use amdtop.Tui.Invariant.Sound.{Sound, Frame-Good, Frame-Ready}

pub record Inv (w : World) : Type 0 where
  pub good : Good w
  pub ready : Ready w

Below-suc : (n : ℕ) (i : ℤ) → Below i n → Below i (suc n)
Below-suc n (pos i) h = omega arith
Below-suc n (negsuc i) h = elim h [ ]

-- The selections that a key asks for are in range.
selected-Good : (ch : ℤ) (w : World) → Inv w → Good (selected ch w)
selected-Good ch w i = record {
  tab = rw i.ready.count (next_tab-Below ch w.active_tab i.good.tab);
  device = elim (Bool-cases (leb w.dctx.device_count 1)) [
    | inl few ↦ rw few i.good.device
    | inr many ↦
        let some_device : 0 < w.dctx.device_count = ground arith in
        let b =
          next_device-Below w.dctx.device_count ch w.active_device i.good.table.few some_device
            (i.good.device.1 some_device) in
        rw many (Below-suc w.dctx.device_count _ b, λ h. b)
  ];
  table = i.good.table;
  safe = i.good.safe;
}

module _ (env : Env) where
  -- A key keeps the invariant.
  pub dispatch-Inv :
      (ch : ℤ) (w : World) → Inv w → Inv (windows_dispatch_input (all_ops env) ch w).1
  dispatch-Inv ch w i =
      let f = Frame-windows_dispatch_input env ch w i.ready.setup (Good-TabOk i.good) in
      record {
        good = Frame-Good f (selected-Good ch w i);
        ready = Frame-Ready f (record { setup = i.ready.setup; count = i.ready.count });
      }
