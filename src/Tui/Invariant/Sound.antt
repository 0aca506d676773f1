-- ===== src/Tui/Invariant/Sound.antt =====
-- Commands that keep the invariant and request no exit.
use amdtop.Base.{zero, suc, ◌≡◌, refl, ◌∙◌, Bool, false, ℤ, pos, negsuc}
use amdtop.Tui.World.{World, Cmd, checked}
use amdtop.Tui.Frame.{Frame}
use amdtop.Tui.Invariant.{Good, Ready, Good-TabOk}

pub record Sound (w w' : World) : Type 0 where
  pub good : Good w → Good w'
  pub ready : Ready w → Ready w'
  pub exit : w'.request_exit ≡ w.request_exit

pub Sound-refl : (w : World) → Sound w w
Sound-refl w = record { good = λ g. g; ready = λ r. r; exit = refl }

pub Sound-trans : {u v w : World} → Sound u v → Sound v w → Sound u w
Sound-trans a b = record {
  good = λ g. b.good (a.good g);
  ready = λ r. b.ready (a.ready r);
  exit = b.exit ∙ a.exit;
}

pub Frame-Good : {q : Bool} {w w' : World} → Frame q w w' → Good w → Good w'
Frame-Good f g = record {
  tab = rw f.tab g.tab;
  device = rw (f.table, f.device) g.device;
  table = rw f.table g.table;
  safe = f.fault (Good-TabOk g) ∙ g.safe;
}

pub Frame-Ready : {q : Bool} {w w' : World} → Frame q w w' → Ready w → Ready w'
Frame-Ready f r = record { setup = f.setup ∙ r.setup; count = f.count ∙ r.count }

pub Frame-Sound : {w w' : World} → Frame false w w' → Sound w w'
Frame-Sound f = record { good = Frame-Good f; ready = Frame-Ready f; exit = f.exit refl }

pub Sound-checked :
    {w : World} (r : ℤ × World) (k : Cmd)
    → Sound w r.1
    → ((w' : World) → Sound w' (k w').1)
    → Sound w (checked r k).1
Sound-checked (pos zero, w') k f g = Sound-trans f (g w')
Sound-checked (pos (suc n), w') k f g = f
Sound-checked (negsuc n, w') k f g = f
