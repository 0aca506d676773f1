-- ===== src/Tui/Frame.antt =====
-- What a command leaves alone: the rules that carry it through sequences of commands.
pub mod Drawing
pub mod Pages
pub mod Select
pub mod Dispatch
pub mod Runs
pub mod Windows
use amdtop.Base.{
  ℕ, zero, suc, ◌≡◌, refl, ◌∙◌, Bool, true, false, Option, none, some, ℤ, pos, negsuc, arith,
  to_u32, is_some,
}
use amdtop.Tui.World.{
  World, Call, Cmd, Env, checked, ◌>>◌, ◌>>=◌, return, ignore, call, modify, when, crash,
}
use amdtop.Tui.Tabinfo.{get_tab_info_by_index}

-- The active tab is one of the table.
abbrev pub TabOk : World → Type 0
TabOk w = is_some (get_tab_info_by_index (to_u32 w.active_tab)) ≡ true

-- The two selections, the device table and the flags are as they were, and no NULL pointer is
-- followed where the active tab exists. With `q` true the request to exit may change.
pub record Frame (q : Bool) (w w' : World) : Type 0 where
  pub device : w'.active_device ≡ w.active_device
  pub tab : w'.active_tab ≡ w.active_tab
  pub table : w'.dctx ≡ w.dctx
  pub count : w'.tab_count ≡ w.tab_count
  pub setup : w'.setup ≡ w.setup
  pub exit : q ≡ false → w'.request_exit ≡ w.request_exit
  pub fault : TabOk w → w'.fault ≡ w.fault

pub Frame-refl : {q : Bool} (w : World) → Frame q w w
Frame-refl w = record {
  device = refl;
  tab = refl;
  table = refl;
  count = refl;
  setup = refl;
  exit = λ h. refl;
  fault = λ h. refl;
}

pub Frame-trans : {q : Bool} {u v w : World} → Frame q u v → Frame q v w → Frame q u w
Frame-trans f g = record {
  device = g.device ∙ f.device;
  tab = g.tab ∙ f.tab;
  table = g.table ∙ f.table;
  count = g.count ∙ f.count;
  setup = g.setup ∙ f.setup;
  exit = λ h. g.exit h ∙ f.exit h;
  fault = λ h. g.fault (rw f.tab h) ∙ f.fault h;
}

pub Frame-checked :
    {q : Bool} {w : World} (r : ℤ × World) (k : Cmd)
    → Frame q w r.1
    → ((w' : World) → Frame q w' (k w').1)
    → Frame q w (checked r k).1
Frame-checked (pos zero, w') k f g = Frame-trans f (g w')
Frame-checked (pos (suc n), w') k f g = f
Frame-checked (negsuc n, w') k f g = f

pub record Keeps (q : Bool) (m : Cmd) : Type 0 where
  pub apply : (w : World) → Frame q w (m w).1

pub Keeps->> : {q : Bool} {m k : Cmd} → Keeps q m → Keeps q k → Keeps q (m >> k)
unfolding ◌>>◌
Keeps->> {m} {k} f g = record { apply = λ w. Frame-checked (m w) k (f.apply w) g.apply }

pub Keeps->>= :
    {q : Bool} {A : Type 0} (e : World → A) {k : A → Cmd}
    → ((a : A) → Keeps q (k a))
    → Keeps q (e >>= k)
unfolding ◌>>=◌
Keeps->>= e f = record { apply = λ w. (f (e w)).apply w }

pub Keeps-call : {q : Bool} (c : Call) → Keeps q (call c)
unfolding call
Keeps-call c = record {
  apply = λ w. record {
    device = refl;
    tab = refl;
    table = refl;
    count = refl;
    setup = refl;
    exit = λ h. refl;
    fault = λ h. refl;
  };
}

pub Keeps-ignore : {q : Bool} {m : Cmd} → Keeps q m → Keeps q (ignore m)
unfolding ignore
Keeps-ignore f = record { apply = λ w. f.apply w }

pub Keeps-return : {q : Bool} (r : ℤ) → Keeps q (return r)
unfolding return
Keeps-return r = record { apply = Frame-refl }

pub Keeps-when : {q : Bool} (b : Bool) {m : Cmd} → Keeps q m → Keeps q (when b m)
unfolding when
Keeps-when true f = f
Keeps-when false f = record { apply = Frame-refl }

pub Keeps-skip : {q : Bool} (m : Cmd) → Keeps q (when false m)
unfolding when
Keeps-skip m = record { apply = Frame-refl }

pub Keeps-modify :
    {q : Bool} (f : World → World) → ((w : World) → Frame q w (f w)) → Keeps q (modify f)
unfolding modify
Keeps-modify f h = record { apply = h }

pub Keeps-weaken : {q : Bool} {m : Cmd} → Keeps false m → Keeps q m
Keeps-weaken f = record {
  apply = λ w. record {
    device = (f.apply w).device;
    tab = (f.apply w).tab;
    table = (f.apply w).table;
    count = (f.apply w).count;
    setup = (f.apply w).setup;
    exit = λ h. (f.apply w).exit refl;
    fault = (f.apply w).fault;
  };
}

pub ruleset keeps =
    (Keeps->>, Keeps->>=, Keeps-call, Keeps-ignore, Keeps-return, Keeps-when, Keeps-skip)
